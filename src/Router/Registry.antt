-- ===== src/Router/Registry.antt =====
-- The tables of callbacks against what they promise: a partial function from names.
use avrouter.Prelude.{
  ◌≡◌, refl, ap, ◌∙◌, Bool, true, false, List, [], ◌∷◌, Option, none, some, Bytes, equal, equal_iff,
  if◌then◌else◌, arith,
}
use avrouter.Prelude.Dict.{Dict, find, find-assign, find-erase}
use avrouter.Router.{add_process_moudle, del_process_moudle}

-- The calls that change a table.
pub data Call (V : Type 0) : Type 0 where
  add : Bytes → V → Call V
  del : Bytes → Call V

abbrev pub Registry : Type 0 → Type 0
Registry V = Bytes → Option V

module _ {V : Type 0} where
  unfoldable pub call : Call V → Dict V → Bool × Dict V
  call (add name cb) table = add_process_moudle name cb table
  call (del name) table = del_process_moudle name table

  -- The answers of the calls, and the table after them.
  unfoldable pub calls : List (Call V) → Dict V → List Bool × Dict V
  calls [] table = ([], table)
  calls (c ∷ cs) table =
      let (answer, table1) = call c table in
      let (answers, table2) = calls cs table1 in (answer ∷ answers, table2)

  abbrev pub is_some : Option V → Bool
  is_some none = false
  is_some (some _) = true

  abbrev pub keep_first : Option V → V → Option V
  keep_first none cb = some cb
  keep_first (some old) cb = some old

  -- What the calls promise: `add` succeeds on a free name and never replaces, `del` on a taken one.
  unfoldable pub promised : Call V → Registry V → Bool × Registry V
  promised (add name cb) r = (
    if is_some (r name) then false else true,
    λ k. if equal name k then keep_first (r name) cb else r k,
  )
  promised (del name) r = (is_some (r name), λ k. if equal name k then none else r k)

  unfoldable pub promised_all : List (Call V) → Registry V → List Bool × Registry V
  promised_all [] r = ([], r)
  promised_all (c ∷ cs) r =
      let (answer, r1) = promised c r in
      let (answers, r2) = promised_all cs r1 in (answer ∷ answers, r2)

  -- The table stands for the registry.
  abbrev pub Stands : Dict V → Registry V → Type 0
  Stands table r = (k : Bytes) → find k table ≡ r k

  add-Stands :
      (name : Bytes) (cb : V) (table : Dict V) (r : Registry V)
      → Stands table r
      → ((call (add name cb) table).0 ≡ (promised (add name cb) r).0)
        × Stands ((call (add name cb) table).1) ((promised (add name cb) r).1)
  unfolding call promised add_process_moudle
  add-Stands name cb table r h = (
    ground (arith, h name),
    λ k. ground (arith, h name, h k, find-assign name k cb table, equal_iff name k),
  )

  del-Stands :
      (name : Bytes) (table : Dict V) (r : Registry V)
      → Stands table r
      → ((call (del name) table).0 ≡ (promised (del name) r).0)
        × Stands ((call (del name) table).1) ((promised (del name) r).1)
  unfolding call promised del_process_moudle
  del-Stands name table r h = (
    ground (arith, h name),
    λ k. ground (arith, h name, h k, find-erase name k table, equal_iff name k),
  )

  call-Stands :
      (c : Call V) (table : Dict V) (r : Registry V)
      → Stands table r
      → ((call c table).0 ≡ (promised c r).0) × Stands ((call c table).1) ((promised c r).1)
  call-Stands (add name cb) table r h = add-Stands name cb table r h
  call-Stands (del name) table r h = del-Stands name table r h

  -- Any calls of `add_..._process_moudle` and `del_..._process_moudle` on a table that stands for a
  -- partial function answer as promised: `add` on a name that is free, and never replaces what is
  -- there, `del` on a name that is taken; and the table after them stands for the function
  -- promised.
  pub calls-Stands :
      (cs : List (Call V)) (table : Dict V) (r : Registry V)
      → Stands table r
      → ((calls cs table).0 ≡ (promised_all cs r).0)
        × Stands ((calls cs table).1) ((promised_all cs r).1)
  unfolding calls promised_all
  calls-Stands [] table r h = (refl, h)
  calls-Stands (c ∷ cs) table r h =
      let (e, h1) = call-Stands c table r h in
      let (es, h2) = calls-Stands cs ((call c table).1) ((promised c r).1) h1 in
      (ap (λ b. b ∷ (calls cs ((call c table).1)).0) e ∙ ap (λ bs. (promised c r).0 ∷ bs) es, h2)
