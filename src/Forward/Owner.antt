-- ===== src/Forward/Owner.antt =====
-- Whom the routes belong to, as long as no connection sends under two names.
use mathlib.Core.Path.{subst}
use avrouter.Prelude.{
  ℕ, ◌≡◌, ◌≢◌, sym, ap, ◌∙◌, Bool, true, false, List, [], ◌∷◌, ◌++◌, Option, none, some,
  Option-cases, inl, inr, equal_refl, Bytes, Run, ok, fault, ◌>>=◌, >>=-eq-ok, if◌then◌else◌, ◌==◌,
  equal_iff, arith, All,
}
use avrouter.Prelude.Dict.{find, find-insert, find-erase}
use avrouter.ModulePrivate.{
  Any, of_string, cast_string, retrive_module_private, store_module_private, after_retrive,
  retrive-store, retrive-after_retrive,
}
use avrouter.Forward.{
  Avpacket, Forward, username_key, set_infos, connection_notify, erase_route, learn, process_packet,
}
use avrouter.Forward.Routing.{process_packet_lem, outcome, route, sent_to}

-- What the router calls the module with.
pub data Call : Type 0 where
  -- with the connections that are there at the time
  packet : (ℕ → Bool) → Avpacket → ℕ → Call
  notice : ℕ → ℕ → Call

-- A connection sends under its one name.
abbrev pub IsHonest : (ℕ → Bytes) → Call → Type 0
IsHonest name (packet alive pkt c) = pkt.src_username ≡ name c
IsHonest name (notice type c) = Unit

module _ {Cert : Type 0} where
  -- What the module has stored of a connection's user.
  abbrev pub known : Forward Cert → ℕ → Any Cert
  known f c = retrive_module_private username_key (f.infos c)

  -- A route leads to the connection whose name it has, and the connection knows the name.
  pub record Inv (name : ℕ → Bytes) (f : Forward Cert) : Type 0 where
    pub owner : (u : Bytes) (c : ℕ) → find u f.routing_table ≡ some c → u ≡ name c
    pub knows : (u : Bytes) (c : ℕ) → find u f.routing_table ≡ some c → known f c ≡ of_string u

  known-set :
      (f : Forward Cert) (u : Bytes) (c d : ℕ)
      → retrive_module_private username_key
          (set_infos c (store_module_private username_key (of_string u) (f.infos c)) f.infos d)
        ≡ (if c == d then of_string u else known f d)
  known-set f u c d = ground (
    arith,
    retrive-store username_key username_key (of_string u) (f.infos c),
    equal_refl username_key,
  )

  learn-Inv :
      (name : ℕ → Bytes) (pkt : Avpacket) (c : ℕ) (f : Forward Cert)
      → pkt.src_username ≡ name c
      → Inv name f
      → Inv name (learn pkt c f)
  unfolding learn
  learn-Inv name pkt c f own v = elim (Option-cases (find pkt.src_username f.routing_table)) [
    | inl e ↦
        rw (learn, e)
          record {
            owner = λ u d h. ground (
              arith,
              own,
              v.owner u d,
              h,
              find-insert pkt.src_username u c f.routing_table e,
              equal_iff pkt.src_username u,
            );
            knows = λ u d h. ground (
              arith,
              known-set f pkt.src_username c d,
              own,
              v.owner u d,
              v.knows u d,
              h,
              find-insert pkt.src_username u c f.routing_table e,
              equal_iff pkt.src_username u,
            );
          }
    | inr (d, e) ↦ rw (learn, e) v
  ]

  retrived : ℕ → Forward Cert → Forward Cert
  retrived c f = record f { infos = set_infos c (after_retrive username_key (f.infos c)) f.infos }

  known-retrived : (f : Forward Cert) (c d : ℕ) → known (retrived c f) d ≡ known f d
  unfolding retrived
  known-retrived f c d = ground (arith, retrive-after_retrive username_key username_key (f.infos c))

  retrived-Inv :
      (name : ℕ → Bytes) (c : ℕ) (f : Forward Cert) → Inv name f → Inv name (retrived c f)
  unfolding retrived
  retrived-Inv name c f v = record {
    owner = v.owner;
    knows = λ u d h. known-retrived f c d ∙ v.knows u d h;
  }

  erase_route-Inv :
      (name : ℕ → Bytes) (m : Run Bytes) (f : Forward Cert)
      → Inv name f
      → Inv name (erase_route m f)
  unfolding erase_route
  erase_route-Inv name (fault why) f v = v
  erase_route-Inv name (ok username) f v = record {
    owner = λ u d h. ground (arith, find-erase username u f.routing_table, v.owner u d, h);
    knows = λ u d h. ground (arith, find-erase username u f.routing_table, v.knows u d, h);
  }

  choose-Inv :
      (name : ℕ → Bytes) (b : Bool) (f g : Forward Cert)
      → Inv name f
      → Inv name g
      → Inv name (if b then f else g)
  choose-Inv name true f g v w = v
  choose-Inv name false f g v w = w

  notify-Inv :
      (name : ℕ → Bytes) (type c : ℕ) (f : Forward Cert)
      → Inv name f
      → Inv name (connection_notify type c f)
  unfolding connection_notify retrived
  notify-Inv name type c f v =
      choose-Inv name (type == 0) f _ v
        (erase_route-Inv name (cast_string (known f c)) (retrived c f) (retrived-Inv name c f v))

  erase_route_removes :
      (m : Run Bytes) (c : ℕ) (f : Forward Cert) (u : Bytes)
      → (find u f.routing_table ≡ some c → m ≡ ok u)
      → find u (erase_route m f).routing_table ≢ some c
  unfolding erase_route
  erase_route_removes (fault why) c f u h e = ground (arith, h e)
  erase_route_removes (ok username) c f u h e =
      ground (arith, find-erase username u f.routing_table, equal_iff username u, h, e)

  notify_removes :
      (name : ℕ → Bytes) (type c : ℕ) (f : Forward Cert) (u : Bytes)
      → Inv name f
      → type ≢ 0
      → find u (connection_notify type c f).routing_table ≢ some c
  unfolding connection_notify retrived
  notify_removes name type c f u v h e =
      let stopped : (type == 0) ≡ false = ground (arith, h) in
      erase_route_removes (cast_string (known f c)) c (retrived c f) u
        (λ there. ap cast_string (v.knows u c there))
        (subst
          (λ b.
            find u
              (if b then f else erase_route (cast_string (known f c)) (retrived c f)).routing_table
            ≡ some c)
          stopped e)

  outcome-Inv :
      (name : ℕ → Bytes) (encode : Avpacket → Bytes) (alive : ℕ → Bool) (target : Option ℕ)
      (pkt : Avpacket) (f f' : Forward Cert)
      → outcome encode alive target pkt f ≡ ok f'
      → Inv name f
      → Inv name f'
  outcome-Inv name encode alive none pkt f f' e v = cc
  outcome-Inv name encode alive (some target) pkt f f' e v =
      let g : Forward Cert = record f { written = f.written ++ sent_to encode alive pkt target } in
      let same : g ≡ f' = cc e in subst (Inv name) same record { owner = v.owner; knows = v.knows }

  -- The module after these calls, from its start.
  abbrev pub new_forward : Forward Cert
  new_forward = record { routing_table = []; infos = λ c. []; written = [] }

  module _ (encode : Avpacket → Bytes) where
    unfoldable pub step : Call → Forward Cert → Run (Forward Cert)
    step (packet alive pkt c) f = process_packet encode alive (some pkt) c f
    step (notice type c) f = ok (connection_notify type c f)

    unfoldable pub run : List Call → Forward Cert → Run (Forward Cert)
    run [] f = ok f
    run (call ∷ calls) f = do f' ← step call f; run calls f'

    step-Inv :
        (name : ℕ → Bytes) (call : Call) (f f' : Forward Cert)
        → IsHonest name call
        → step call f ≡ ok f'
        → Inv name f
        → Inv name f'
    unfolding step
    step-Inv name (packet alive pkt c) f f' own e v =
        outcome-Inv name encode alive (route pkt c f) pkt (learn pkt c f) f'
          (sym (process_packet_lem encode alive pkt c f) ∙ e) (learn-Inv name pkt c f own v)
    step-Inv name (notice type c) f f' own e v =
        subst (Inv name) (cc e) (notify-Inv name type c f v)

    run-Inv :
        (name : ℕ → Bytes) (calls : List Call) (f f' : Forward Cert)
        → All (IsHonest name) calls
        → run calls f ≡ ok f'
        → Inv name f
        → Inv name f'
    unfolding run
    run-Inv name [] f f' h e v = subst (Inv name) (cc e) v
    run-Inv name (call ∷ calls) f f' (own, h) e v =
        let (f1, first, later) = >>=-eq-ok (step call f) (run calls) e in
        run-Inv name calls f1 f' h later (step-Inv name call f f1 own first v)

    -- If every connection sends under one name of its own, then after any packets and notices every
    -- route leads to the connection whose name it has, and the notice that a connection was stopped
    -- leaves no route to that connection.
    pub run_removes :
        (name : ℕ → Bytes) (calls : List Call) (f : Forward Cert) (type c : ℕ)
        → All (IsHonest name) calls
        → run calls new_forward ≡ ok f
        → type ≢ 0
        → ((u : Bytes) (d : ℕ) → find u f.routing_table ≡ some d → u ≡ name d)
          × ((u : Bytes) → find u (connection_notify type c f).routing_table ≢ some c)
    unfolding find
    run_removes name calls f type c h e stopped =
        let v =
          run-Inv name calls new_forward f h e
            record { owner = λ u d k. cc; knows = λ u d k. cc } in
        (v.owner, λ u. notify_removes name type c f u v stopped)
