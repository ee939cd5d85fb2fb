-- ===== src/Logging/Content.antt =====
-- What a message leaves in the file of its day.
use avrouter.Prelude.{
  ◌≤◌, ◌≡◌, ◌≢◌, refl, ap, ◌∙◌, Bool, true, false, Bool-cases, Option-cases, inl, inr, ◌&&◌, [],
  ◌∷◌, ◌++◌, append-nil, Option, none, some, Bytes, equal, equal_refl, length, if◌then◌else◌, ltb,
  leb, arith,
}
use avrouter.Prelude.Dict.{Dict, find}
use avrouter.Logging.{
  Date, Logger, Disk, content, set_file, append, less, insert_file, drop_first, make_filename,
  open_file, write_auto,
}
use avrouter.Logging.Files.{length-insert_file}

-- The name would be the first in the map.
abbrev leads : Bytes → Dict Bool → Bool
leads name [] = true
leads name ((n, o) ∷ list) = less name n

abbrev pub lost_new : Option Bool → Bytes → Dict Bool → Bool
lost_new none name list = leb 3 (length list) && leads name list
lost_new (some _) name list = false

-- A new file would be the first of four.
abbrev pub is_lost : Bytes → Dict Bool → Bool
is_lost name list = lost_new (find name list) name list

-- How the stream of a name stands after `open_file`, given whether a file can be removed.
abbrev Leaves : (Bytes → Bool) → Bytes → Bool → Disk → Dict Bool × Disk × Bool → Type 0
Leaves removes name true disk (list, disk1, opened) =
    (opened ≡ false) × (disk1 name ≡ (if removes name then none else some (content (disk name))))
Leaves removes name false disk (list, disk1, opened) =
    (opened ≡ true) × (content (disk1 name) ≡ content (disk name))

touched-name :
    (name : Bytes) (disk : Disk) → content (append name [] disk name) ≡ content (disk name)
touched-name name disk = rw (equal_refl name, append-nil)

kept :
    (removes : Bytes → Bool) (m name : Bytes) (disk : Disk)
    → equal m name ≡ false
    → content ((if removes m then set_file m none disk else disk) name) ≡ content (disk name)
kept removes m name disk other = elim (Bool-cases (removes m)) [
  | inl e ↦ rw (e, other)
  | inr e ↦ rw e
]

first_file :
    (removes : Bytes → Bool) (name : Bytes) (disk : Disk)
    → (if removes name then set_file name none (append name [] disk) else append name [] disk) name
      ≡ (if removes name then none else some (content (disk name)))
first_file removes name disk = elim (Bool-cases (removes name)) [
  | inl e ↦ rw (e, equal_refl name)
  | inr e ↦ rw (e, equal_refl name, append-nil (content (disk name)))
]

drop_first-Leaves :
    (removes : Bytes → Bool) (name : Bytes) (list : Dict Bool) (disk : Disk)
    → find name list ≡ none
    → list ≢ []
    → Leaves removes name
        (leads name list)
        disk
        (drop_first removes (insert_file name true list) (append name [] disk) name true)
unfolding insert_file find
drop_first-Leaves removes name [] disk h ne = absurd (ne refl)
drop_first-Leaves removes name ((m, p) ∷ list) disk h ne = elim (Bool-cases (less name m)) [
  | inl e ↦ rw (e, equal_refl name) (refl, first_file removes name disk)
  | inr e ↦
      let other : equal m name ≡ false = ground (arith, h) in
      rw (e, other) (refl, kept removes m name (append name [] disk) other ∙ touched-name name disk)
]

written :
    (removes : Bytes → Bool) (name str : Bytes) (disk : Disk) (lost : Bool)
    (r : Dict Bool × Disk × Bool)
    → Leaves removes name lost disk r
    → (if r.2 then append name str (r.1) else r.1) name ≡ (
        if lost
        then (if removes name then none else some (content (disk name)))
        else some (content (disk name) ++ str))
written removes name str disk true (list, disk1, opened) (shut, gone) = rw shut gone
written removes name str disk false (list, disk1, opened) (shut, same) =
    rw (shut, equal_refl name, same)

module _ (opens removes : Bytes → Bool) where
  open_new :
      (name : Bytes) (list : Dict Bool) (disk : Disk)
      → opens name ≡ true
      → find name list ≡ none
      → length list ≤ 3
      → Leaves removes name
          (leb 3 (length list) && leads name list)
          disk
          (open_file opens removes none name list disk)
  unfolding open_file
  open_new name list disk o h few =
      let size = length-insert_file name true list in
      elim (Bool-cases (leb 3 (length list))) [
        | inl e ↦
            let full : ltb 3 (length (insert_file name true list)) ≡ true =
              ground (arith, e, size) in
            let many : 3 ≤ length list = ground (arith, e) in
            let ne : list ≢ [] = λ n. let no = ap length n in omega (arith, no, many) in
            rw (o, e, full) (drop_first-Leaves removes name list disk h ne)
        | inr e ↦
            let room : ltb 3 (length (insert_file name true list)) ≡ false =
              ground (arith, e, size, few) in
            rw (o, e, room) (refl, touched-name name disk)
      ]

  open-Leaves :
      (name : Bytes) (list : Dict Bool) (disk : Disk)
      → opens name ≡ true
      → find name list ≢ some false
      → length list ≤ 3
      → Leaves removes name
          (is_lost name list)
          disk
          (open_file opens removes (find name list) name list disk)
  unfolding open_file
  open-Leaves name list disk o h few = elim (Option-cases (find name list)) [
    | inl e ↦ rw e (open_new name list disk o e few)
    | inr e ↦ elim (Bool-cases e.0) [
      | inl t ↦ rw (e.1, t) (refl, refl)
      | inr f ↦ absurd (h (e.1 ∙ ap some f))
    ]
  ]

  -- A message for which the file of its day can be opened stands at the end of that file, with what
  -- was there before it, when at most three files are open and no stream for the day has failed.
  -- Only when three files are open whose names are all behind that of the day, as after the clock
  -- was set back, the message is lost, and the file of the day is deleted with what was in it, or
  -- keeps just that if it cannot be removed.
  pub write_auto-content :
      (day_file : Bytes → Date → Bytes) (str : Bytes) (now again : Date) (l : Logger) (disk : Disk)
      → let name = (make_filename day_file now again l).last_filename in
        opens name ≡ true
        → find name l.log_list ≢ some false
        → length l.log_list ≤ 3
        → (write_auto day_file opens removes str now again l disk).1 name ≡ (
            if is_lost name l.log_list
            then (if removes name then none else some (content (disk name)))
            else some (content (disk name) ++ str))
  unfolding write_auto
  write_auto-content day_file str now again l disk o h few =
      let name = (make_filename day_file now again l).last_filename in
      written removes name str disk (is_lost name l.log_list)
        (open_file opens removes (find name l.log_list) name l.log_list disk)
        (open-Leaves name l.log_list disk o h few)
