-- ===== src/Logging/Files.antt =====
-- The files that the messages go to.
use mathlib.Core.Path.{subst}
use avrouter.Prelude.{
  suc, ◌≤◌, ◌≡◌, ◌≢◌, ◌⊎◌, refl, sym, ap, ◌∙◌, Bool, true, false, Bool-cases, Option-cases, inl,
  inr, List, [], ◌∷◌, none, some, Bytes, equal, equal_refl, equal_iff, length, if◌then◌else◌, ltb,
  arith,
}
use avrouter.Prelude.Dict.{Dict, find}
use avrouter.Logging.{
  Date, Logger, Disk, set_file, append, insert_file, drop_first, make_filename, open_file,
  write_auto, write,
}

pub length-insert_file :
    (name : Bytes) (o : Bool) (list : Dict Bool)
    → length (insert_file name o list) ≡ suc (length list)
unfolding insert_file
length-insert_file name o [] = refl
length-insert_file name o ((n, p) ∷ list) = ground (arith, length-insert_file name o list)

find-insert_file :
    (name n : Bytes) (o : Bool) (list : Dict Bool)
    → find name list ≡ none
    → find n (insert_file name o list) ≡ (if equal name n then some o else find n list)
unfolding insert_file find
find-insert_file name n o [] h = refl
find-insert_file name n o ((m, p) ∷ list) h =
    ground
      (arith, h, equal_iff name n, equal_iff m n, equal_iff m name, find-insert_file name n o list)

module _ (removes : Bytes → Bool) (disk0 : Disk) where
  -- At most three files, and each other file that has changed is not there or cannot be removed.
  pub record IsFew (list : Dict Bool) (disk : Disk) : Type 0 where
    pub few : length list ≤ 3
    pub others :
        (n : Bytes)
        → find n list ≡ none
        → (disk n ≡ none) ⊎ (disk n ≡ disk0 n) ⊎ (removes n ≡ false)

  append-IsFew :
      (name str : Bytes) (list : Dict Bool) (disk : Disk)
      → find name list ≢ none
      → IsFew list disk
      → IsFew list (append name str disk)
  append-IsFew name str list disk h v = record {
    few = v.few;
    others = λ n k. elim (Bool-cases (equal name n)) [
      | inl e ↦ absurd (h (ap (λ m. find m list) ((equal_iff name n).0 e) ∙ k))
      | inr e ↦ rw e (v.others n k)
    ];
  }

  -- The map may have four files here.
  abbrev Others : Dict Bool → Disk → Type 0
  Others list disk =
      (n : Bytes) → find n list ≡ none → (disk n ≡ none) ⊎ (disk n ≡ disk0 n) ⊎ (removes n ≡ false)

  drop_first-Others :
      (m name : Bytes) (o opened : Bool) (list : Dict Bool) (disk : Disk)
      → Others ((m, o) ∷ list) disk
      → Others list (if removes m then set_file m none disk else disk)
  unfolding find
  drop_first-Others m name o opened list disk h n k = elim (Bool-cases (equal m n)) [
    | inl e ↦ elim (Bool-cases (removes m)) [
      | inl gone ↦ inl (rw (gone, e))
      | inr stays ↦ inr (inr (ap removes (sym ((equal_iff m n).0 e)) ∙ stays))
    ]
    | inr e ↦ elim (Bool-cases (removes m)) [
      | inl gone ↦ rw (gone, e) (h n (rw e k))
      | inr stays ↦ rw stays (h n (rw e k))
    ]
  ]

  insert-Others :
      (name : Bytes) (o : Bool) (list : Dict Bool) (disk disk1 : Disk)
      → find name list ≡ none
      → ((n : Bytes) → equal name n ≡ false → disk1 n ≡ disk n)
      → Others list disk
      → Others (insert_file name o list) disk1
  insert-Others name o list disk disk1 h same v n k =
      let listed = sym k ∙ find-insert_file name n o list h in
      elim (Bool-cases (equal name n)) [
        | inl e ↦ let no : none ≡ some o = listed ∙ rw e in cc
        | inr e ↦ let here : find n list ≡ none = sym (listed ∙ rw e) in rw (same n e) (v n here)
      ]

  -- The map, the files and the stream are as `IsFew` wants them, and an open stream is in the map.
  Opened : Bytes → Dict Bool × Disk × Bool → Type 0
  Opened name (list, disk, opened) = IsFew list disk × (opened ≡ true → find name list ≢ none)

  drop_first-Opened :
      (name : Bytes) (o : Bool) (list : Dict Bool) (disk : Disk)
      → length list ≡ 4
      → find name list ≡ some o
      → Others list disk
      → Opened name (drop_first removes list disk name o)
  unfolding Opened find
  drop_first-Opened name o [] disk h k v = absurd (omega (arith, h))
  drop_first-Opened name o ((m, p) ∷ list) disk h k v = (
    record { few = omega (arith, h); others = drop_first-Others m name p o list disk v },
    λ is_open gone. ground (arith, is_open, gone, k),
  )

  module _ (opens : Bytes → Bool) where
    -- The disk once a new file is opened.
    abbrev touched : Bytes → Disk → Disk
    touched name disk = if opens name then append name [] disk else disk

    touched-other :
        (name : Bytes) (disk : Disk) (n : Bytes)
        → equal name n ≡ false
        → touched name disk n ≡ disk n
    touched-other name disk n h = ground (arith, h)

    open_new :
        (name : Bytes) (list : Dict Bool) (disk : Disk)
        → find name list ≡ none
        → IsFew list disk
        → Opened name (open_file opens removes none name list disk)
    unfolding Opened open_file
    open_new name list disk h v =
        let o = opens name in
        let list1 = insert_file name o list in
        let size = length-insert_file name o list in
        let there : find name list1 ≡ some o =
          find-insert_file name name o list h ∙ rw (equal_refl name) in
        let others =
          insert-Others name o list disk (touched name disk) h (touched-other name disk) v.others in
        elim (Bool-cases (ltb 3 (length list1))) [
          | inl e ↦
              let four : length list1 ≡ 4 = ground (arith, e, size, v.few) in
              rw e (drop_first-Opened name o list1 (touched name disk) four there others)
          | inr e ↦
              let three : length list1 ≤ 3 = ground (arith, e) in
              rw e (
                record { few = three; others = others },
                λ is_open gone. let no : some o ≡ none = sym there ∙ gone in cc,
              )
        ]

    open_known :
        (name : Bytes) (o : Bool) (list : Dict Bool) (disk : Disk)
        → find name list ≡ some o
        → IsFew list disk
        → Opened name (open_file opens removes (some o) name list disk)
    unfolding Opened open_file
    open_known name o list disk h v =
        (v, λ is_open gone. let no : some o ≡ none = sym h ∙ gone in cc)

    open-Opened :
        (name : Bytes) (list : Dict Bool) (disk : Disk)
        → IsFew list disk
        → Opened name (open_file opens removes (find name list) name list disk)
    unfolding Opened
    open-Opened name list disk v = elim (Option-cases (find name list)) [
      | inl e ↦ rw e (open_new name list disk e v)
      | inr e ↦ rw (e.1) (open_known name e.0 list disk e.1 v)
    ]

    module _ (day_file : Bytes → Date → Bytes) where
      write_auto-IsFew :
          (str : Bytes) (now again : Date) (l : Logger) (disk : Disk)
          → IsFew l.log_list disk
          → let (l', disk') = write_auto day_file opens removes str now again l disk in
            IsFew l'.log_list disk'
      unfolding write_auto Opened
      write_auto-IsFew str now again l disk v =
          let name = (make_filename day_file now again l).last_filename in
          let (v1, listed) = open-Opened name l.log_list disk v in
          let (list, disk1, opened) =
            open_file opens removes (find name l.log_list) name l.log_list disk in
          elim (Bool-cases opened) [
            | inl e ↦ rw e (append-IsFew name str list disk1 (listed e) v1)
            | inr e ↦ rw e v1
          ]

-- What is written, and what the clock says at its two readings.
abbrev pub Entry : Type 0
Entry = Bytes × Date × Date

module _ (day_file : Bytes → Date → Bytes) (opens removes : Bytes → Bool) where
  unfoldable pub write_all : List Entry → Logger → Disk → Logger × Disk
  write_all [] l disk = (l, disk)
  write_all ((str, now, again) ∷ entries) l disk =
      let (l1, disk1) = write day_file opens removes str now again l disk in
      write_all entries l1 disk1

  auto_mode-write :
      (str : Bytes) (now again : Date) (l : Logger) (disk : Disk)
      → l.auto_mode ≡ true
      → write day_file opens removes str now again l disk
        ≡ write_auto day_file opens removes str now again l disk
  unfolding write
  auto_mode-write str now again l disk h = rw h

  stays_auto :
      (str : Bytes) (now again : Date) (l : Logger) (disk : Disk)
      → l.auto_mode ≡ true
      → (write_auto day_file opens removes str now again l disk).0.auto_mode ≡ true
  unfolding write_auto make_filename
  stays_auto str now again l disk h = ground (arith, h)

  write_all-IsFew_from :
      (disk0 : Disk) (entries : List Entry) (l : Logger) (disk : Disk)
      → l.auto_mode ≡ true
      → IsFew removes disk0 l.log_list disk
      → let (l', disk') = write_all entries l disk in IsFew removes disk0 l'.log_list disk'
  unfolding write_all
  write_all-IsFew_from disk0 [] l disk a v = v
  write_all-IsFew_from disk0 ((str, now, again) ∷ entries) l disk a v =
      let r = write_auto day_file opens removes str now again l disk in
      subst
        (λ x.
          let (l', disk') = write_all entries (x.0) (x.1) in IsFew removes disk0 l'.log_list disk')
        (sym (auto_mode-write str now again l disk a))
        (write_all-IsFew_from disk0 entries (r.0) (r.1) (stays_auto str now again l disk a)
          (write_auto-IsFew removes disk0 opens day_file str now again l disk v))

  -- Whatever is written on whatever days, by a logger that makes its files by the day and has made
  -- none yet, it has at most three of them open, and every other file is as it was at the start, or
  -- is not there, or is one that the system does not remove.
  pub write_all-IsFew :
      (entries : List Entry) (l : Logger) (disk : Disk)
      → l.auto_mode ≡ true
      → l.log_list ≡ []
      → let (l', disk') = write_all entries l disk in IsFew removes disk l'.log_list disk'
  write_all-IsFew entries l disk a h =
      write_all-IsFew_from disk entries l disk a
        (rw h (record { few = omega arith; others = λ n k. inr (inl refl) }))
