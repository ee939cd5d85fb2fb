-- ===== src/Tests/Logging.antt =====
-- A logger over a few days.
use avrouter.Prelude.{
  ℕ, ◌≡◌, refl, Bool, true, false, List, [], ◌∷◌, ◌++◌, none, Bytes, codes, arith, equal,
}
use avrouter.Prelude.Dict.{find}
use avrouter.Logging.{Date, Logger, Disk, less, make_filename, write_auto}
use avrouter.Logging.Files.{Entry, IsFew, write_all, write_all-IsFew}
use avrouter.Logging.Day.{Statement}
use avrouter.Logging.Content.{write_auto-content}

abbrev march : ℕ → Date
march d = record { year = 2014; month = 3; day = d }

abbrev april : ℕ → Date
april d = record { year = 2014; month = 4; day = d }

abbrev in_path : Bytes → Date → Bytes
in_path path date = path ++ date.month ∷ date.day ∷ []

abbrev all_open : Bytes → Bool
all_open name = true

abbrev empty_disk : Disk
empty_disk name = none

abbrev fresh : Logger
fresh = record {
  file = none;
  file_failed = false;
  auto_mode = true;
  log_path = codes "p";
  log_list = [];
  last_day = none;
  last_filename = [];
}

abbrev on_day : ℕ → Entry
on_day d = (codes "m", march d, march d)

abbrev five_days : List Entry
five_days = on_day 1 ∷ on_day 2 ∷ on_day 3 ∷ on_day 4 ∷ on_day 5 ∷ []

write_all-IsFew_example :
    let (l, disk) = write_all in_path all_open all_open five_days fresh empty_disk in
    IsFew all_open empty_disk l.log_list disk
write_all-IsFew_example =
    write_all-IsFew in_path all_open all_open five_days fresh empty_disk refl refl

-- The clock is set back before the three open files.
abbrev three_files : Logger
three_files = record fresh {
  log_list =
      (codes "p" ++ 3 ∷ 2 ∷ [], true)
      ∷ (codes "p" ++ 3 ∷ 3 ∷ [], true)
      ∷ (codes "p" ++ 3 ∷ 4 ∷ [], true)
      ∷ [];
}

write_auto-content_example :
    (write_auto in_path all_open all_open (codes "m") (march 1) (march 1) three_files empty_disk).1
      (codes "p" ++ 3 ∷ 1 ∷ [])
    ≡ none
unfolding make_filename find less equal
write_auto-content_example =
    write_auto-content all_open all_open in_path (codes "m") (march 1) (march 1) three_files
      empty_disk refl (λ e. cc) (omega arith)

-- The same day of the next month goes to the file of this month.
next_month :
    (make_filename in_path
      (april 1)
      (april 1)
      (make_filename in_path (march 1) (march 1) fresh)).last_filename
    ≡ codes "p" ++ 3 ∷ 1 ∷ []
unfolding make_filename
next_month = refl

abbrev statement : Bytes → Statement
statement text = record {
  level = codes "DEBUG";
  disable_cout = true;
  values = text ∷ codes "!" ∷ [];
  printed = codes "09:30:07.042999";
  now = march 1;
  again = march 1;
}

abbrev two_statements : List Statement
two_statements = statement (codes "a") ∷ statement (codes "b") ∷ []
