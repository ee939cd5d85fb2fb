-- ===== src/Logging/Day.antt =====
-- The log of one day, from AUTO_LOGGER on.
use avrouter.Prelude.{
  ℕ, ◌-◌, ◌≤◌, ◌≡◌, Bool, true, false, List, [], ◌∷◌, ◌++◌, none, some, Bytes, codes, length, take,
  if◌then◌else◌, ltb, Run, ok, ◌>>=◌,
}
use avrouter.Logging.{Date, Logger, Disk, output_console}
use avrouter.Logging.Lines.{new_stream, put_all, destroy}

-- A statement such as `LOG_DBG << a << b`: what is printed of its values and of the time, and the
-- two times that the clock is read for the name of the file.
pub record Statement : Type 0 where
  pub level : Bytes
  pub disable_cout : Bool
  pub values : List Bytes
  pub printed : Bytes
  pub now : Date
  pub again : Date

abbrev pub joined : List Bytes → Bytes
joined [] = []
joined (v ∷ vs) = v ++ joined vs

-- A time without its last three digits.
abbrev pub trimmed : Bytes → Bytes
trimmed printed = if ltb 3 (length printed) then take (length printed - 3) printed else printed

-- The line of a statement.
abbrev prefix : Statement → Bytes
prefix s = (trimmed s.printed ++ codes " ") ++ (codes "[" ++ (s.level ++ codes "]: "))

abbrev message : Statement → Bytes
message s = joined s.values ++ codes "\n"

abbrev pub line : Statement → Bytes
line s = prefix s ++ message s

abbrev said : Statement → Bytes
said s = if s.disable_cout then [] else output_console s.level (prefix s) (message s)

abbrev pub lines : List Statement → Bytes
lines [] = []
lines (s ∷ rest) = line s ++ lines rest

-- On the day of the month `day`, with a time that fits.
abbrev pub IsOn : ℕ → Statement → Type 0
IsOn day s = (s.now.day ≡ day) × (length s.printed ≤ 201)

-- The logger whose only file is that of the day.
abbrev on_day : Bytes → Bytes → Date → Logger
on_day path name first = record {
  file = none;
  file_failed = false;
  auto_mode = true;
  log_path = path;
  log_list = (name, true) ∷ [];
  last_day = some first;
  last_filename = name;
}

-- The logger before it is opened.
abbrev pub closed : Bool → Bytes → Logger
closed auto_mode path = record {
  file = none;
  file_failed = false;
  auto_mode = auto_mode;
  log_path = path;
  log_list = [];
  last_day = none;
  last_filename = [];
}

module _ (day_file : Bytes → Date → Bytes) (opens removes : Bytes → Bool) where
  unfoldable pub log_statement : Statement → Logger → Disk → Run ((Logger × Disk) × Bytes)
  log_statement s l disk =
      destroy day_file opens removes (put_all s.values (new_stream s.level s.disable_cout))
        s.printed s.now s.again l disk

  unfoldable pub log_all : List Statement → Logger → Disk → Run (Logger × Disk)
  log_all [] l disk = ok (l, disk)
  log_all (s ∷ rest) l disk = log_statement s l disk >>= λ r. log_all rest r.0.0 r.0.1
