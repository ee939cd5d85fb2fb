-- ===== src/Logging.antt =====
-- include/logging.hpp: the file that a message is logged to, and its line on the console, on a
-- system other than Windows. The names that boost makes of a day and a path, and which files can be
-- opened and removed, are parameters. The lock makes each call one step.
pub mod Files
pub mod Content
pub mod Lines
pub mod Day
use avrouter.Prelude.{
  ℕ, ◌+◌, Bool, true, false, not, ◌||◌, ◌&&◌, List, [], ◌∷◌, ◌++◌, Option, none, some, Bytes, codes,
  equal, length, if◌then◌else◌, ltb, ◌==◌, take, leb, Run, ok, fault, out_of_bounds,
}
use avrouter.Prelude.Dict.{Dict, find, erase}

pub record Date : Type 0 where
  pub year : ℕ
  pub month : ℕ
  pub day : ℕ

-- `log_list` is the map of the open streams by the name of the file, the first name first, each
-- with whether its file could be opened; `file` is the name of the file of m_file, if that is open,
-- and `file_failed` is whether m_file has failed, after which it writes nothing.
pub record Logger : Type 0 where
  pub file : Option Bytes
  pub file_failed : Bool
  pub auto_mode : Bool
  pub log_path : Bytes
  pub log_list : Dict Bool
  pub last_day : Option Date
  pub last_filename : Bytes

-- The contents of the files.
abbrev pub Disk : Type 0
Disk = Bytes → Option Bytes

abbrev pub content : Option Bytes → Bytes
content none = []
content (some bytes) = bytes

abbrev pub set_file : Bytes → Option Bytes → Disk → Disk
set_file name bytes disk n = if equal name n then bytes else disk n

-- What an append of bytes, which may be none, makes of a file.
abbrev pub append : Bytes → Bytes → Disk → Disk
append name str disk = set_file name (some (content (disk name) ++ str)) disk

-- `operator<` on strings.
unfoldable pub less : Bytes → Bytes → Bool
less [] [] = false
less [] (y ∷ ys) = true
less (x ∷ xs) [] = false
less (x ∷ xs) (y ∷ ys) = ltb x y || (x == y && less xs ys)

-- `insert` of a name that is not in the map.
unfoldable pub insert_file : Bytes → Bool → Dict Bool → Dict Bool
insert_file name opened [] = (name, opened) ∷ []
insert_file name opened ((n, o) ∷ list) =
    if less name n then (name, opened) ∷ (n, o) ∷ list else (n, o) ∷ insert_file name opened list

-- With whether a file can be removed: the map without its first file, and that file, which stays if
-- it cannot.
abbrev pub drop_first : (Bytes → Bool) → Dict Bool → Disk → Bytes → Bool → Dict Bool × Disk × Bool
drop_first removes [] disk name opened = ([], disk, opened)
drop_first removes ((n, o) ∷ list) disk name opened =
    (list, if removes n then set_file n none disk else disk, opened && not (equal n name))

abbrev pub same_day : Option Date → Date → Bool
same_day none now = false
same_day (some last) now = last.day == now.day

-- With the name of the file of a day in a directory. The clock is read twice: the second time is
-- that of the name.
unfoldable pub make_filename : (Bytes → Date → Bytes) → Date → Date → Logger → Logger
make_filename day_file now again l =
    if same_day l.last_day now
    then l
    else record l { last_day = some now; last_filename = day_file l.log_path again }

-- With whether a file can be opened and removed, the stream of a name: the map, the files and
-- whether the stream is open.
unfoldable pub open_file :
    (Bytes → Bool)
    → (Bytes → Bool)
    → Option Bool
    → Bytes
    → Dict Bool
    → Disk
    → Dict Bool × Disk × Bool
open_file opens removes (some opened) name list disk = (list, disk, opened)
open_file opens removes none name list disk =
    let opened = opens name in
    let disk1 = if opened then append name [] disk else disk in
    let list1 = insert_file name opened list in
    if ltb 3 (length list1)
    then drop_first removes list1 disk1 name opened
    else (list1, disk1, opened)

-- On m_file.
abbrev pub write_file : Option Bytes → Bool → Bytes → Disk → Disk
write_file none failed str disk = disk
write_file (some name) failed str disk = if failed then disk else append name str disk

abbrev pub before_star : Bytes → Option Bytes
before_star [] = none
before_star (c ∷ cs) =
    if c == b'*'
    then some []
    else elim (before_star cs) [ none ↦ none | some path ↦ some (c ∷ path) ]

abbrev pub start_string : Bytes
start_string = codes "\n\n\n*** starting log ***\n\n\n"

-- The colour of a level, and the message.
unfoldable pub output_console : Bytes → Bytes → Bytes → Bytes
output_console level prefix message =
    let line = prefix ++ (27 ∷ codes "[0m" ++ message) in
    if equal level (codes "INFO")
    then 27 ∷ codes "[32m" ++ line
    else if equal level (codes "DEBUG")
    then 27 ∷ codes "[1;32m" ++ line
    else if equal level (codes "WARNING")
    then 27 ∷ codes "[1;33m" ++ line
    else if equal level (codes "ERROR")
    then 27 ∷ codes "[1;31m" ++ line
    else []

abbrev pub is_open : Logger → Bool
is_open l = elim l.file [ none ↦ l.auto_mode | some _ ↦ true ]

module _ (day_file : Bytes → Date → Bytes) (opens removes : Bytes → Bool) where
  unfoldable pub write_auto : Bytes → Date → Date → Logger → Disk → Logger × Disk
  write_auto str now again l disk =
      let l1 = make_filename day_file now again l in
      let name = l1.last_filename in
      let (list, disk1, opened) =
        open_file opens removes (find name l.log_list) name l.log_list disk in
      (record l1 { log_list = list }, if opened then append name str disk1 else disk1)

  unfoldable pub write : Bytes → Date → Date → Logger → Disk → Logger × Disk
  write str now again l disk =
      if l.auto_mode
      then write_auto str now again l disk
      else (l, write_file l.file l.file_failed str disk)

  -- `m_file.open`: a stream that is open already keeps its file and fails, and an open that
  -- succeeds clears the failure.
  unfoldable pub open_stream : Option Bytes → Bytes → Logger → Disk → Logger × Disk
  open_stream (some name) filename l disk = (record l { file_failed = true }, disk)
  open_stream none filename l disk =
      if opens filename
      then (record l { file = some filename; file_failed = false }, append filename [] disk)
      else (record l { file_failed = true }, disk)

  -- A path of more than 65536 bytes is refused. One of 65536 fills the buffer to its end, and the
  -- string that is read from there has no end.
  unfoldable pub open_path :
      Option Bytes → Bytes → Date → Date → Logger → Disk → Run (Logger × Disk)
  open_path none filename now again l disk =
      let (l1, disk1) = open_stream l.file filename (record l { auto_mode = false }) disk in
      ok (write start_string now again l1 disk1)
  open_path (some path) filename now again l disk =
      let l1 = record l { auto_mode = true } in
      if ltb 65536 (length path)
      then ok (l1, disk)
      else if length path == 65536
      then fault out_of_bounds
      else ok (write start_string now again (record l1 { log_path = path }) disk)

  unfoldable pub open_log : Bytes → Date → Date → Logger → Disk → Run (Logger × Disk)
  open_log filename now again l disk = open_path (before_star filename) filename now again l disk

  -- `time` is what `time_now_string` gives; the last component is what is written to the console.
  unfoldable pub logger_writer :
      Bytes → Bytes → Bytes → Bool → Date → Date → Logger → Disk → (Logger × Disk) × Bytes
  logger_writer time level message disable_cout now again l disk =
      let prefix = time ++ (codes "[" ++ (level ++ codes "]: ")) in
      let tmp = message ++ codes "\n" in
      (
        if is_open l then write (prefix ++ tmp) now again l disk else (l, disk),
        if disable_cout then [] else output_console level prefix tmp,
      )
