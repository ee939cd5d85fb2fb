-- ===== src/Logging/Lines.antt =====
-- include/logging.hpp: `time_now_string`, the class `logger` behind the macros LOG_DBG to LOG_FILE,
-- and the macros INIT_LOGGER and AUTO_LOGGER. What the stream prints of the time and of a value is
-- given as bytes.
use avrouter.Prelude.{
  ◌+◌, ◌-◌, Bool, List, [], ◌∷◌, ◌++◌, Bytes, codes, equal, length, take, if◌then◌else◌, ltb, Run,
  ok, fault, out_of_bounds, ◌>>=◌,
}
use avrouter.Logging.{Date, Logger, Disk, open_log, logger_writer}

-- The last three digits are dropped, and `sprintf` writes the rest, a blank and a zero to a buffer
-- of 200.
unfoldable pub time_now_string : Bytes → Run Bytes
time_now_string printed =
    let s = if ltb 3 (length printed) then take (length printed - 3) printed else printed in
    if ltb 200 (length s + 2) then fault out_of_bounds else ok (s ++ codes " ")

-- The class `logger`.
pub record LogStream : Type 0 where
  pub oss : Bytes
  pub level : Bytes
  pub disable_cout : Bool

abbrev pub new_stream : Bytes → Bool → LogStream
new_stream level disable_cout = record { oss = []; level = level; disable_cout = disable_cout }

-- The operators of one statement, each with what is printed of its value.
unfoldable pub put_all : List Bytes → LogStream → LogStream
put_all [] stream = stream
put_all (v ∷ vs) stream = put_all vs (record stream { oss = stream.oss ++ v })

module _ (day_file : Bytes → Date → Bytes) (opens removes : Bytes → Bool) where
  -- The destructor, with what is printed of the time.
  unfoldable pub destroy :
      LogStream → Bytes → Date → Date → Logger → Disk → Run ((Logger × Disk) × Bytes)
  destroy stream printed now again l disk = time_now_string printed >>= λ time. ok (
      logger_writer day_file opens removes time stream.level stream.oss stream.disable_cout now
        again l disk)

  unfoldable pub init_logger : Bytes → Date → Date → Logger → Disk → Run (Logger × Disk)
  init_logger logfile now again l disk =
      if equal logfile []
      then ok (l, disk)
      else open_log day_file opens removes logfile now again l disk

  unfoldable pub auto_logger : Bytes → Date → Date → Logger → Disk → Run (Logger × Disk)
  auto_logger path now again l disk =
      let filename = path ++ codes "*" in
      if equal filename []
      then ok (l, disk)
      else open_log day_file opens removes filename now again l disk
