-- ===== src/Internal.antt =====
-- include/internal.hpp, on Linux: `gettime`, `time_to_string`, the two `to_string`, `add_suffix`
-- and `endpoint_to_string`. The system's clock, `localtime`, the arithmetic and the printing of a
-- `float` and of an address are parameters; a time is that of 1970 or later, and the fields of a
-- `tm` are not negative.
use avrouter.Prelude.{
  ℕ, ◌+◌, ◌-◌, ◌/◌, ◌%◌, ◌++◌, Option, none, some, Bytes, codes, length, replicate, Bool, List, [],
  ◌∷◌, if◌then◌else◌, ltb, Run, ok, fault, out_of_bounds, ◌>>=◌, ◌*◌,
}
use avrouter.Prelude.Decimal.{decimal, decimal_int}

-- `struct tm`.
pub record Tm : Type 0 where
  pub tm_year : ℕ
  pub tm_mon : ℕ
  pub tm_mday : ℕ
  pub tm_hour : ℕ
  pub tm_min : ℕ
  pub tm_sec : ℕ

abbrev pad : ℕ → ℕ → Bytes → Bytes
pad width fill text = replicate (width - length text) fill ++ text

-- `%04d` and the like.
abbrev digits : ℕ → ℕ → Bytes
digits width n = pad width b'0' (decimal n)

-- `sprintf` of a time and its milliseconds. The month is that of `tm`, which counts from 0.
unfoldable pub print_time : Tm → ℕ → Bytes
print_time tm millis =
    digits 4 (tm.tm_year + 1900)
    ++ (codes "-"
        ++ (digits 2 tm.tm_mon
            ++ (codes "-"
                ++ (digits 2 tm.tm_mday
                    ++ (codes " "
                        ++ (digits 2 tm.tm_hour
                            ++ (codes ":"
                                ++ (digits 2 tm.tm_min
                                    ++ (codes ":"
                                        ++ (digits 2 tm.tm_sec
                                            ++ (codes "." ++ digits 3 millis)))))))))))

unfoldable pub time_to_string : (ℕ → Option Tm) → ℕ → Bytes
time_to_string localtime time = elim (localtime (time / 1000)) [
  | none ↦ codes ""
  | some tm ↦ print_time tm (time % 1000)
]

unfoldable pub to_string : ℕ → ℕ → Bytes
to_string v width = pad width b' ' (decimal_int v)

-- `gettime`, from the seconds and the microseconds of `gettimeofday`.
unfoldable pub gettime : ℕ × ℕ → ℕ
gettime (tv_sec, tv_usec) = (tv_sec * 1000000 + tv_usec) / 1000

-- What is used of `float`: the division by 1024, whether the absolute value is below 1024, and the
-- printing with a width and a precision.
pub record Floats : Type 1 where
  pub Float : Type 0
  pub per_1024 : Float → Float
  pub is_small : Float → Bool
  pub print : ℕ → ℕ → Float → Bytes

-- The text after the number; `none` is a null pointer.
abbrev after_number : Bytes → Option Bytes → Bytes
after_number unit none = unit
after_number unit (some suffix) = unit ++ suffix

module _ (fl : Floats) where
  -- `sprintf` into 20 bytes, of which the last one holds the zero.
  unfoldable pub float_to_string : fl.Float → ℕ → ℕ → Run Bytes
  float_to_string v width precision =
      let text = fl.print width precision v in
      if ltb 19 (length text) then fault out_of_bounds else ok text

  -- The loop over the units, and the last one behind it.
  unfoldable pub suffix_from : List Bytes → fl.Float → Option Bytes → Run Bytes
  suffix_from [] val suffix =
      float_to_string val 4 3 >>= λ ret. ok (ret ++ after_number (codes "PB") suffix)
  suffix_from (unit ∷ units) val suffix =
      let next = fl.per_1024 val in
      let later = suffix_from units next suffix in
      if fl.is_small next
      then (float_to_string next 4 3 >>= λ ret. ok (ret ++ after_number unit suffix))
      else later

  unfoldable pub add_suffix : fl.Float → Option Bytes → Run Bytes
  add_suffix val suffix =
      suffix_from (codes "kB" ∷ codes "MB" ∷ codes "GB" ∷ codes "TB" ∷ []) val suffix

-- An end point is its address, as it is printed, and its port.
unfoldable pub endpoint_to_string : Bytes × ℕ → Bytes
endpoint_to_string (address, port) = address ++ (codes " : " ++ decimal port)
