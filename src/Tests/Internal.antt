-- ===== src/Tests/Internal.antt =====
-- Printed times and numbers.
use avrouter.Prelude.{ℕ, ◌*◌, ◌/◌, ◌^◌, ◌≡◌, refl, Option, none, some, codes, ltb, ok}
use avrouter.Prelude.Decimal.{decimal, decimal_from}
use avrouter.Internal.{
  Tm, print_time, time_to_string, to_string, gettime, Floats, float_to_string, suffix_from,
  add_suffix, endpoint_to_string,
}

-- The first of March 2014, the third month.
abbrev march : ℕ → Option Tm
march seconds =
    some (record { tm_year = 114; tm_mon = 2; tm_mday = 1; tm_hour = 9; tm_min = 30; tm_sec = 7 })

time_to_string-march : time_to_string march 1393666207042 ≡ codes "2014-02-01 09:30:07.042"
unfolding time_to_string print_time decimal_from
time_to_string-march = refl

to_string-narrow : to_string 7 3 ≡ codes "  7"
unfolding to_string decimal_from
to_string-narrow = refl

-- Numbers without a fraction in the place of floating-point ones.
abbrev whole : Floats
whole = record {
  Float = ℕ;
  per_1024 = λ v. v / 1024;
  is_small = λ v. ltb v 1024;
  print = λ width precision v. decimal v;
}

three_megabytes : add_suffix whole (3 * 1024 ^ 2) (some (codes "/s")) ≡ ok (codes "3MB/s")
unfolding add_suffix suffix_from float_to_string decimal_from
three_megabytes = refl

-- 2048 terabytes are printed as petabytes without the division that belongs to them.
two_petabytes : add_suffix whole (2 * 1024 ^ 5) none ≡ ok (codes "2048PB")
unfolding add_suffix suffix_from float_to_string decimal_from
two_petabytes = refl

gettime_example : gettime (1393666207, 42999) ≡ 1393666207042
unfolding gettime
gettime_example = refl

endpoint_to_string_example : endpoint_to_string (codes "10.0.0.1", 80) ≡ codes "10.0.0.1 : 80"
unfolding endpoint_to_string decimal_from
endpoint_to_string_example = refl
