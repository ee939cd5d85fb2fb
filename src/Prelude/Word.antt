-- ===== src/Prelude/Word.antt =====
-- Machine integers as bit patterns: an `int32_t` or `uint32_t` is a number below 2 ^ 32, and the
-- sign is the top bit. `htonl` and `ntohl` are the four bytes, the most significant first.
use Prim.Native.Nat.{ℕ, ◌+◌, ◌-◌, ◌*◌, ◌/◌, ◌%◌, ◌^◌, ◌<◌}
use mathlib.Core.Path.{◌≡◌, refl}
use mathlib.Core.Bool.{Bool}
use mathlib.Core.List.{[], ◌∷◌, ◌++◌}
use mathlib.Core.Option.{Option, none, some}
use native.Mathlib.Omega.{arith}
use avrouter.Prelude.Tests.{leb, if◌then◌else◌}
use avrouter.Prelude.Strings.{Bytes, IsByte}
use avrouter.Prelude.Lists.{length, All}

abbrev pub u32_mod : ℕ
u32_mod = 2 ^ 32

abbrev pub int_mod : ℕ
int_mod = 2 ^ 31

-- `static_cast<int32_t>` of a size.
abbrev pub to_int32 : ℕ → ℕ
to_int32 n = n % u32_mod

abbrev pub add32 : ℕ → ℕ → ℕ
add32 a b = (a + b) % u32_mod

abbrev pub sub32 : ℕ → ℕ → ℕ
sub32 a b = (a + u32_mod - b) % u32_mod

abbrev pub is_negative : ℕ → Bool
is_negative w = leb int_mod w

-- `a <= b` on two `int32_t`: adding 2 ^ 31 maps the signed order to the unsigned one.
abbrev pub signed_leb : ℕ → ℕ → Bool
signed_leb a b = leb ((a + int_mod) % u32_mod) ((b + int_mod) % u32_mod)

-- `size_t` of an `int`: the sign is extended.
abbrev pub to_size_t : ℕ → ℕ
to_size_t w = if is_negative w then w + (2 ^ 64 - u32_mod) else w

-- The bytes in memory of `htonl(w)`.
unfoldable pub be32 : ℕ → Bytes
be32 w = (w / 2 ^ 24 % 256) ∷ (w / 2 ^ 16 % 256) ∷ (w / 2 ^ 8 % 256) ∷ (w % 256) ∷ []

-- `ntohl(*(int32_t*)p)` where `p` points to these bytes; `none` reads past their end.
unfoldable pub read_be32 : Bytes → Option ℕ
read_be32 (a ∷ b ∷ c ∷ d ∷ rest) = some (((a * 256 + b) * 256 + c) * 256 + d)
read_be32 _ = none

pub read_be32-be32 : (w : ℕ) (rest : Bytes) → w < u32_mod → read_be32 (be32 w ++ rest) ≡ some w
unfolding read_be32 be32
read_be32-be32 w rest h = ground arith

-- The number that four bytes spell.
abbrev pub word : ℕ → ℕ → ℕ → ℕ → ℕ
word a b c d = ((a * 256 + b) * 256 + c) * 256 + d

pub be32-word :
    (a b c d : ℕ)
    → IsByte a
    → IsByte b
    → IsByte c
    → IsByte d
    → be32 (word a b c d) ≡ a ∷ b ∷ c ∷ d ∷ []
unfolding be32
be32-word a b c d ha hb hc hd = ground arith

pub length-be32 : (w : ℕ) → length (be32 w) ≡ 4
unfolding be32
length-be32 w = refl

pub be32-IsByte : (w : ℕ) → All IsByte (be32 w)
unfolding be32
be32-IsByte w = omega arith
