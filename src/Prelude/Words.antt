-- ===== src/Prelude/Words.antt =====
-- src/bytes.rs and the integer methods of Rust that the program uses on fixed-width words:
-- big-endian conversion, `div_ceil`, and the addition that wraps.
use Prim.Native.Nat.{ℕ, ◌+◌, ◌-◌, ◌*◌, ◌/◌, ◌%◌, ◌^◌, ◌<◌}
use mathlib.Core.Path.{◌≡◌, refl}
use mathlib.Core.Bool.{Bool, true, false, ◌&&◌}
use mathlib.Core.List.{List, [], ◌∷◌}
use mathlib.Core.Option.{Option, none, some}
use native.Mathlib.Omega.{arith}
use bittorrent_rs.Prelude.Tests.{leb, ◌==◌, if◌then◌else◌}
use bittorrent_rs.Prelude.Lists.{length, take, drop, All}

-- A byte is a number below 256.
abbrev pub Bytes : Type 0
Bytes = List ℕ

abbrev pub AreBytes : Bytes → Type 0
AreBytes = All (λ b. b < 256)

abbrev pub u32_mod : ℕ
u32_mod = 2 ^ 32

abbrev pub u64_mod : ℕ
u64_mod = 2 ^ 64

-- `usize` on a 64-bit target.
abbrev pub usize_mod : ℕ
usize_mod = 2 ^ 64

-- `a.div_ceil(b)`, for b > 0.
abbrev pub div_ceil : ℕ → ℕ → ℕ
div_ceil a b = (a + (b - 1)) / b

abbrev pub add_u32 : ℕ → ℕ → ℕ
add_u32 a b = (a + b) % 2 ^ 32

abbrev pub be16 : ℕ → Bytes
be16 n = (n / 256 % 256) ∷ (n % 256) ∷ []

abbrev pub be32 : ℕ → Bytes
be32 n = (n / 16777216 % 256) ∷ (n / 65536 % 256) ∷ (n / 256 % 256) ∷ (n % 256) ∷ []

-- `from_be_bytes`, of as many bytes as there are.
abbrev pub from_be : ℕ → Bytes → ℕ
from_be acc [] = acc
from_be acc (b ∷ bs) = from_be (acc * 256 + b) bs

-- The `n` bytes starting at `at`, if the buffer has them; `at + n` is a checked addition in `usize`.
unfoldable pub array_at : ℕ → Bytes → ℕ → Option Bytes
array_at n buf at =
    if leb usize_mod (at + n)
    then none
    else if leb (at + n) (length buf)
    then some (take n (drop at buf))
    else none

unfoldable pub be_u16 : Bytes → ℕ → Option ℕ
be_u16 buf at = elim (array_at 2 buf at) [ none ↦ none | some bs ↦ some (from_be 0 bs) ]

unfoldable pub be_u32 : Bytes → ℕ → Option ℕ
be_u32 buf at = elim (array_at 4 buf at) [ none ↦ none | some bs ↦ some (from_be 0 bs) ]

unfoldable pub be_u64 : Bytes → ℕ → Option ℕ
be_u64 buf at = elim (array_at 8 buf at) [ none ↦ none | some bs ↦ some (from_be 0 bs) ]

-- Equality of byte strings.
abbrev pub bytes_eq : Bytes → Bytes → Bool
bytes_eq [] [] = true
bytes_eq (x ∷ xs) (y ∷ ys) = x == y && bytes_eq xs ys
bytes_eq _ _ = false

pub bytes_eq_sound : (xs ys : Bytes) → bytes_eq xs ys ≡ true → xs ≡ ys
bytes_eq_sound [] [] h = refl
bytes_eq_sound [] (y ∷ ys) h = cc
bytes_eq_sound (x ∷ xs) [] h = cc
bytes_eq_sound (x ∷ xs) (y ∷ ys) h = ground (arith, bytes_eq_sound xs ys)

pub bytes_eq_refl : (xs : Bytes) → bytes_eq xs xs ≡ true
bytes_eq_refl [] = refl
bytes_eq_refl (x ∷ xs) = ground (arith, bytes_eq_refl xs)

abbrev pub mul_u32 : ℕ → ℕ → ℕ
mul_u32 a b = a * b % 2 ^ 32

abbrev pub sub_u32 : ℕ → ℕ → ℕ
sub_u32 a b = (a + 2 ^ 32 - b) % 2 ^ 32
