-- ===== src/Prelude/Bits.antt =====
-- The bits of an unsigned integer: `n >> k & 1`, `n |= 1 << k` and `n &= !(1 << k)`.
use Prim.Native.Nat.{ℕ, zero, suc, ◌+◌, ◌*◌, ◌/◌, ◌%◌}
use mathlib.Core.Path.{◌≡◌, refl}
use mathlib.Core.Bool.{Bool, false, ◌||◌}
use native.Mathlib.Omega.{arith}
use bittorrent_rs.Prelude.Tests.{◌==◌, if◌then◌else◌}

abbrev pub test_bit : ℕ → ℕ → Bool
test_bit zero n = n % 2 == 1
test_bit (suc k) n = test_bit k (n / 2)

abbrev pub or_bit : ℕ → ℕ → ℕ
or_bit zero n = if n % 2 == 1 then n else n + 1
or_bit (suc k) n = n % 2 + 2 * or_bit k (n / 2)

abbrev pub clear_bit : ℕ → ℕ → ℕ
clear_bit zero n = n / 2 * 2
clear_bit (suc k) n = n % 2 + 2 * clear_bit k (n / 2)

half-double : (n m : ℕ) → (n % 2 + 2 * m) / 2 ≡ m
half-double n m = omega arith

parity-double : (n m : ℕ) → (n % 2 + 2 * m) % 2 ≡ n % 2
parity-double n m = omega arith

suc_eq : (k j : ℕ) → (suc k == suc j) ≡ (k == j)
suc_eq k j = ground arith

zero_ne : (j : ℕ) → (0 == suc j) ≡ false
zero_ne j = ground arith

ne_zero : (k : ℕ) → (suc k == 0) ≡ false
ne_zero k = ground arith

pub test_bit-or_bit : (k j n : ℕ) → test_bit j (or_bit k n) ≡ (k == j || test_bit j n)
test_bit-or_bit zero zero n = ground arith
test_bit-or_bit zero (suc j) n = rw (zero_ne j) (up j n)
  where
    up : (j n : ℕ) → test_bit j ((if n % 2 == 1 then n else n + 1) / 2) ≡ test_bit j (n / 2)
    up j n = let e : (if n % 2 == 1 then n else n + 1) / 2 ≡ n / 2 = ground arith in rw e
test_bit-or_bit (suc k) zero n = rw (ne_zero k, parity-double n (or_bit k (n / 2)))
test_bit-or_bit (suc k) (suc j) n =
    rw (half-double n (or_bit k (n / 2)), suc_eq k j) (test_bit-or_bit k j (n / 2))

pub test_bit-clear_bit :
    (k j n : ℕ) → test_bit j (clear_bit k n) ≡ (if k == j then false else test_bit j n)
test_bit-clear_bit zero zero n = ground arith
test_bit-clear_bit zero (suc j) n = let e : n / 2 * 2 / 2 ≡ n / 2 = omega arith in rw (e, zero_ne j)
test_bit-clear_bit (suc k) zero n = rw (ne_zero k, parity-double n (clear_bit k (n / 2)))
test_bit-clear_bit (suc k) (suc j) n =
    rw (half-double n (clear_bit k (n / 2)), suc_eq k j) (test_bit-clear_bit k j (n / 2))

pub test_bit-zero : (k : ℕ) → test_bit k 0 ≡ false
test_bit-zero zero = refl
test_bit-zero (suc k) = test_bit-zero k
