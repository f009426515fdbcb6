-- ===== src/Base/Digits.antt =====
-- The binary digits of a number, and what the bitwise operations do to each.
use Prim.Native.Nat.{ℕ, zero, suc, ◌-◌, ◌/◌, ◌%◌, ◌^◌, ◌<◌, min, max, bit_and, bit_or}
use mathlib.Core.Path.{◌≡◌, refl, sym, ap, ◌∙◌}
use mathlib.Core.Bool.{Bool, true, false, ◌&&◌, ◌||◌, not}
use mathlib.Core.Path.{subst}
use native.Mathlib.Decide.{ℕ_discrete}
use native.Mathlib.Omega.{arith}
use iot_zephyr_app.Base.Tests.{◌==◌}
use iot_zephyr_app.Base.Bits.{bit_and_low, bit_and_step, bit_or_step, bit_or-zero, bit_and-zero}

-- Whether digit `i` is set.
abbrev pub test_bit : ℕ → ℕ → Bool
test_bit zero n = n % 2 == 1
test_bit (suc i) n = test_bit i (n / 2)

pub test_bit_none : (j : ℕ) → test_bit j 0 ≡ false
test_bit_none zero = refl
test_bit_none (suc j) = test_bit_none j

even_pow : (i : ℕ) → 2 ^ suc i % 2 ≡ 0
even_pow i = omega arith

half_pow : (i : ℕ) → 2 ^ suc i / 2 ≡ 2 ^ i
half_pow i = omega arith

half_or : (a b : ℕ) → bit_or a b / 2 ≡ bit_or (a / 2) (b / 2)
half_or a b = omega (arith, bit_or_step a b)

parity_or : (a b : ℕ) → bit_or a b % 2 ≡ max (a % 2) (b % 2)
parity_or a b = omega (arith, bit_or_step a b)

half_and : (a b : ℕ) → bit_and a b / 2 ≡ bit_and (a / 2) (b / 2)
half_and a b = omega (arith, bit_and_step a b)

parity_and : (a b : ℕ) → bit_and a b % 2 ≡ min (a % 2) (b % 2)
parity_and a b = omega (arith, bit_and_step a b)

-- Setting one digit leaves the others as they are.
pub test_bit-or : (j i n : ℕ) → test_bit j (bit_or n (2 ^ i)) ≡ (test_bit j n || i == j)
test_bit-or zero zero n = ground (arith, parity_or n 1)
test_bit-or zero (suc i) n = ground (arith, parity_or n (2 ^ suc i), even_pow i)
test_bit-or (suc j) zero n = ap (test_bit j) (half_or n 1 ∙ bit_or-zero (n / 2)) ∙ ground arith
test_bit-or (suc j) (suc i) n =
    ap (test_bit j) (half_or n (2 ^ suc i) ∙ ap (bit_or (n / 2)) (half_pow i))
    ∙ (test_bit-or j i (n / 2) ∙ ap (◌||◌ (test_bit j (n / 2))) (ground arith))

pub test_bit-and : (j a b : ℕ) → test_bit j (bit_and a b) ≡ (test_bit j a && test_bit j b)
test_bit-and zero a b = ground (arith, parity_and a b)
test_bit-and (suc j) a b = ap (test_bit j) (half_and a b) ∙ test_bit-and j (a / 2) (b / 2)

-- C's `n & BIT(i)` is zero exactly if digit `i` is not set.
pub bit_and-pow : (i n : ℕ) → (bit_and n (2 ^ i) == 0) ≡ not (test_bit i n)
bit_and-pow zero n = ground (arith, bit_and_step n 1, bit_and-zero (n / 2))
bit_and-pow (suc i) n = ground (
  arith,
  bit_and_step n (2 ^ suc i),
  even_pow i,
  ap (bit_and (n / 2)) (half_pow i),
  bit_and-pow i (n / 2),
)

-- What holds of all numbers below `n`, tried one by one.
abbrev all_below : ℕ → (ℕ → Bool) → Bool
all_below zero p = true
all_below (suc n) p = p n && all_below n p

below : (n : ℕ) (p : ℕ → Bool) (j : ℕ) → all_below n p ≡ true → j < n → p j ≡ true
below zero p j all h = absurd (omega arith)
below (suc n) p j all h = elim (ℕ_discrete n j) [
  | yes e ↦ subst (λ x. p x ≡ true) e (ground (arith, all))
  | no e ↦ below n p j (ground (arith, all)) (omega arith)
]

abbrev same : Bool → Bool → Bool
same true b = b
same false b = not b

eq_of_same : (a b : Bool) → same a b ≡ true → a ≡ b
eq_of_same true true e = refl
eq_of_same true false e = sym e
eq_of_same false true e = e
eq_of_same false false e = refl

-- The complement of one digit, among the low eight of a 16-bit number.
pub test_bit-complement : (i j : ℕ) → i < 8 → j < 8 → test_bit j (65535 - 2 ^ i) ≡ not (i == j)
test_bit-complement i j p q = eq_of_same (test_bit j (65535 - 2 ^ i)) (not (i == j)) (
    below 8 (λ k. same (test_bit k (65535 - 2 ^ i)) (not (i == k))) j
      (below 8 (λ n. all_below 8 (λ k. same (test_bit k (65535 - 2 ^ n)) (not (n == k)))) i refl p)
      q)

-- The low eight digits of a byte's remainder are its own.
pub test_bit-u8 : (j n : ℕ) → j < 8 → test_bit j (n % 256) ≡ test_bit j n
test_bit-u8 j n p = ap (test_bit j) (sym (bit_and_low 8 n)) ∙ (test_bit-and j n 255 ∙ kept j p)
  where
    kept : (j : ℕ) → j < 8 → (test_bit j n && test_bit j 255) ≡ test_bit j n
    kept j p = rw (below 8 (λ k. test_bit k 255) j refl p) (ground arith)
