-- ===== src/Base/Bits.antt =====
-- Laws of `&`, `|` and `^` at variables, from the recursion on binary digits that they stand for.
use Prim.Native.Nat.{
  ℕ, zero, suc, ◌+◌, ◌-◌, ◌*◌, ◌/◌, ◌%◌, ◌^◌, ◌≤◌, ◌<◌, min, max, differ, bit_and, bit_or, bit_xor,
  digits, bitwise, bit_and-bitwise, bit_or-bitwise, bit_xor-bitwise,
}
use mathlib.Core.Path.{◌≡◌, refl, sym, ap, ap₂, ◌∙◌}
use native.Mathlib.Nat.{pow-suc, one-le-pow}
use native.Mathlib.Omega.{arith}

module _ (z : ℕ → ℕ) (f : ℕ → ℕ → ℕ) where
  -- One round of fuel more than the number has digits changes nothing.
  digits_spare : (n a b : ℕ) → a ≤ n → digits z f (suc n) a b ≡ digits z f n a b
  digits_spare zero zero b h = refl
  digits_spare zero (suc a) b h = absurd (omega arith)
  digits_spare (suc n) zero b h = refl
  digits_spare (suc n) (suc a) b h = rw (digits_spare n (suc a / 2) (b / 2) (omega arith))

  digits_enough : (k n a b : ℕ) → n ≡ k + a → digits z f n a b ≡ digits z f a a b
  digits_enough zero n a b e = ap (λ m. digits z f m a b) (omega arith)
  digits_enough (suc k) zero a b e = absurd (omega arith)
  digits_enough (suc k) (suc n) a b e =
      digits_spare n a b (omega arith) ∙ digits_enough k n a b (omega arith)

  -- The lowest digit, and the rest.
  low_digit :
      (n m : ℕ)
      → bitwise z f (suc n) m ≡ bitwise z f (suc n / 2) (m / 2) * 2 + f (suc n % 2) (m % 2)
  low_digit n m = omega (arith, digits_enough (n - suc n / 2) n (suc n / 2) (m / 2) (omega arith))

zero-differ : (b : ℕ) → differ 0 b ≡ b
zero-differ b = refl

pub bit_xor_step : (n m : ℕ) → bit_xor n m ≡ bit_xor (n / 2) (m / 2) * 2 + differ (n % 2) (m % 2)
bit_xor_step zero m = simp bit_xor-bitwise (omega arith)
bit_xor_step (suc n) m = simp bit_xor-bitwise (low_digit (λ x. x) differ n m)

pub bit_or_step : (n m : ℕ) → bit_or n m ≡ bit_or (n / 2) (m / 2) * 2 + max (n % 2) (m % 2)
bit_or_step zero m = simp bit_or-bitwise (omega arith)
bit_or_step (suc n) m = simp bit_or-bitwise (low_digit (λ x. x) max n m)

pub bit_and_step : (n m : ℕ) → bit_and n m ≡ bit_and (n / 2) (m / 2) * 2 + min (n % 2) (m % 2)
bit_and_step zero m = simp bit_and-bitwise (omega arith)
bit_and_step (suc n) m = simp bit_and-bitwise (low_digit (λ _. 0) min n m)

differ_bits : (x y : ℕ) → x < 2 → y < 2 → (differ x y < 2) × (differ (differ x y) y ≡ x)
differ_bits zero zero p q = (omega arith, refl)
differ_bits zero (suc zero) p q = (omega arith, refl)
differ_bits (suc zero) zero p q = (omega arith, refl)
differ_bits (suc zero) (suc zero) p q = (omega arith, refl)
differ_bits (suc (suc x)) y p q = absurd (omega arith)
differ_bits zero (suc (suc y)) p q = absurd (omega arith)
differ_bits (suc zero) (suc (suc y)) p q = absurd (omega arith)

pow-suc_mul : (q k : ℕ) → q * 2 ^ suc k ≡ q * 2 ^ k * 2
pow-suc_mul q k = rw (pow-suc 2 k) (omega arith)

-- What the operations share: digits below a power of two and above it do not meet.
module _ (op f : ℕ → ℕ → ℕ) (step : (a b : ℕ) → op a b ≡ op (a / 2) (b / 2) * 2 + f (a % 2) (b % 2))
    (f_bit : (x y : ℕ) → x < 2 → y < 2 → f x y < 2) (op_zero : op 0 0 ≡ 0) where
  op_double : (x d y e : ℕ) → d < 2 → e < 2 → op (x * 2 + d) (y * 2 + e) ≡ op x y * 2 + f d e
  op_double x d y e p q = ground (arith, step (x * 2 + d) (y * 2 + e))

  op_split :
      (k q r m s : ℕ)
      → r < 2 ^ k
      → s < 2 ^ k
      → op (q * 2 ^ k + r) (m * 2 ^ k + s) ≡ op q m * 2 ^ k + op r s
  op_split zero q r m s p h = ground (arith, op_zero)
  op_split (suc k) q r m s p h = ground (
    arith,
    pow-suc 2 k,
    pow-suc_mul q k,
    pow-suc_mul m k,
    pow-suc_mul (op q m) k,
    op_double (q * 2 ^ k + r / 2) (r % 2) (m * 2 ^ k + s / 2) (s % 2),
    op_split k q (r / 2) m (s / 2),
    step r s,
  )

  op_lt : (k r s : ℕ) → r < 2 ^ k → s < 2 ^ k → op r s < 2 ^ k
  op_lt zero r s p h = ground (arith, op_zero)
  op_lt (suc k) r s p h =
      ground (arith, pow-suc 2 k, step r s, op_lt k (r / 2) (s / 2), f_bit (r % 2) (s % 2))

bit_xor_cancel_fuel : (n a b : ℕ) → a ≤ n → b ≤ n → bit_xor (bit_xor a b) b ≡ a
bit_xor_cancel_fuel zero zero zero p q = refl
bit_xor_cancel_fuel zero (suc a) b p q = absurd (omega arith)
bit_xor_cancel_fuel zero zero (suc b) p q = absurd (omega arith)
bit_xor_cancel_fuel (suc n) a b p q = ground (
  arith,
  bit_xor_step a b,
  bit_xor_step (bit_xor a b) b,
  bit_xor_cancel_fuel n (a / 2) (b / 2) (omega arith) (omega arith),
  differ_bits (a % 2) (b % 2),
)

-- A second `^` with the same word undoes the first.
pub bit_xor_cancel : (a b : ℕ) → bit_xor (bit_xor a b) b ≡ a
bit_xor_cancel a b = bit_xor_cancel_fuel (a + b) a b (omega arith) (omega arith)

differ_pad : (x y p : ℕ) → x < 2 → y < 2 → p < 2 → differ (differ x p) (differ y p) ≡ differ x y
differ_pad zero zero zero h i j = refl
differ_pad zero zero (suc zero) h i j = refl
differ_pad zero (suc zero) zero h i j = refl
differ_pad zero (suc zero) (suc zero) h i j = refl
differ_pad (suc zero) zero zero h i j = refl
differ_pad (suc zero) zero (suc zero) h i j = refl
differ_pad (suc zero) (suc zero) zero h i j = refl
differ_pad (suc zero) (suc zero) (suc zero) h i j = refl
differ_pad (suc (suc x)) y p h i j = absurd (omega arith)
differ_pad zero (suc (suc y)) p h i j = absurd (omega arith)
differ_pad (suc zero) (suc (suc y)) p h i j = absurd (omega arith)
differ_pad zero zero (suc (suc p)) h i j = absurd (omega arith)
differ_pad zero (suc zero) (suc (suc p)) h i j = absurd (omega arith)
differ_pad (suc zero) zero (suc (suc p)) h i j = absurd (omega arith)
differ_pad (suc zero) (suc zero) (suc (suc p)) h i j = absurd (omega arith)

bit_xor_halves :
    (a b : ℕ)
    → (bit_xor a b / 2 ≡ bit_xor (a / 2) (b / 2)) × (bit_xor a b % 2 ≡ differ (a % 2) (b % 2))
bit_xor_halves a b =
    let d = (differ_bits (a % 2) (b % 2) (omega arith) (omega arith)).0 in
    (omega (arith, bit_xor_step a b), omega (arith, bit_xor_step a b))

bit_xor_pad_fuel :
    (n a b p : ℕ) → a ≤ n → b ≤ n → p ≤ n → bit_xor (bit_xor a p) (bit_xor b p) ≡ bit_xor a b
bit_xor_pad_fuel zero zero zero zero h i j = refl
bit_xor_pad_fuel zero (suc a) b p h i j = absurd (omega arith)
bit_xor_pad_fuel zero zero (suc b) p h i j = absurd (omega arith)
bit_xor_pad_fuel zero zero zero (suc p) h i j = absurd (omega arith)
bit_xor_pad_fuel (suc n) a b p h i j =
    bit_xor_step (bit_xor a p) (bit_xor b p)
    ∙ ap₂ (λ x y. x * 2 + y)
        (ap₂ bit_xor (bit_xor_halves a p).0 (bit_xor_halves b p).0
          ∙ bit_xor_pad_fuel n (a / 2) (b / 2) (p / 2) (omega arith) (omega arith) (omega arith))
        (ap₂ differ (bit_xor_halves a p).1 (bit_xor_halves b p).1
          ∙ differ_pad (a % 2) (b % 2) (p % 2) (omega arith) (omega arith) (omega arith))
    ∙ sym (bit_xor_step a b)

-- A pad that two words share drops out of their difference.
pub bit_xor_pad : (a b p : ℕ) → bit_xor (bit_xor a p) (bit_xor b p) ≡ bit_xor a b
bit_xor_pad a b p = bit_xor_pad_fuel (a + b + p) a b p (omega arith) (omega arith) (omega arith)

pub bit_xor-lt : (k a b : ℕ) → a < 2 ^ k → b < 2 ^ k → bit_xor a b < 2 ^ k
bit_xor-lt = op_lt bit_xor differ bit_xor_step (λ x y p q. (differ_bits x y p q).0) refl

bit_and_split :
    (k q r m s : ℕ)
    → r < 2 ^ k
    → s < 2 ^ k
    → bit_and (q * 2 ^ k + r) (m * 2 ^ k + s) ≡ bit_and q m * 2 ^ k + bit_and r s
bit_and_split = op_split bit_and min bit_and_step (λ x y p q. omega arith) refl

bit_or_split :
    (k q r m s : ℕ)
    → r < 2 ^ k
    → s < 2 ^ k
    → bit_or (q * 2 ^ k + r) (m * 2 ^ k + s) ≡ bit_or q m * 2 ^ k + bit_or r s
bit_or_split = op_split bit_or max bit_or_step (λ x y p q. omega arith) refl

-- `a & (2^k - 1)`, for a number that fits.
and_ones : (k a : ℕ) → a < 2 ^ k → bit_and a (2 ^ k - 1) ≡ a
and_ones zero a h = ground (arith, bit_and-bitwise 0 0)
and_ones (suc k) a h =
    ground (arith, pow-suc 2 k, one-le-pow k 2, bit_and_step a (2 ^ suc k - 1), and_ones k (a / 2))

and-zero_fuel : (n a : ℕ) → a ≤ n → bit_and a 0 ≡ 0
and-zero_fuel n zero h = refl
and-zero_fuel zero (suc a) h = absurd (omega arith)
and-zero_fuel (suc n) (suc a) h =
    omega (arith, bit_and_step (suc a) 0, and-zero_fuel n (suc a / 2) (omega arith))

or-zero_fuel : (n a : ℕ) → a ≤ n → bit_or a 0 ≡ a
or-zero_fuel n zero h = refl
or-zero_fuel zero (suc a) h = absurd (omega arith)
or-zero_fuel (suc n) (suc a) h =
    omega (arith, bit_or_step (suc a) 0, or-zero_fuel n (suc a / 2) (omega arith))

pub bit_and-zero : (a : ℕ) → bit_and a 0 ≡ 0
bit_and-zero a = and-zero_fuel a a (omega arith)

pub bit_or-zero : (a : ℕ) → bit_or a 0 ≡ a
bit_or-zero a = or-zero_fuel a a (omega arith)

zero-and : (b : ℕ) → bit_and 0 b ≡ 0
zero-and b = bit_and-bitwise 0 b

zero-or : (b : ℕ) → bit_or 0 b ≡ b
zero-or b = bit_or-bitwise 0 b

-- A mask of low ones is a remainder.
pub bit_and_low : (k a : ℕ) → bit_and a (2 ^ k - 1) ≡ a % 2 ^ k
bit_and_low k a = ground (
  arith,
  one-le-pow k 2,
  bit_and_split k (a / 2 ^ k) (a % 2 ^ k) 0 (2 ^ k - 1),
  bit_and-zero (a / 2 ^ k),
  and_ones k (a % 2 ^ k),
)

-- A mask of `w` ones over `k` zeros clears the low digits of a number of `w + k` digits.
pub bit_and_high :
    (k w q r : ℕ)
    → r < 2 ^ k
    → q < 2 ^ w
    → bit_and (q * 2 ^ k + r) ((2 ^ w - 1) * 2 ^ k) ≡ q * 2 ^ k
bit_and_high k w q r p h =
    ground (arith, one-le-pow k 2, bit_and_split k q r (2 ^ w - 1) 0, bit_and-zero r, and_ones w q)

-- `(q << k) | r` is a sum when `r` fits below.
pub bit_or_add : (k q r : ℕ) → r < 2 ^ k → bit_or (q * 2 ^ k) r ≡ q * 2 ^ k + r
bit_or_add k q r p =
    ground (arith, one-le-pow k 2, bit_or_split k q 0 0 r, bit_or-zero q, zero-or r)

-- An `or` with a number that has nothing in the low digits.
pub bit_or_high :
    (k q m r : ℕ) → r < 2 ^ k → bit_or (q * 2 ^ k + r) (m * 2 ^ k) ≡ bit_or q m * 2 ^ k + r
bit_or_high k q m r p = ground (arith, one-le-pow k 2, bit_or_split k q r m 0, bit_or-zero r)

-- A mask of `w` ones over `k` zeros keeps these digits.
pub bit_and_field : (k w a : ℕ) → bit_and a ((2 ^ w - 1) * 2 ^ k) ≡ a / 2 ^ k % 2 ^ w * 2 ^ k
bit_and_field k w a = ground (
  arith,
  one-le-pow k 2,
  bit_and_split k (a / 2 ^ k) (a % 2 ^ k) (2 ^ w - 1) 0,
  bit_and-zero (a % 2 ^ k),
  bit_and_low w (a / 2 ^ k),
)

-- `r | (q << k)` is a sum when `r` fits below.
pub bit_or_below : (k q r : ℕ) → r < 2 ^ k → bit_or r (q * 2 ^ k) ≡ q * 2 ^ k + r
bit_or_below k q r p =
    ground (arith, one-le-pow k 2, bit_or_split k 0 r q 0, bit_or-zero r, zero-or q)
