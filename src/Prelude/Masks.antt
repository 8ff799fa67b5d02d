-- ===== src/Prelude/Masks.antt =====
-- Binary digits of `and`, `or` and the complement of a word.
use Prim.Native.Nat.{
  ℕ, zero, suc, ◌+◌, ◌-◌, ◌*◌, ◌/◌, ◌%◌, ◌^◌, ◌≤◌, ◌<◌, min, max, bit_and, bit_or, digits,
  bit_and-bitwise, bit_or-bitwise,
}
use mathlib.Core.Path.{◌≡◌, refl, sym, ap, ◌∙◌}
use native.Mathlib.Nat.{two-pow-succ}
use native.Mathlib.Omega.{arith}

-- the digit with the weight 2 ^ i
abbrev pub digit : (i : ℕ) → ℕ → ℕ
digit zero n = n % 2
digit (suc i) n = digit i (n / 2)

pub digit-bound : (i n : ℕ) → digit i n < 2
digit-bound zero n = omega arith
digit-bound (suc i) n = digit-bound i (n / 2)

-- A count of digits that is large enough may be replaced by another.
module _ (z : ℕ → ℕ) (f : ℕ → ℕ → ℕ) (step : (b : ℕ) → z b ≡ z (b / 2) * 2 + f 0 (b % 2)) where
  digits_count : (n m a b : ℕ) → a ≤ n → a ≤ m → digits z f n a b ≡ digits z f m a b
  digits_count zero zero a b p q = refl
  digits_count zero (suc m) zero b p q = refl
  digits_count zero (suc m) (suc a) b p q = absurd (omega arith)
  digits_count (suc n) zero zero b p q = refl
  digits_count (suc n) zero (suc a) b p q = absurd (omega arith)
  digits_count (suc n) (suc m) zero b p q = refl
  digits_count (suc n) (suc m) (suc a) b p q =
      ap (λ d. d * 2 + f (suc a % 2) (b % 2))
        (digits_count n m (suc a / 2) (b / 2) (omega arith) (omega arith))

  pub digits_step :
      (a b : ℕ) → digits z f a a b ≡ digits z f (a / 2) (a / 2) (b / 2) * 2 + f (a % 2) (b % 2)
  digits_step zero b = step b
  digits_step (suc a) b =
      ap (λ d. d * 2 + f (suc a % 2) (b % 2))
        (digits_count a (suc a / 2) (suc a / 2) (b / 2) (omega arith) (omega arith))

bit_and-digits : (a b : ℕ) → bit_and a b ≡ bit_and (a / 2) (b / 2) * 2 + min (a % 2) (b % 2)
bit_and-digits a b =
    bit_and-bitwise a b
    ∙ digits_step (λ b. zero) min (λ b. omega arith) a b
    ∙ ap (λ d. d * 2 + min (a % 2) (b % 2)) (sym (bit_and-bitwise (a / 2) (b / 2)))

bit_or-digits : (a b : ℕ) → bit_or a b ≡ bit_or (a / 2) (b / 2) * 2 + max (a % 2) (b % 2)
bit_or-digits a b =
    bit_or-bitwise a b
    ∙ digits_step (λ b. b) max (λ b. omega arith) a b
    ∙ ap (λ d. d * 2 + max (a % 2) (b % 2)) (sym (bit_or-bitwise (a / 2) (b / 2)))

pub digit-bit_and : (i a b : ℕ) → digit i (bit_and a b) ≡ min (digit i a) (digit i b)
digit-bit_and zero a b = omega (arith, bit_and-digits a b)
digit-bit_and (suc i) a b =
    ap (digit i) (omega (arith, bit_and-digits a b)) ∙ digit-bit_and i (a / 2) (b / 2)

pub digit-bit_or : (i a b : ℕ) → digit i (bit_or a b) ≡ max (digit i a) (digit i b)
digit-bit_or zero a b = omega (arith, bit_or-digits a b)
digit-bit_or (suc i) a b =
    ap (digit i) (omega (arith, bit_or-digits a b)) ∙ digit-bit_or i (a / 2) (b / 2)

-- The complement of a word of `w` digits turns each of them.
pub digit-complement : (w i x : ℕ) → i < w → x < 2 ^ w → digit i (2 ^ w - 1 - x) ≡ 1 - digit i x
digit-complement zero i x h hx = absurd (omega arith)
digit-complement (suc w) zero x h hx = omega (arith, two-pow-succ w)
digit-complement (suc w) (suc i) x h hx =
    ap (digit i) (omega (arith, two-pow-succ w))
    ∙ digit-complement w i (x / 2) (omega arith) (omega (arith, two-pow-succ w))

bit_and-bound_below : (n a b : ℕ) → a ≤ n → (bit_and a b ≤ a) × (bit_and a b ≤ b)
bit_and-bound_below n zero b h =
    (omega (arith, bit_and-bitwise 0 b), omega (arith, bit_and-bitwise 0 b))
bit_and-bound_below zero (suc a) b h = absurd (omega arith)
bit_and-bound_below (suc n) (suc a) b h =
    let (l, r) = bit_and-bound_below n (suc a / 2) (b / 2) (omega arith) in
    (omega (arith, bit_and-digits (suc a) b), omega (arith, bit_and-digits (suc a) b))

-- `and` is at most either of its operands.
pub bit_and-bound : (a b : ℕ) → (bit_and a b ≤ a) × (bit_and a b ≤ b)
bit_and-bound a b = bit_and-bound_below a a b (omega arith)

pub bit_or-bound : (w a b : ℕ) → a < 2 ^ w → b < 2 ^ w → bit_or a b < 2 ^ w
bit_or-bound zero zero zero ha hb = omega (arith, bit_or-bitwise 0 0)
bit_or-bound zero (suc a) b ha hb = absurd (omega arith)
bit_or-bound zero zero (suc b) ha hb = absurd (omega arith)
bit_or-bound (suc w) a b ha hb = omega (
  arith,
  bit_or-digits a b,
  bit_or-bound w (a / 2) (b / 2) (omega (arith, two-pow-succ w)) (omega (arith, two-pow-succ w)),
  two-pow-succ w,
)
