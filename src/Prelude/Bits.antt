-- ===== src/Prelude/Bits.antt =====
-- Laws of exclusive or at variables, from the digit recursion that it stands for.
use Prim.Native.Nat.{
  ℕ, zero, suc, ◌+◌, ◌*◌, ◌/◌, ◌%◌, ◌^◌, ◌≤◌, ◌<◌, bit_xor, differ, bit_xor-bitwise,
}
use mathlib.Core.Path.{◌≡◌, sym, ap, ◌∙◌}
use flipper.Prelude.Masks.{digits_step}
use native.Mathlib.Nat.{two-pow-succ}
use native.Mathlib.Omega.{arith}

zero-bit_xor : (b : ℕ) → bit_xor 0 b ≡ b
zero-bit_xor b = bit_xor-bitwise 0 b

-- The lowest digit of an exclusive or, and the rest of it.
pub bit_xor_step : (a b : ℕ) → bit_xor a b ≡ bit_xor (a / 2) (b / 2) * 2 + differ (a % 2) (b % 2)
bit_xor_step a b =
    bit_xor-bitwise a b
    ∙ digits_step (λ b. b) differ (λ b. omega arith) a b
    ∙ ap (λ d. d * 2 + differ (a % 2) (b % 2)) (sym (bit_xor-bitwise (a / 2) (b / 2)))

-- On digits below 2.
differ_laws :
    (x y : ℕ)
    → x < 2
    → y < 2
    → (differ x y < 2) × (differ (differ x y) y ≡ x) × (differ x (differ x y) ≡ y)
differ_laws zero zero p q = omega arith
differ_laws zero (suc zero) p q = omega arith
differ_laws (suc zero) zero p q = omega arith
differ_laws (suc zero) (suc zero) p q = omega arith
differ_laws (suc (suc x)) y p q = absurd (omega arith)
differ_laws zero (suc (suc y)) p q = absurd (omega arith)
differ_laws (suc zero) (suc (suc y)) p q = absurd (omega arith)

half_of_sum : (h d : ℕ) → d < 2 → ((h * 2 + d) / 2 ≡ h) × ((h * 2 + d) % 2 ≡ d)
half_of_sum h d p = (omega arith, omega arith)

-- The two parts of an exclusive or, from the two parts of its operands.
pub bit_xor_parts :
    (a b : ℕ)
    → (bit_xor a b / 2 ≡ bit_xor (a / 2) (b / 2)) × (bit_xor a b % 2 ≡ differ (a % 2) (b % 2))
bit_xor_parts a b =
    let d = differ_laws (a % 2) (b % 2) (omega arith) (omega arith) in
    (omega (arith, bit_xor_step a b, d), omega (arith, bit_xor_step a b, d))

-- A number is determined by its half and its lowest digit.
eq_of_parts : (a b : ℕ) → a / 2 ≡ b / 2 → a % 2 ≡ b % 2 → a ≡ b
eq_of_parts a b h d = omega arith

bit_xor_cancel_below :
    (n a b : ℕ) → a ≤ n → b ≤ n → (bit_xor (bit_xor a b) b ≡ a) × (bit_xor a (bit_xor a b) ≡ b)
bit_xor_cancel_below zero zero zero p q = omega (arith, zero-bit_xor 0)
bit_xor_cancel_below zero (suc a) b p q = absurd (omega arith)
bit_xor_cancel_below zero zero (suc b) p q = absurd (omega arith)
bit_xor_cancel_below (suc n) a b p q =
    let (low, dr, dl) = differ_laws (a % 2) (b % 2) (omega arith) (omega arith) in
    let (hr, hl) = bit_xor_cancel_below n (a / 2) (b / 2) (omega arith) (omega arith) in
    let (h, d) = bit_xor_parts a b in
    (
      eq_of_parts _ a ((bit_xor_parts (bit_xor a b) b).0 ∙ ap (λ t. bit_xor t (b / 2)) h ∙ hr)
          ((bit_xor_parts (bit_xor a b) b).1 ∙ ap (λ t. differ t (b % 2)) d ∙ dr),
      eq_of_parts _ b ((bit_xor_parts a (bit_xor a b)).0 ∙ ap (λ t. bit_xor (a / 2) t) h ∙ hl)
          ((bit_xor_parts a (bit_xor a b)).1 ∙ ap (λ t. differ (a % 2) t) d ∙ dl),
    )

-- An exclusive or is undone by either of its operands.
pub bit_xor_cancel : (a b : ℕ) → (bit_xor (bit_xor a b) b ≡ a) × (bit_xor a (bit_xor a b) ≡ b)
bit_xor_cancel a b = bit_xor_cancel_below (a + b) a b (omega arith) (omega arith)

pub bit_xor_injective_left : (a b c : ℕ) → bit_xor a b ≡ bit_xor a c → b ≡ c
bit_xor_injective_left a b c h =
    sym (bit_xor_cancel a b).1 ∙ ap (λ t. bit_xor a t) h ∙ (bit_xor_cancel a c).1

pub bit_xor_injective_right : (a b c : ℕ) → bit_xor a c ≡ bit_xor b c → a ≡ b
bit_xor_injective_right a b c h =
    sym (bit_xor_cancel a c).0 ∙ ap (λ t. bit_xor t c) h ∙ (bit_xor_cancel b c).0

-- `bit_xor 0 a` is `a`, so `a` with `a` leaves nothing.
pub bit_xor_self : (a : ℕ) → bit_xor a a ≡ 0
bit_xor_self a = ap (λ t. bit_xor t a) (sym (zero-bit_xor a)) ∙ (bit_xor_cancel 0 a).0

pub bit_xor_lt : (n a b : ℕ) → a < 2 ^ n → b < 2 ^ n → bit_xor a b < 2 ^ n
bit_xor_lt zero zero zero p q = omega (arith, zero-bit_xor 0)
bit_xor_lt zero (suc a) b p q = absurd (omega arith)
bit_xor_lt zero zero (suc b) p q = absurd (omega arith)
bit_xor_lt (suc n) a b p q = omega (
  arith,
  bit_xor_step a b,
  differ_laws (a % 2) (b % 2) (omega arith) (omega arith),
  bit_xor_lt n (a / 2) (b / 2) (omega (arith, two-pow-succ n)) (omega (arith, two-pow-succ n)),
  two-pow-succ n,
)
