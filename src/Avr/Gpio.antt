-- ===== src/Avr/Gpio.antt =====
-- platforms/atmegau2/api/gpio.c: the pins after a write, one by one.
use flipper.Prelude.{ℕ, zero, suc, ◌-◌, ◌^◌, ◌<◌, ◌≡◌, refl, ap, ◌∙◌, arith, bit_and, bit_or}
use flipper.Prelude.Masks.{
  digit, digit-bound, digit-bit_and, digit-bit_or, digit-complement, bit_and-bound, bit_or-bound,
}
use flipper.Avr.{Registers, not_32, assign, gpio_write}
use Prim.Native.Nat.{min, max}
use native.Mathlib.Nat.{two-pow-succ}

-- What a pin holds, by what it held and by the two masks.
pub record Assigned (i set clear old new : ℕ) : Type 0 where
  pub cleared : digit i clear ≡ 1 → digit i new ≡ 0
  pub raised : digit i clear ≡ 0 → digit i set ≡ 1 → digit i new ≡ 1
  pub kept : digit i clear ≡ 0 → digit i set ≡ 0 → digit i new ≡ digit i old

digit-zero : (i : ℕ) → digit i 0 ≡ 0
digit-zero zero = refl
digit-zero (suc i) = digit-zero i

two_pow-pos : (w : ℕ) → 0 < 2 ^ w
two_pow-pos zero = omega arith
two_pow-pos (suc w) = omega (arith, two-pow-succ w, two_pow-pos w)

-- the mask of the low digits
digit-ones : (w i : ℕ) → i < w → digit i (2 ^ w - 1) ≡ 1
digit-ones w i h =
    let whole : 2 ^ w - 1 ≡ 2 ^ w - 1 - 0 = omega arith in
    ap (digit i) whole ∙ digit-complement w i 0 h (two_pow-pos w) ∙ ap (λ d. 1 - d) (digit-zero i)

-- ~ of a mask of 8 digits
digit-not : (i mask : ℕ) → i < 8 → digit i (not_32 (bit_and mask 255)) ≡ 1 - digit i mask
digit-not i mask h =
    let low : bit_and mask 255 < 2 ^ 32 = omega (arith, bit_and-bound mask 255) in
    omega (
      arith,
      digit-complement 32 i (bit_and mask 255) (omega arith) low,
      digit-bit_and i mask 255,
      digit-ones 8 i h,
      digit-bound i mask,
    )

digit-assign :
    (i set clear reg : ℕ)
    → i < 8
    → digit i (assign set clear reg) ≡ min (max (digit i reg) (digit i set)) (1 - digit i clear)
digit-assign i set clear reg h = omega (
  arith,
  digit-bit_and i (bit_or reg (bit_and set 255)) (not_32 (bit_and clear 255)),
  digit-bit_or i reg (bit_and set 255),
  digit-bit_and i set 255,
  digit-not i clear h,
  digit-ones 8 i h,
  digit-bound i set,
)

assign-Assigned : (i set clear reg : ℕ) → i < 8 → Assigned i set clear reg (assign set clear reg)
assign-Assigned i set clear reg h =
    let d = digit-assign i set clear reg h in
    let reg_bound = digit-bound i reg in
    record {
      cleared = λ k. omega (arith, d, k);
      raised = λ k s. omega (arith, d, k, s, reg_bound);
      kept = λ k s. omega (arith, d, k, s, reg_bound);
    }

assign-bound : (set clear reg : ℕ) → reg < 256 → assign set clear reg < 256
assign-bound set clear reg h =
    let or_small = bit_or-bound 8 reg (bit_and set 255) h (omega (arith, bit_and-bound set 255)) in
    omega
      (arith, or_small, bit_and-bound (bit_or reg (bit_and set 255)) (not_32 (bit_and clear 255)))

-- For a port that holds a byte, after gpio_write each of its eight pins is low where its bit of `clear` is set, also if that of
-- `set` is set too; it is high where only that of `set` is set, and as before where neither is. The port still holds a
-- byte, and a write to it leaves the directions of the pins alone.
pub gpio_write-Assigned :
    (set clear : ℕ) (r : Registers)
    → r.portd < 256
    → ((i : ℕ) → i < 8 → Assigned i set clear r.portd (gpio_write set clear r).portd)
      × ((gpio_write set clear r).portd < 256)
      × ((gpio_write set clear r).ddrd ≡ r.ddrd)
unfolding gpio_write
gpio_write-Assigned set clear r h =
    (λ i small. assign-Assigned i set clear r.portd small, assign-bound set clear r.portd h, refl)
