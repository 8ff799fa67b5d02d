-- ===== src/Crc/Detect.antt =====
-- What the checksum detects.
use flipper.Prelude.{
  ℕ, zero, suc, ◌+◌, ◌*◌, ◌/◌, ◌%◌, ◌<◌, ◌≡◌, refl, sym, ap, ◌∙◌, ◌≢◌, List, [], ◌∷◌, ◌++◌,
  append-nil, some, bit_xor, arith, length, All, ◌==◌, true, ==_iff, if◌then◌else◌, holds_below,
  holds_below_sound,
}
use flipper.Prelude.Bits.{bit_xor_injective_left, bit_xor_injective_right, bit_xor_lt, bit_xor_self}
use flipper.Crc.{poly, crc_round, crc_rounds, crc_byte, calcrc_loop, calcrc}

-- The round is undone by looking at the lowest bit, which tells whether the polynomial was applied.
undo_round : ℕ → ℕ
undo_round y = if y % 2 == 0 then y / 2 else (bit_xor y poly + 65536) / 2

round_undone_table : holds_below (λ x. undo_round (crc_round x) == x) 65536 ≡ true
unfolding holds_below undo_round crc_round
round_undone_table = refl

round_undone : (x : ℕ) → x < 65536 → undo_round (crc_round x) ≡ x
round_undone x h = (==_iff _ x).0 (holds_below_sound _ 65536 x h round_undone_table)

crc_round_injective : (x y : ℕ) → x < 65536 → y < 65536 → crc_round x ≡ crc_round y → x ≡ y
crc_round_injective x y hx hy e = sym (round_undone x hx) ∙ ap undo_round e ∙ round_undone y hy

crc_round-lt : (x : ℕ) → crc_round x < 65536
unfolding crc_round
crc_round-lt x = ground arith

crc_rounds-lt : (i x : ℕ) → x < 65536 → crc_rounds i x < 65536
unfolding crc_rounds
crc_rounds-lt zero x h = h
crc_rounds-lt (suc i) x h = crc_rounds-lt i (crc_round x) (crc_round-lt x)

crc_rounds_injective : (i x y : ℕ) → x < 65536 → y < 65536 → crc_rounds i x ≡ crc_rounds i y → x ≡ y
unfolding crc_rounds
crc_rounds_injective zero x y hx hy e = e
crc_rounds_injective (suc i) x y hx hy e =
    crc_round_injective x y hx hy
      (crc_rounds_injective i (crc_round x) (crc_round y) (crc_round-lt x) (crc_round-lt y) e)

-- The register before the eight rounds; a byte fills its upper half.
mixed-eq :
    (crc b : ℕ) → crc < 65536 → b < 256 → bit_xor crc (b * 256) % 65536 ≡ bit_xor crc (b * 256)
mixed-eq crc b hc hb = omega (arith, bit_xor_lt 16 crc (b * 256) (omega arith) (omega arith))

crc_byte-lt : (crc b : ℕ) → crc_byte crc b < 65536
unfolding crc_byte
crc_byte-lt crc b = crc_rounds-lt 8 (bit_xor crc (b * 256) % 65536) (omega arith)

crc_byte_injective_left :
    (c d b : ℕ) → c < 65536 → d < 65536 → b < 256 → crc_byte c b ≡ crc_byte d b → c ≡ d
unfolding crc_byte
crc_byte_injective_left c d b hc hd hb e = bit_xor_injective_right c d (b * 256) (
    sym (mixed-eq c b hc hb)
    ∙ crc_rounds_injective 8 _ _ (omega arith) (omega arith) e
    ∙ mixed-eq d b hd hb)

crc_byte_injective_right :
    (c a b : ℕ) → c < 65536 → a < 256 → b < 256 → crc_byte c a ≡ crc_byte c b → a ≡ b
unfolding crc_byte
crc_byte_injective_right c a b hc ha hb e =
    let shifted = bit_xor_injective_left c (a * 256) (b * 256) (
      sym (mixed-eq c a hc ha)
      ∙ crc_rounds_injective 8 _ _ (omega arith) (omega arith) e
      ∙ mixed-eq c b hc hb) in
    omega arith

abbrev pub IsByte : ℕ → Type 0
IsByte b = b < 256

-- The checksum of a list of bytes from a register on, where every read is inside the list.
unfoldable pub crc_from : ℕ → List ℕ → ℕ
crc_from crc [] = crc
crc_from crc (b ∷ bs) = crc_from (crc_byte crc b) bs

calcrc_loop-crc_from :
    (bs rest : List ℕ) (crc : ℕ) → calcrc_loop (length bs) crc (bs ++ rest) ≡ some (crc_from crc bs)
unfolding calcrc_loop crc_from
calcrc_loop-crc_from [] rest crc = refl
calcrc_loop-crc_from (b ∷ bs) rest crc = calcrc_loop-crc_from bs rest (crc_byte crc b)

-- Reading `length bs` bytes never leaves the object, and gives the checksum of those bytes alone.
pub calcrc-crc_from : (bs rest : List ℕ) → calcrc (bs ++ rest) (length bs) ≡ some (crc_from 0 bs)
unfolding calcrc
calcrc-crc_from bs rest = calcrc_loop-crc_from bs rest 0

pub crc_from-lt : (bs : List ℕ) (crc : ℕ) → crc < 65536 → crc_from crc bs < 65536
unfolding crc_from
crc_from-lt [] crc h = h
crc_from-lt (b ∷ bs) crc h = crc_from-lt bs (crc_byte crc b) (crc_byte-lt crc b)

crc_from_injective :
    (bs : List ℕ) (c d : ℕ)
    → All IsByte bs
    → c < 65536
    → d < 65536
    → crc_from c bs ≡ crc_from d bs
    → c ≡ d
unfolding crc_from
crc_from_injective [] c d h hc hd e = e
crc_from_injective (b ∷ bs) c d (hb, h) hc hd e =
    crc_byte_injective_left c d b hc hd hb
      (crc_from_injective bs (crc_byte c b) (crc_byte d b) h (crc_byte-lt c b) (crc_byte-lt d b) e)

crc_from-append :
    (xs ys : List ℕ) (crc : ℕ) → crc_from crc (xs ++ ys) ≡ crc_from (crc_from crc xs) ys
unfolding crc_from
crc_from-append [] ys crc = refl
crc_from-append (x ∷ xs) ys crc = crc_from-append xs ys (crc_byte crc x)

pub crc_from_byte_changed :
    (front back : List ℕ) (a b crc : ℕ)
    → crc < 65536
    → All IsByte back
    → a < 256
    → b < 256
    → crc_from crc (front ++ (a ∷ back)) ≡ crc_from crc (front ++ (b ∷ back))
    → a ≡ b
crc_from_byte_changed front back a b crc hc hs ha hb e =
    let here = crc_from crc front in
    let here_lt : here < 65536 = crc_from-lt front crc hc in
    crc_byte_injective_right here a b here_lt ha hb (
      crc_from_injective back (crc_byte here a) (crc_byte here b) hs (crc_byte-lt here a)
        (crc_byte-lt here b)
        (unfold crc_from in
          (sym (crc_from-append front (a ∷ back) crc) ∙ e ∙ crc_from-append front (b ∷ back) crc)))

-- Two messages of bytes that differ in exactly one byte, at any place, have different checksums.
pub calcrc_detects :
    (front back : List ℕ) (a b : ℕ)
    → All IsByte back
    → a < 256
    → b < 256
    → a ≢ b
    → calcrc (front ++ (a ∷ back)) (length (front ++ (a ∷ back)))
      ≢ calcrc (front ++ (b ∷ back)) (length (front ++ (b ∷ back)))
calcrc_detects front back a b hs ha hb ne same = ne (
    crc_from_byte_changed front back a b 0 (omega arith) hs ha hb
      (cc (same, whole (front ++ (a ∷ back)), whole (front ++ (b ∷ back)))))
  where
    whole : (bs : List ℕ) → calcrc bs (length bs) ≡ some (crc_from 0 bs)
    whole bs = rw append-nil at (calcrc-crc_from bs [])

low_byte_table : holds_below (λ x. bit_xor x (x / 256 * 256) == x % 256) 65536 ≡ true
unfolding holds_below
low_byte_table = refl

shift_table : holds_below (λ x. crc_rounds 8 x == x * 256) 256 ≡ true
unfolding holds_below crc_rounds crc_round
shift_table = refl

low_byte : (x : ℕ) → x < 65536 → bit_xor x (x / 256 * 256) ≡ x % 256
low_byte x h = (==_iff _ (x % 256)).0 (holds_below_sound _ 65536 x h low_byte_table)

shift_byte : (x : ℕ) → x < 256 → crc_rounds 8 x ≡ x * 256
shift_byte x h = (==_iff _ (x * 256)).0 (holds_below_sound _ 256 x h shift_table)

crc_byte_high : (x : ℕ) → x < 65536 → crc_byte x (x / 256) ≡ x % 256 * 256
unfolding crc_byte
crc_byte_high x h =
    ap (λ t. crc_rounds 8 (t % 65536)) (low_byte x h)
    ∙ ap (crc_rounds 8) (low_fits x)
    ∙ shift_byte (x % 256) (omega arith)
  where
    low_fits : (x : ℕ) → x % 256 % 65536 ≡ x % 256
    low_fits x = omega arith

crc_byte_self : (b : ℕ) → crc_byte (b * 256) b ≡ 0
unfolding crc_byte
crc_byte_self b =
    ap (λ t. crc_rounds 8 (t % 65536)) (bit_xor_self (b * 256)) ∙ shift_byte 0 (omega arith)

-- A message that is followed by its own checksum, high byte first, has the checksum 0.
pub calcrc_residue :
    (bs : List ℕ)
    → let crc : ℕ = crc_from 0 bs in
      let sent : List ℕ = bs ++ (crc / 256) ∷ (crc % 256) ∷ [] in
      (calcrc bs (length bs) ≡ some crc) × (calcrc sent (length sent) ≡ some 0)
unfolding crc_from
calcrc_residue bs =
    let crc = crc_from 0 bs in
    let tail : List ℕ = (crc / 256) ∷ (crc % 256) ∷ [] in
    (
      rw append-nil at (calcrc-crc_from bs []),
      rw append-nil at (calcrc-crc_from (bs ++ tail) [])
          ∙ ap some (crc_from-append bs tail 0 ∙ zeroed crc (crc_from-lt bs 0 (omega arith))),
    )
  where
    zeroed : (crc : ℕ) → crc < 65536 → crc_from crc ((crc / 256) ∷ (crc % 256) ∷ []) ≡ 0
    zeroed crc h =
        ap (λ t. crc_byte t (crc % 256)) (crc_byte_high crc h) ∙ crc_byte_self (crc % 256)
