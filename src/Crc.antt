-- ===== src/Crc.antt =====
-- lib/crc.c: the 16-bit checksum over the polynomial 0x1021. A pointer is the list of the bytes that
-- stand in memory from it on; a read past the end of the list is outside of the object, `none`.
pub mod Detect
mod Runs
use flipper.Prelude.{
  ℕ, zero, suc, ◌+◌, ◌*◌, ◌%◌, ◌^◌, List, [], ◌∷◌, Option, none, some, bit_and, bit_xor, ◌==◌,
  if◌then◌else◌,
}

abbrev pub poly : ℕ
poly = 0x1021

-- the body of the `do` loop: `crc << 1`, and `^ POLY` where the top bit was set, in a uint16_t
pub crc_round : ℕ → ℕ
crc_round crc =
    if bit_and crc 0x8000 == 0 then crc * 2 % 2 ^ 16 else bit_xor (crc * 2) poly % 2 ^ 16

-- `do { ... } while (--i)`
pub crc_rounds : ℕ → ℕ → ℕ
crc_rounds zero crc = crc
crc_rounds (suc i) crc = crc_rounds i (crc_round crc)

-- one turn of the `while` loop: `crc ^ (uint16_t)*ptr++ << 8`, and eight rounds
pub crc_byte : ℕ → ℕ → ℕ
unfolding crc_rounds
crc_byte crc b = crc_rounds 8 (bit_xor crc (b * 256) % 2 ^ 16)

pub calcrc_loop : (count crc : ℕ) → List ℕ → Option ℕ
calcrc_loop zero crc ptr = some crc
calcrc_loop (suc count) crc [] = none
calcrc_loop (suc count) crc (b ∷ ptr) = calcrc_loop count (crc_byte crc b) ptr

unfoldable pub calcrc : List ℕ → (count : ℕ) → Option ℕ
unfolding calcrc_loop crc_byte crc_rounds crc_round
calcrc ptr count = calcrc_loop count 0 ptr

-- `lf_crc` writes the checksum through its pointer and returns `lf_success`
unfoldable pub lf_crc : List ℕ → (length : ℕ) → Option ℕ
unfolding calcrc
lf_crc src length = calcrc src length
