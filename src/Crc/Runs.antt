-- ===== src/Crc/Runs.antt =====
-- Tests of lib/crc.c on concrete inputs.
use flipper.Prelude.{◌≡◌, ◌≢◌, refl, [], ◌∷◌, none, some, arith}
use flipper.Crc.{calcrc}
use flipper.Crc.Detect.{calcrc_detects}

-- the check value of the CRC with this polynomial and start
check_value : calcrc (49 ∷ 50 ∷ 51 ∷ 52 ∷ 53 ∷ 54 ∷ 55 ∷ 56 ∷ 57 ∷ []) 9 ≡ some 0x31C3
unfolding calcrc
check_value = refl

-- a read behind the object
too_long : calcrc (49 ∷ []) 2 ≡ none
unfolding calcrc
too_long = refl

calcrc_detects_example : calcrc (1 ∷ 2 ∷ 3 ∷ []) 3 ≢ calcrc (1 ∷ 4 ∷ 3 ∷ []) 3
calcrc_detects_example =
    calcrc_detects (1 ∷ []) (3 ∷ []) 2 4 (omega arith, tt) (omega arith) (omega arith)
      (λ e. omega arith)
