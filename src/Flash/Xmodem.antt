-- ===== src/Flash/Xmodem.antt =====
-- utils/fdfu/src/main.c: the fields of the packets of sam_ba_copy.
use flipper.Prelude.{
  ℕ, ◌+◌, ◌-◌, ◌/◌, ◌%◌, ◌≤◌, ◌≡◌, refl, sym, ap, ◌∙◌, List, [], ◌∷◌, ◌++◌, some, arith, length,
  replicate, length-append, length-replicate,
}
use flipper.Crc.{calcrc, lf_crc}
use flipper.Crc.Detect.{calcrc_residue, crc_from}
use flipper.Flash.{xpacket}

data_field :
    (bytes : List ℕ) → length bytes ≤ 128 → length (bytes ++ replicate (128 - length bytes) 0) ≡ 128
data_field bytes h = omega (
  arith,
  length-append {0} bytes (replicate (128 - length bytes) 0),
  length-replicate {A = ℕ} (128 - length bytes) 0,
)

abbrev seal_of : List ℕ → List ℕ
seal_of d = (crc_from 0 d / 256) ∷ (crc_from 0 d % 256) ∷ []

residue :
    (n m : ℕ) (d : List ℕ)
    → length d ≡ n
    → length d + 2 ≡ m
    → (lf_crc d n ≡ some (crc_from 0 d)) × (lf_crc (d ++ seal_of d) m ≡ some 0)
unfolding lf_crc
residue n m d l l' =
    let e : length (d ++ seal_of d) ≡ m = omega (arith, length-append {0} d (seal_of d)) in
    (
      ap (λ t. calcrc d t) (sym l) ∙ (calcrc_residue d).0,
      ap (λ t. calcrc (d ++ seal_of d) t) (sym e) ∙ (calcrc_residue d).1,
    )

-- The packet of some bytes, at most 128, is built. It has 133 bytes: SOH; its number, counted from 1
-- modulo 256; the complement of the number; the bytes and as many zeros as are missing to 128; and two more
-- such that the checksum of the last 130 bytes is 0.
xpacket-residue :
    (i : ℕ) (bytes : List ℕ)
    → length bytes ≤ 128
    → (number complement : ℕ) × (sealed : List ℕ) × (check : List ℕ) × (xpacket i bytes
        ≡ some (1 ∷ number ∷ complement ∷ sealed))
      × (number ≡ (i + 1) % 256)
      × (number + complement ≡ 255)
      × (sealed ≡ (bytes ++ replicate (128 - length bytes) 0) ++ check)
      × (length sealed ≡ 130)
      × (lf_crc sealed 130 ≡ some 0)
unfolding xpacket
xpacket-residue i bytes h =
    let d : List ℕ = bytes ++ replicate (128 - length bytes) 0 in
    let l = data_field bytes h in
    let (crc, zeroed) = residue 128 130 d l (omega arith) in
    (
      (i + 1) % 256,
      255 - (i + 1) % 256,
      d ++ seal_of d,
      seal_of d,
      rw (crc, xpacket) refl,
      refl,
      omega arith,
      refl,
      omega (arith, length-append {0} d (seal_of d)),
      zeroed,
    )
