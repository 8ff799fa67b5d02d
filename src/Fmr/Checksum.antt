-- ===== src/Fmr/Checksum.antt =====
-- lib/fmr.c: the header checks of fmr_perform.
use flipper.Prelude.{
  ℕ, suc, ◌+◌, ◌<◌, ◌≡◌, refl, sym, ap, ◌∙◌, ◌≢◌, List, [], ◌∷◌, ◌++◌, append_assoc, some, true,
  false, not, length, length-append, arith, ◌==◌, if◌then◌else◌, All, Bool-cases, inl, inr, ==_iff,
  ==_refl,
}
use flipper.Prelude.Bytes.{
  poke, peek_in, poke_in, to_le, of_le, to_le_byte, to_le_word, length-to_le,
}
use flipper.Prelude.Outcome.{done, ◌>>◌}
use flipper.Crc.{calcrc, lf_crc}
use flipper.Crc.Detect.{IsByte, crc_from, calcrc-crc_from, crc_from-lt, crc_from_byte_changed}
use flipper.Error.{lf_error_set, e_ok, e_checksum}
use flipper.Device.{Device, Platform, Cmd, raise}
use flipper.Fmr.{fmr_magic_number, field, send_result, fail, perform_class, fmr_perform}

-- a message: the magic number, a checksum, its own length, its class and what follows
abbrev pub message : (crc type : ℕ) → (more : List ℕ) → List ℕ
message crc type more =
    fmr_magic_number ∷ (to_le 2 crc ++ (to_le 2 (length more + 6) ++ (to_le 1 type ++ more)))

abbrev sized_message : (size type : ℕ) → (more : List ℕ) → List ℕ
sized_message size type more =
    fmr_magic_number ∷ (to_le 2 0 ++ (to_le 2 size ++ (to_le 1 type ++ more)))

-- the checksum that fmr_perform expects: that of the message with the checksum field zero
unfoldable pub crc_of : (type : ℕ) → (more : List ℕ) → ℕ
unfolding crc_from
crc_of type more = crc_from 0 (message 0 type more)

pub crc_of-lt : (type : ℕ) (more : List ℕ) → crc_of type more < 65536
unfolding crc_of
crc_of-lt type more = crc_from-lt (message 0 type more) 0 (omega arith)

pub length-message :
    (crc type : ℕ) (more : List ℕ) → length (message crc type more) ≡ length more + 6
length-message crc type more =
    let n = length more + 6 in
    omega (
      arith,
      length-append {0} (to_le 2 crc) (to_le 2 n ++ (to_le 1 type ++ more)),
      length-append {0} (to_le 2 n) (to_le 1 type ++ more),
      length-append {0} (to_le 1 type) more,
      length-to_le 2 crc,
      length-to_le 2 n,
      length-to_le 1 type,
    )

pub lf_crc-message :
    (type : ℕ) (more rest : List ℕ)
    → lf_crc (message 0 type more ++ rest) (length more + 6) ≡ some (crc_of type more)
unfolding lf_crc crc_of
lf_crc-message type more rest =
    ap (λ n. calcrc (message 0 type more ++ rest) n) (sym (length-message 0 type more))
    ∙ calcrc-crc_from (message 0 type more) rest

pub clear_checksum :
    (mem : List ℕ) (crc type : ℕ) (more rest : List ℕ)
    → mem ≡ message crc type more ++ rest
    → poke mem 1 (to_le 2 0) ≡ some (message 0 type more ++ rest)
clear_checksum mem crc type more rest e =
    let back = to_le 2 (length more + 6) ++ (to_le 1 type ++ (more ++ rest)) in
    poke_in (fmr_magic_number ∷ []) (to_le 2 crc) (to_le 2 0) back (e ∙ simp append_assoc) refl
      (length-to_le 2 crc ∙ sym (length-to_le 2 0))
    ∙ ap some (simp append_assoc)

-- the fields of the header of a message
module _ {E : Type 0} where
  field_in :
      (d : Device E) (offset n x : ℕ) (xs ys : List ℕ)
      → d.packet ≡ xs ++ (to_le n x ++ ys)
      → length xs ≡ offset
      → field offset n d ≡ done (of_le (to_le n x)) d
  unfolding field
  field_in d offset n x xs ys e o = rw (peek_in xs (to_le n x) ys e o (length-to_le n x))

  pub magic_field :
      (d : Device E) (back : List ℕ)
      → d.packet ≡ fmr_magic_number ∷ back
      → field 0 1 d ≡ done fmr_magic_number d
  unfolding field of_le
  magic_field d back e = rw (peek_in [] (fmr_magic_number ∷ []) back e refl refl)

  pub crc_field :
      (d : Device E) (crc type : ℕ) (more rest : List ℕ)
      → d.packet ≡ message crc type more ++ rest
      → crc < 65536
      → field 1 2 d ≡ done crc d
  crc_field d crc type more rest e hc =
      let back = to_le 2 (length more + 6) ++ (to_le 1 type ++ (more ++ rest)) in
      field_in d 1 2 crc (fmr_magic_number ∷ []) back (e ∙ simp append_assoc) refl
      ∙ ap (λ x. done x d) (to_le_word crc hc)

  pub len_field :
      (d : Device E) (crc type : ℕ) (more rest : List ℕ)
      → d.packet ≡ message crc type more ++ rest
      → length more + 6 < 65536
      → field 3 2 d ≡ done (length more + 6) d
  len_field d crc type more rest e hl =
      field_in d 3 2 (length more + 6) (fmr_magic_number ∷ to_le 2 crc)
        (to_le 1 type ++ (more ++ rest)) (e ∙ simp append_assoc) (ap suc (length-to_le 2 crc))
      ∙ ap (λ x. done x d) (to_le_word (length more + 6) hl)

  pub type_field :
      (d : Device E) (crc type : ℕ) (more rest : List ℕ)
      → d.packet ≡ message crc type more ++ rest
      → type < 256
      → field 5 1 d ≡ done type d
  type_field d crc type more rest e ht =
      let len = length more + 6 in
      field_in d 5 1 type (fmr_magic_number ∷ (to_le 2 crc ++ to_le 2 len)) (more ++ rest)
        (e ∙ simp append_assoc)
        (ap suc (
          length-append (to_le 2 crc) (to_le 2 len)
          ∙ omega (arith, length-to_le 2 crc, length-to_le 2 len)))
      ∙ ap (λ x. done x d) (to_le_byte type ht)

module _ {E : Type 0} (p : Platform E) (plugins : ℕ → Cmd E (ℕ × ℕ)) where
  -- the device once the checksum field of its packet is zero
  abbrev pub zeroed : Device E → (type : ℕ) → (more rest : List ℕ) → Device E
  zeroed d type more rest = record d { packet = message 0 type more ++ rest }

  -- What fmr_perform does with a message whose checksum is `crc`.
  perform-message :
      (d : Device E) (crc type : ℕ) (more rest : List ℕ)
      → d.packet ≡ message crc type more ++ rest
      → crc < 65536
      → type < 256
      → length more + 6 < 65536
      → fmr_perform p plugins true d
        ≡ (if not (crc == crc_of type more)
              then (do raise (lf_error_set e_checksum); fail p plugins true 0)
              else (do raise (lf_error_set e_ok); perform_class p plugins true type))
            (zeroed d type more rest)
  unfolding fmr_perform
  perform-message d crc type more rest e hc ht hl =
      let z = zeroed d type more rest in
      rw
        (
          magic_field d _ e,
          crc_field d crc type more rest e hc,
          clear_checksum d.packet crc type more rest e,
          len_field z 0 type more rest refl hl,
          lf_crc-message type more rest,
        )
        (elim (Bool-cases (crc == crc_of type more)) [
          | inl same ↦
              rw (same, type_field (record z { err = lf_error_set e_ok }) 0 type more rest refl ht)
          | inr other ↦ rw other
        ])

  -- A message with its own checksum and a length below 65536 passes the checks of fmr_perform, whatever stands
  -- behind it: the error register is cleared, the checksum field is zeroed, and the class is performed.
  pub perform_accepts :
      (d : Device E) (type : ℕ) (more rest : List ℕ)
      → d.packet ≡ message (crc_of type more) type more ++ rest
      → type < 256
      → length more + 6 < 65536
      → fmr_perform p plugins true d
        ≡ perform_class p plugins true type
            (record d { packet = message 0 type more ++ rest; err = e_ok })
  perform_accepts d type more rest e ht hl =
      perform-message d (crc_of type more) type more rest e (crc_of-lt type more) ht hl
      ∙ rw (==_refl (crc_of type more)) (unfold lf_error_set in refl)

  same_size :
      (front back : List ℕ) (a b : ℕ) → length (front ++ a ∷ back) ≡ length (front ++ b ∷ back)
  same_size front back a b =
      omega (arith, length-append {0} front (a ∷ back), length-append {0} front (b ∷ back))

  crc_of_changed :
      (type : ℕ) (front back : List ℕ) (a b : ℕ)
      → All IsByte back
      → a < 256
      → b < 256
      → crc_of type (front ++ a ∷ back) ≡ crc_of type (front ++ b ∷ back)
      → a ≡ b
  unfolding crc_of
  crc_of_changed type front back a b hs ha hb e =
      let n : ℕ = length (front ++ b ∷ back) + 6 in
      let head : List ℕ =
        fmr_magic_number ∷ (to_le 2 0 ++ (to_le 2 n ++ (to_le 1 type ++ front))) in
      let sized : crc_from 0 (sized_message n type (front ++ a ∷ back))
          ≡ crc_from 0 (sized_message n type (front ++ b ∷ back)) =
        ap (λ k. crc_from 0 (sized_message (k + 6) type (front ++ a ∷ back)))
          (same_size front back b a)
        ∙ e in
      crc_from_byte_changed head back a b 0 (omega arith) hs ha hb (
        ap (crc_from 0) (regroup n type front (a ∷ back))
        ∙ sized
        ∙ ap (crc_from 0) (sym (regroup n type front (b ∷ back))))
    where
      regroup :
          (n type : ℕ) (front back : List ℕ)
          → (fmr_magic_number ∷ (to_le 2 0 ++ (to_le 2 n ++ (to_le 1 type ++ front)))) ++ back
            ≡ sized_message n type (front ++ back)
      regroup n type front back = simp append_assoc

  -- the reply with an error code, and the device behind it
  abbrev pub replied : Device E → (value error : ℕ) → ℕ × Device E
  replied d value error =
      let r = p.write (to_le 8 value ++ to_le 1 error) d.env in (r.0, record d { env = r.1 })

  -- If one byte behind the class of a message of a length below 65536 with its own checksum is changed, and
  -- the bytes behind it are below 256, fmr_perform runs no handler:
  -- it replies with the value 0 and E_CHECKSUM, returns the status of that write, and leaves all but the
  -- error register, the checksum field and the environment as they were.
  pub perform_rejects :
      (d : Device E) (type : ℕ) (front back rest : List ℕ) (a b : ℕ)
      → d.packet ≡ message (crc_of type (front ++ a ∷ back)) type (front ++ b ∷ back) ++ rest
      → All IsByte back
      → a < 256
      → b < 256
      → a ≢ b
      → type < 256
      → length (front ++ b ∷ back) + 6 < 65536
      → let z : Device E = record d {
        packet = message 0 type (front ++ b ∷ back) ++ rest;
        err = e_checksum;
      } in
        fmr_perform p plugins true d ≡ done (replied z 0 e_checksum).0 (replied z 0 e_checksum).1
  perform_rejects d type front back rest a b e hs ha hb ne ht hl =
      let sent = crc_of type (front ++ a ∷ back) in
      let own = crc_of type (front ++ b ∷ back) in
      let differs : (sent == own) ≡ false = elim (Bool-cases (sent == own)) [
        | inl same ↦
            absurd (ne (crc_of_changed type front back a b hs ha hb ((==_iff sent own).0 same)))
        | inr other ↦ other
      ] in
      perform-message d sent type (front ++ b ∷ back) rest e (crc_of-lt type (front ++ a ∷ back)) ht
        hl
      ∙ rw differs (unfold fail send_result lf_error_set in refl)
