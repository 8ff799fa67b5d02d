-- ===== src/Fmr/Beyond.antt =====
-- lib/fmr.c: the dispatchers that take what they look for from behind the packet.
use flipper.Prelude.{
  ℕ, zero, suc, ◌+◌, ◌<◌, ◌≡◌, refl, ap, ◌∙◌, List, [], ◌∷◌, ◌++◌, none, some, true, false, length,
  drop, length-drop, length-append, replicate, get_elem?, arith, leb, lt→ltb, ◌==◌,
}
use flipper.Prelude.Bytes.{peek, c_string}
use flipper.Prelude.Outcome.{fault}
use flipper.Error.{e_ok}
use flipper.Device.{Handler, push, pull, dyld, malloc, free, Device, Platform, Cmd}
use flipper.Fmr.{
  field, fmr_register, fmr_init, fmr_push, fmr_pull, fmr_dyld, fmr_malloc, fmr_free, dispatch,
  perform_class, fmr_perform,
}
use flipper.Fmr.Checksum.{message, crc_of, length-message, perform_accepts}

empty : (bs : List ℕ) → length bs ≡ 0 → bs ≡ []
empty [] e = refl
empty (b ∷ bs) e = absurd (omega arith)

module _ {E : Type 0} (p : Platform E) (plugins : ℕ → Cmd E (ℕ × ℕ)) (d : Device E)
    (size : length d.packet ≡ 64) where
  field-outside : (n : ℕ) → 0 < n → field 64 n d ≡ fault
  unfolding field peek
  field-outside n some_bytes =
      let outside : leb (64 + n) (length d.packet) ≡ false = ground arith in rw (outside) refl

  nothing_behind : drop 64 d.packet ≡ []
  nothing_behind = empty (drop 64 d.packet) (length-drop {0} 64 d.packet ∙ omega (arith, size))

  dispatch-outside :
      (type : ℕ)
      → 0 < type
      → type < 6
      → (h : Handler) × (get_elem? (fmr_init (replicate 6 none)) type ≡ some (some h))
        × (dispatch p plugins h d ≡ fault)
  unfolding dispatch fmr_init fmr_register fmr_push fmr_pull fmr_dyld fmr_malloc fmr_free c_string
  dispatch-outside zero some_class named = absurd (omega arith)
  dispatch-outside (suc zero) some_class named =
      (push, refl, rw (field-outside 1 (omega arith)) refl)
  dispatch-outside (suc (suc zero)) some_class named =
      (pull, refl, rw (field-outside 1 (omega arith)) refl)
  dispatch-outside (suc (suc (suc zero))) some_class named = (dyld, refl, rw (nothing_behind) refl)
  dispatch-outside (suc (suc (suc (suc zero)))) some_class named =
      (malloc, refl, rw (field-outside 8 (omega arith)) refl)
  dispatch-outside (suc (suc (suc (suc (suc zero))))) some_class named =
      (free, refl, rw (field-outside 8 (omega arith)) refl)
  dispatch-outside (suc (suc (suc (suc (suc (suc type)))))) some_class named = absurd (omega arith)

module _ {E : Type 0} (p : Platform E) (plugins : ℕ → Cmd E (ℕ × ℕ)) where
  -- On a device with modules and the dispatchers that fmr_init registers, a message of a class from 1 to 5 with its own
  -- checksum, in an object of just the 64 bytes of a packet, makes fmr_perform read behind that object, whatever its
  -- payload is.
  pub fmr_perform-outside :
      (d : Device E) (type : ℕ) (more behind : List ℕ)
      → d.packet ≡ message (crc_of type more) type more ++ behind
      → length (message (crc_of type more) type more ++ behind) ≡ 64
      → 0 < type
      → type < 6
      → (length d.modules == 0) ≡ false
      → d.registry ≡ fmr_init (replicate 6 none)
      → fmr_perform p plugins true d ≡ fault
  unfolding perform_class
  fmr_perform-outside d type more behind here size some_class named modules registered =
      let v : Device E = record d {
        packet = message 0 type more ++ behind;
        err = e_ok;
        current = true;
      } in
      let sent = length-append {0} (message (crc_of type more) type more) behind in
      let sized = length-message (crc_of type more) type more in
      let sized' = length-message 0 type more in
      let whole : length v.packet ≡ 64 =
        length-append {0} (message 0 type more) behind ∙ omega (arith, size, sent, sized, sized') in
      let (h, found, outside) = dispatch-outside p plugins v whole type some_class named in
      let handler = ap (λ t. get_elem? t type) registered ∙ found in
      perform_accepts p plugins d type more behind here (omega arith)
        (omega (arith, size, sent, sized))
      ∙ rw (lt→ltb type 6 named, modules, handler, outside) refl
