-- ===== src/Fmr/Names.antt =====
-- lib/fmr.c: fmr_dyld, which reads the name that it looks for behind the packet.
use flipper.Prelude.{
  ℕ, ◌+◌, ◌<◌, ◌≡◌, refl, sym, ap, ◌∙◌, List, ◌∷◌, ◌++◌, append_assoc, Option, none, some, true,
  false, length, drop, get_elem?, ◌==◌, arith, All, drop-length-append, length-append,
}
use flipper.Prelude.Bytes.{c_string-append}
use flipper.Prelude.Outcome.{done, pure}
use flipper.Error.{lf_success, lf_error, e_ok}
use flipper.Device.{Module, dyld, Device, Platform, Cmd}
use flipper.Modules.{find, lf_module_get_by_name}
use flipper.Fmr.{fmr_dyld, dispatch, send_result, fail, perform_class, fmr_perform}
use flipper.Fmr.Checksum.{message, crc_of, length-message, perform_accepts, replied}

module _ {E : Type 0} (p : Platform E) (plugins : ℕ → Cmd E (ℕ × ℕ)) where
  -- the value of the reply for a name: the index of its module, or 0
  abbrev pub index_of : Option (Module E) → ℕ
  index_of none = 0
  index_of (some m) = m.idx

  abbrev pub status_of : Option (Module E) → ℕ
  status_of none = lf_error
  status_of (some m) = lf_success

  found_value :
      (d : Device E) (found : Option (Module E))
      → elim found as (λ _. Cmd E (ℕ × ℕ)) [
        | none ↦ pure (lf_error, 0)
        | some m ↦ pure (lf_success, m.idx)
      ]
          d
        ≡ done (status_of found, index_of found) d
  found_value d none = refl
  found_value d (some m) = refl

  -- The name that stands behind the 64 bytes of the packet is looked for, whatever the packet holds.
  pub fmr_dyld-beyond :
      (d : Device E) (packet name more : List ℕ)
      → length packet ≡ 64
      → d.packet ≡ packet ++ (name ++ 0 ∷ more)
      → All (λ b. 0 < b) name
      → fmr_dyld p d ≡ done (status_of (find name d.modules), index_of (find name d.modules)) d
  unfolding fmr_dyld lf_module_get_by_name
  fmr_dyld-beyond d packet name more size e nonzero =
      let behind : drop 64 d.packet ≡ name ++ 0 ∷ more =
        ap (λ n. drop n d.packet) (sym size)
        ∙ ap (drop (length packet)) e
        ∙ drop-length-append packet (name ++ 0 ∷ more) in
      rw (behind, c_string-append name more nonzero) (found_value d (find name d.modules))

  -- A message of class 3 with its own checksum, which with what fills it up is 64 bytes long, is answered
  -- by the index of the first module whose name stands behind those bytes, or by 0 where there is none, and
  -- with E_OK in both cases; what the message holds does not matter.
  pub fmr_perform-beyond :
      (d : Device E) (more fill name behind : List ℕ)
      → d.packet ≡ (message (crc_of 3 more) 3 more ++ fill) ++ (name ++ 0 ∷ behind)
      → length more + 6 + length fill ≡ 64
      → All (λ b. 0 < b) name
      → (length d.modules == 0) ≡ false
      → get_elem? d.registry 3 ≡ some (some dyld)
      → let z : Device E = record d {
        packet = message 0 3 more ++ (fill ++ (name ++ 0 ∷ behind));
        err = e_ok;
        current = false;
      } in
        let r = replied p plugins z (index_of (find name d.modules)) e_ok in
        fmr_perform p plugins true d ≡ done r.0 r.1
  unfolding perform_class dispatch fail send_result
  fmr_perform-beyond d more fill name behind e size nonzero modules registered =
      let whole = e ∙ append_assoc (message (crc_of 3 more) 3 more) fill (name ++ 0 ∷ behind) in
      let z : Device E = record d {
        packet = message 0 3 more ++ (fill ++ (name ++ 0 ∷ behind));
        err = e_ok;
        current = true;
      } in
      let run =
        fmr_dyld-beyond z (message 0 3 more ++ fill) name behind
          (omega (arith, length-append {0} (message 0 3 more) fill, length-message 0 3 more))
          (sym (append_assoc (message 0 3 more) fill (name ++ 0 ∷ behind))) nonzero in
      perform_accepts p plugins d 3 more (fill ++ (name ++ 0 ∷ behind)) whole (omega arith)
        (omega arith)
      ∙ rw (modules, registered, run) refl
