-- ===== src/Client/Invoke.antt =====
-- lib/libflipper.c: what lf_invoke makes of a call that it has created.
use flipper.Prelude.{
  ℕ, ◌+◌, ◌%◌, ◌≤◌, ◌≡◌, refl, ap, ◌∙◌, List, none, some, true, length, arith, inl, inr,
}
use flipper.Prelude.Outcome.{done}
use flipper.Error.{lf_success, e_null}
use flipper.Device.{Arg, Module, Device, Platform}
use flipper.Modules.{find}
use flipper.Call.{total, lf_create_call}
use flipper.Call.Create.{counted, lf_create_call-total}
use flipper.Dyld.{dyld_module}
use flipper.Client.{invoke_start, lf_invoke}

module _ {E : Type 0} (p : Platform E) where
  -- a module that the library has is found without a message
  known :
      (size : ℕ) (name : List ℕ) (m : Module E) (d : Device E)
      → find name d.modules ≡ some m
      → dyld_module p size true (some name) d ≡ done (some m) d
  unfolding dyld_module
  known size name m d h = rw (h, dyld_module) refl

  -- For a module that the library knows, and arguments whose count modulo 256 is at most 16 and which make up a call of at
  -- most 58 bytes, lf_invoke fails with E_NULL and changes nothing else, so that nothing is sent.
  pub lf_invoke-created_fails :
      (size ret : ℕ) (name : List ℕ) (m : Module E) (args : List Arg) (d : Device E)
      → find name d.modules ≡ some m
      → length args % 256 ≤ 16
      → 20 + length args % 256 + total (counted args) ≤ 58
      → lf_invoke p size true (some name) ret args d ≡ done none (record d { err = e_null })
  unfolding lf_invoke
  lf_invoke-created_fails size ret name m args d h few fits =
      let (status, packet, run, whole, outcome) =
        lf_create_call-total m.idx ret args invoke_start refl few in
      elim outcome [
        | inl (good, len) ↦
            let created : lf_create_call true m.idx ret args invoke_start
                ≡ some (lf_success, packet) =
              run ∙ ap (λ s. some (s, packet)) good in
            rw (known size name m d h, created) refl
        | inr (bad, large) ↦ absurd (omega arith)
      ]
