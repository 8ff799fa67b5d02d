-- ===== src/Dac/Module.antt =====
-- platforms/atsam4s/api/dac.c and modules/modules_init.c: the module of the converter. `device` and `selected` say
-- whether dyld_lf_get_selected, which has no body in the repository, and lf_get_selected give a device.
use flipper.Prelude.{ℕ, List, [], ◌∷◌, none, some, Bool, true, if◌then◌else◌, not}
use flipper.Prelude.Outcome.{pure, ◌>>=◌, ◌>>◌}
use flipper.Error.{lf_error}
use flipper.Device.{Function, Platform, Cmd}
use flipper.Device.Create.{lf_module_create}
use flipper.Modules.{dyld_register}
use flipper.Dyld.{lf_dyld_dyn_sym_lookup}

-- "dac_module"
abbrev pub dac_name : List ℕ
dac_name = b'd' ∷ b'a' ∷ b'c' ∷ b'_' ∷ b'm' ∷ b'o' ∷ b'd' ∷ b'u' ∷ b'l' ∷ b'e' ∷ []

module _ {E : Type 0} (p : Platform E) where
  -- The size is sizeof(struct _lf_module), and the table dac_table.
  unfoldable pub dac_init_module :
      (size : ℕ) → (device selected : Bool) → (table : List (Function E)) → Cmd E ℕ
  unfolding lf_dyld_dyn_sym_lookup lf_module_create dyld_register
  dac_init_module size device selected table = if not device then pure lf_error else (do
    idx ← lf_dyld_dyn_sym_lookup p true (some dac_name)
    elim idx [
      | none ↦ pure lf_error
      | some i ↦ do
        created ← lf_module_create p size (some dac_name) i
        elim created [
          | none ↦ pure lf_error
          | some (at, m) ↦ do
            r ← dyld_register p selected (some (record m { table = table; length = 5 }))
            pure r.0
        ]
    ])

  -- the status of dac_init_module is not looked at
  unfoldable pub platform_init :
      (size : ℕ) → (device selected : Bool) → (table : List (Function E)) → Cmd E (Unit {0})
  unfolding dac_init_module
  platform_init size device selected table = do dac_init_module size device selected table; pure tt
