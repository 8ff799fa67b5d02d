-- ===== src/Modules.antt =====
-- The list of modules of a device: lf_module_get_by_name and dyld_register of lib/dyld.c, and
-- lf_module_get_by_index of lib/fmr_helper.c. `dev` says whether the device pointer is not NULL.
pub mod Register
mod Runs
use flipper.Prelude.{
  ℕ, ◌%◌, ◌^◌, List, [], ◌∷◌, ◌++◌, Option, none, some, Bool, true, false, if◌then◌else◌, length,
  ◌==◌, get_elem?,
}
use flipper.Prelude.Bytes.{bytes_eq}
use flipper.Prelude.Outcome.{Outcome, done, fault, pure, continue, ◌>>=◌, ◌>>◌}
use flipper.Error.{lf_success, lf_error, e_null}
use flipper.Device.{Module, Device, Platform, Cmd, raise, call, no_index}

module _ {E : Type 0} where
  -- the loop over the modules, up to the first whose name fits
  unfoldable pub find : List ℕ → List (Module E) → Option (Module E)
  find name [] = none
  find name (m ∷ ms) = if bytes_eq m.name name then some m else find name ms

  -- `return mod`; nothing found falls through to `fail`, which raises no error
  unfoldable pub lf_module_get_by_name :
      (dev : Bool) → (name : Option (List ℕ)) → Cmd E (Option (Module E))
  unfolding find
  lf_module_get_by_name false name d = (do raise e_null; pure none) d
  lf_module_get_by_name true none d = (do raise e_null; pure none) d
  lf_module_get_by_name true (some name) d = done (find name d.modules) d

  pub lf_module_get_by_index : (dev : Bool) → (index : ℕ) → Device E → Option (Module E)
  lf_module_get_by_index false index d = none
  lf_module_get_by_index true index d = get_elem? d.modules index

  -- the index that a module gets: its own, or the count of modules in an uint16_t
  unfoldable pub assign_index : Module E → List (Module E) → Module E
  assign_index m ms = if m.idx == no_index then record m { idx = length ms % 2 ^ 16 } else m

  abbrev pub append_module : Module E → Cmd E (Unit {0})
  append_module m d = done tt (record d { modules = d.modules ++ m ∷ [] })

-- sizeof(struct _lf_ll), which lf_ll_append allocates
abbrev pub node_size : ℕ
node_size = 24

module _ {E : Type 0} (p : Platform E) where
  -- The status, and the module as the call leaves it. A name that is registered already is success.
  unfoldable pub dyld_register :
      (dev : Bool) → (module' : Option (Module E)) → Cmd E (ℕ × Option (Module E))
  unfolding lf_module_get_by_name assign_index
  dyld_register false module' d = (do raise e_null; pure (lf_error, module')) d
  dyld_register true none d = (do raise e_null; pure (lf_error, none)) d
  dyld_register true (some m) d = elim (find m.name d.modules) [
    | some existing ↦ done (lf_success, some m) d
    | none ↦
        let m' = assign_index m d.modules in
        continue (call (p.malloc node_size) d) λ node.
          if node == 0
          then pure (lf_error, some m')
          else (do append_module m'; pure (lf_success, some m'))
  ]
