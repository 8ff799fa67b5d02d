-- ===== src/Device/Create.antt =====
-- lib/device.c and lib/module.c: lf_device_create_named, lf_device_create, lf_create_virtual_device,
-- lf_device_release,
-- lf_module_create and lf_module_release.
use flipper.Prelude.{ℕ, List, [], Option, none, some, if◌then◌else◌, length, ltb, take, ◌==◌}
use flipper.Prelude.Outcome.{pure, ◌>>=◌, ◌>>◌}
use flipper.Error.{e_malloc, e_null, e_overflow}
use flipper.Device.{Module, Platform, Cmd, raise, call, name_max, fvm_name}

-- the fields that lf_device_create_named sets: the rest is zero from `calloc`
pub record Created : Type 0 where
  pub at : ℕ
  pub name : List ℕ

module _ {E : Type 0} (p : Platform E) where
  -- The size is sizeof(struct _lf_device); `strncpy` copies at most 31 bytes of the name.
  unfoldable pub lf_device_create_named :
      (size : ℕ) → (name : Option (List ℕ)) → Cmd E (Option Created)
  lf_device_create_named size name = do
    at ← call (p.malloc size)
    if at == 0
        then (do raise e_malloc; call (λ e. (tt, p.free at e)); pure none)
        else pure (some (record { at = at; name = copied name }))
    where
      copied : Option (List ℕ) → List ℕ
      copied none = []
      copied (some n) = take 31 n

  unfoldable pub lf_device_create : (size : ℕ) → Cmd E (Option Created)
  unfolding lf_device_create_named
  lf_device_create size = lf_device_create_named size none

  -- on a host that reaches its devices by datagrams
  pub lf_create_virtual_device : (size : ℕ) → Cmd E (Option Created)
  unfolding lf_device_create_named
  lf_create_virtual_device size = lf_device_create_named size (some fvm_name)

  -- 0 is NULL
  pub lf_device_release : (device : ℕ) → Cmd E (Unit {0})
  lf_device_release device = if device == 0 then raise e_null else call (λ e. (tt, p.free device e))

  -- The size is sizeof(struct _lf_module); a name that is NULL or too long is refused.
  unfoldable pub lf_module_create :
      (size : ℕ) → (name : Option (List ℕ)) → (idx : ℕ) → Cmd E (Option (ℕ × Module E))
  lf_module_create size none idx = do raise e_null; pure none
  lf_module_create size (some name) idx =
      if ltb (length name) name_max
      then (do
        at ← call (p.malloc size)
        if at == 0
            then (do raise e_malloc; pure none)
            else pure (
                some (
                  at,
                  record {
                    name = take 31 name;
                    version = 0;
                    idx = idx;
                    table = [];
                    length = 0;
                    state = none;
                  },
                )))
      else (do raise e_overflow; pure none)

  pub lf_module_release : (module' : ℕ) → Cmd E (Unit {0})
  lf_module_release module' = if module' == 0 then pure tt else call (λ e. (tt, p.free module' e))
