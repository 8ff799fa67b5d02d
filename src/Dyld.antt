-- ===== src/Dyld.antt =====
-- lib/dyld.c on the side of the host: the index of a module is asked of the device by a message.
pub mod Adopt
pub mod Lookup
mod Runs
use flipper.Prelude.{
  ℕ, zero, suc, ◌+◌, ◌%◌, ◌^◌, List, [], ◌∷◌, ◌++◌, Option, none, some, Bool, true, false,
  if◌then◌else◌, length, replicate, ltb, leb, ◌==◌, not, take, drop,
}
use flipper.Prelude.Bytes.{poke, to_le, of_le, bytes_eq}
use flipper.Prelude.Outcome.{Outcome, done, fault, pure, continue, ◌>>=◌, ◌>>◌}
use flipper.Crc.{lf_crc}
use flipper.Error.{lf_success, lf_error, e_ok, e_null, e_endpoint, e_module, lf_error_set}
use flipper.Device.{Module, Device, Platform, Cmd, raise, call, access, name_max, fvm_name}
use flipper.Device.Create.{lf_module_create}
use flipper.Modules.{find, lf_module_get_by_name, dyld_register}
use flipper.Fmr.{fmr_magic_number, fmr_packet_size}

-- the packet buffer after `memset`
abbrev pub cleared : List ℕ
cleared = replicate fmr_packet_size 0

-- the packet that asks for a module: magic, class and length, the name with its zero, and the checksum
unfoldable pub dyld_packet : (module' : List ℕ) → Option (List ℕ)
dyld_packet module' =
    let len : ℕ = 6 + (length module' + 1) in
    elim (poke cleared 0 (fmr_magic_number ∷ 0 ∷ 0 ∷ to_le 2 len ++ 3 ∷ [])) [
      | none ↦ none
      | some p0 ↦ elim (poke p0 6 (module' ++ 0 ∷ [])) [
        | none ↦ none
        | some p1 ↦ elim (lf_crc p1 len) [ none ↦ none | some crc ↦ poke p1 1 (to_le 2 crc) ]
      ]
    ]

-- The nine bytes of a result, its value and its error, when some bytes of an answer have been written to it: a short answer
-- leaves what was in its memory before.
abbrev pub result_of : (answer before : List ℕ) → List ℕ
result_of answer before = take 9 (answer ++ drop (length answer) before)

module _ {E : Type 0} (p : Platform E) where
  abbrev pub read_result : Cmd E (ℕ × List ℕ)
  read_result d =
      let r = p.read 9 d.env in done (r.0, result_of r.1 (p.garbage d.env)) (record d { env = r.2 })

  abbrev pub set_name : List ℕ → Cmd E (Unit {0})
  set_name n d = done tt (record d { name = n })

  -- `device->name[0] == '\0'`
  abbrev pub is_empty : List ℕ → Bool
  is_empty [] = true
  is_empty (b ∷ bs) = false

  -- none is `lf_error`, otherwise the index is written and the status is `lf_success`
  unfoldable pub lf_dyld_dyn_sym_lookup :
      (dev : Bool) → (module' : Option (List ℕ)) → Cmd E (Option ℕ)
  unfolding dyld_packet
  lf_dyld_dyn_sym_lookup false module' d = (do raise e_null; pure none) d
  lf_dyld_dyn_sym_lookup true none d = (do raise e_null; pure none) d
  lf_dyld_dyn_sym_lookup true (some name) d =
      (do
        (if is_empty d.name then set_name fvm_name else pure tt)
        if leb name_max (length name) then pure none else (do
          packet ← access (dyld_packet name)
          sent ← call (p.write packet)
          if not (sent == lf_success) then (do raise e_endpoint; pure none) else (do
            (got, result) ← read_result
            if not (got == lf_success) then (do raise e_endpoint; pure none) else (do
              let error : ℕ = of_le (drop 8 result)
              if not (error == e_ok)
                  then (do raise error; pure none)
                  else pure (some (of_le (take 8 result) % 2 ^ 16))))))
        d

  -- the part of dyld_module behind a lookup that gave an index; the size is sizeof(struct _lf_module)
  unfoldable pub adopt : (size : ℕ) → (name : List ℕ) → (idx : ℕ) → Cmd E (Option (Module E))
  unfolding lf_module_create dyld_register
  adopt size name idx = do
    created ← lf_module_create p size (some name) idx
    elim created [
      | none ↦ do raise e_null; pure none
      | some (at, m) ↦ do
        r ← dyld_register p true (some (record m { name = take 31 name }))
        if r.0 == lf_success
            then pure r.1
            else (do call (λ e. (tt, p.free at e)); raise (lf_error_set e_module); pure none)
    ]

  unfoldable pub dyld_module :
      (size : ℕ) → (dev : Bool) → (module' : Option (List ℕ)) → Cmd E (Option (Module E))
  unfolding lf_dyld_dyn_sym_lookup adopt
  dyld_module size false module' d = (do raise e_null; pure none) d
  dyld_module size true none d = (do raise e_null; pure none) d
  dyld_module size true (some name) d = elim (find name d.modules) [
    | some m ↦ done (some m) d
    | none ↦
        (do
          idx ← lf_dyld_dyn_sym_lookup true (some name)
          elim idx [
            | none ↦ do raise (lf_error_set e_module); pure none
            | some i ↦ adopt size name i
          ])
          d
  ]

  -- `lf_assert(f == NULL, ...)`, then lf_ll_remove of that NULL: no item of the list is NULL, so the
  -- list stays as it is
  unfoldable pub dyld_unload : (size : ℕ) → (dev : Bool) → (module' : Option (List ℕ)) → Cmd E ℕ
  unfolding dyld_module
  dyld_unload size false module' d = (do raise e_null; pure lf_error) d
  dyld_unload size true none d = (do raise e_null; pure lf_error) d
  dyld_unload size true (some name) d =
      (do
        f ← dyld_module size true (some name)
        elim f [ some m ↦ do raise e_null; pure lf_error | none ↦ pure lf_success ])
        d

  -- dyld_load does nothing yet
  pub dyld_load : Cmd E ℕ
  dyld_load = pure lf_success
