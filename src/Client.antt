-- ===== src/Client.antt =====
-- lib/libflipper.c: the list of attached devices, and the calls of a function of a module by a message.
pub mod Devices
pub mod Invoke
pub mod Layout
pub mod RoundTrip
pub mod Received
mod Runs
use flipper.Prelude.{
  ℕ, zero, suc, ◌+◌, ◌%◌, ◌^◌, List, [], ◌∷◌, ◌++◌, Option, none, some, Bool, true, false,
  if◌then◌else◌, length, replicate, ltb, leb, ◌==◌, not, take, drop,
}
use flipper.Prelude.Bytes.{poke, peek, to_le, of_le}
use flipper.Prelude.Outcome.{Outcome, done, fault, pure, continue, ◌>>=◌, ◌>>◌}
use flipper.Crc.{lf_crc}
use flipper.Error.{lf_success, lf_error, e_ok, e_null, e_endpoint, e_module}
use flipper.Device.{Arg, Module, Device, Platform, Cmd, raise, call, access}
use flipper.Device.Create.{lf_module_create}
use flipper.Modules.{dyld_register}
use flipper.Fmr.{fmr_magic_number, lf_sizeof}
use flipper.Call.{lf_create_call, max_argc, header_size, call_size}
use flipper.Dyld.{cleared, read_result, lf_dyld_dyn_sym_lookup, dyld_module}

-- The globals of the library: the attached devices by address, the selected one (0 is NULL), `_lf_err`.
pub record Library : Type 0 where
  pub attached : List ℕ
  pub selected : ℕ
  pub err : ℕ

-- On posix: the devices that lf_libusb_get_devices finds join the list, by lf_ll_concat.
unfoldable pub lf_attach : (posix : Bool) → (usb : List ℕ) → Library → ℕ × Library
lf_attach false usb l = (lf_error, l)
lf_attach true usb l = (lf_success, record l { attached = l.attached ++ usb })

unfoldable pub lf_select : ℕ → Library → ℕ × Library
lf_select device l =
    if device == 0
    then (lf_error, record l { err = e_null })
    else (lf_success, record l { selected = device })

unfoldable pub lf_get_selected : Library → ℕ
lf_get_selected l = l.selected

-- what lf_ll_remove leaves of the items
unfoldable pub without : ℕ → List ℕ → List ℕ
without x [] = []
without x (y ∷ ys) = if y == x then without x ys else y ∷ without x ys

unfoldable pub lf_detach : ℕ → Library → ℕ × Library
unfolding without
lf_detach device l =
    if device == 0
    then (lf_error, record l { err = e_null })
    else (lf_success, record l { attached = without device l.attached })

unfoldable pub lf_exit : Library → ℕ × Library
lf_exit l = (lf_success, record l { attached = [] })

-- The loop of lf_invoke_by_index: the types from `i` on, the values from `dst` on, and `hdr->len`; none is a write outside
-- of the packet, or behind the entries of arg_types.
unfoldable pub args_loop : (i dst len : ℕ) → List Arg → (packet : List ℕ) → Option (ℕ × List ℕ)
args_loop i dst len [] packet = some (len, packet)
args_loop i dst len (a ∷ as') packet = elim (ltb i max_argc) [
  | false ↦ none
  | true ↦ elim (poke packet (10 + i) (to_le 1 a.type)) [
    | none ↦ none
    | some typed ↦ elim (poke typed dst (to_le (lf_sizeof a.type) a.value)) [
      | none ↦ none
      | some packet' ↦
          args_loop (i + 1) (dst + lf_sizeof a.type) ((len + lf_sizeof a.type) % 2 ^ 16) as' packet'
    ]
  ]
]

-- the checksum over the length in the header, written to the header
unfoldable pub seal : (len : ℕ) → (packet : List ℕ) → Option (List ℕ)
seal len packet = elim (lf_crc packet len) [ none ↦ none | some crc ↦ poke packet 1 (to_le 2 crc) ]

-- the packet of a call by index; none is a write or a read outside of the packet
unfoldable pub invoke_packet : (idx function ret : ℕ) → List Arg → Option (List ℕ)
unfolding args_loop seal
invoke_packet idx function ret args =
    let argc : ℕ = length args % 256 in
    elim (poke cleared 0
      (fmr_magic_number ∷ 0 ∷ 0 ∷ 0 ∷ 0 ∷ 0 ∷ idx % 256 ∷ function ∷ ret ∷ argc ∷ [])) [
        | none ↦ none
        | some p0 ↦ elim (args_loop 0 26 (header_size + call_size + argc) (take argc args) p0) [
          | none ↦ none
          | some (len, p1) ↦ elim (poke p1 3 (to_le 2 len)) [ none ↦ none | some p2 ↦ seal len p2 ]
        ]
      ]

-- the packet of lf_invoke before lf_create_call: magic and length
abbrev pub invoke_start : List ℕ
invoke_start = fmr_magic_number ∷ 0 ∷ 0 ∷ 6 ∷ 0 ∷ replicate 59 0

module _ {E : Type 0} (p : Platform E) where
  -- `lf_assert(e, err, ...)`: the status of a call, where 0 fails the assertion
  abbrev pub assert_status : {A : Type 0} → ℕ → (err : ℕ) → Cmd E (Option A) → Cmd E (Option A)
  assert_status e err rest = if e == 0 then (do raise err; pure none) else rest

  -- the message and its answer: the value of the result where the assertions hold
  unfoldable pub exchange : (packet : List ℕ) → Cmd E (Option ℕ)
  exchange packet = do
    e ← call (p.write packet)
    assert_status e e_endpoint (do
      (e', result) ← read_result p
      assert_status e' e_endpoint (do
        let error : ℕ = of_le (drop 8 result)
        if error == e_ok then pure (some (of_le (take 8 result))) else (do raise error; pure none)))

  -- none is `lf_error`; otherwise `lf_success`, and the value is written to `*retval`
  unfoldable pub lf_invoke :
      (size : ℕ)
      → (dev : Bool) → (module' : Option (List ℕ)) → (ret : ℕ) → List Arg
      → Cmd E (Option ℕ)
  unfolding exchange
  lf_invoke size false module' ret args d = (do raise e_null; pure none) d
  lf_invoke size true none ret args d = (do raise e_null; pure none) d
  lf_invoke size true (some name) ret args d =
      (do
        found ← dyld_module p size true (some name)
        elim found [
          | none ↦ do raise e_module; pure none
          | some m ↦ do
            (e, packet) ← access (lf_create_call true m.idx ret args invoke_start)
            assert_status e e_null (do
              len ← access (peek packet 3 2)
              sealed ← access (seal (of_le len) packet)
              exchange sealed)
        ])
        d

  -- the module of the library for an index that the device gave; false is `goto fail`
  unfoldable pub ensure_module : (size : ℕ) → (name : List ℕ) → (idx : ℕ) → Cmd E Bool
  ensure_module size name idx = do
    known ← dyld_module p size true (some name)
    elim known [
      | some m ↦ pure true
      | none ↦ do
        created ← lf_module_create p size (some name) idx
        elim created [
          | none ↦ do raise e_null; pure false
          | some (at, m) ↦ do
            r ← dyld_register p true (some (record m { name = take 31 name }))
            if r.0 == lf_success then pure true else (do raise e_module; pure false)
        ]
    ]

  -- the message and its answer; the error of the result is not looked at
  unfoldable pub exchange_by_index : (packet : List ℕ) → Cmd E (Option ℕ)
  exchange_by_index packet = do
    sent ← call (p.write packet)
    if not (sent == lf_success) then (do raise e_endpoint; pure none) else (do
      (got, result) ← read_result p
      if not (got == lf_success)
          then (do raise e_endpoint; pure none)
          else pure (some (of_le (take 8 result))))

  unfoldable pub lf_invoke_by_index :
      (size : ℕ)
      → (dev : Bool) → (module' : Option (List ℕ)) → (index ret : ℕ) → List Arg
      → Cmd E (Option ℕ)
  unfolding ensure_module invoke_packet exchange_by_index
  lf_invoke_by_index size false module' index ret args d = (do raise e_null; pure none) d
  lf_invoke_by_index size true none index ret args d = (do raise e_null; pure none) d
  lf_invoke_by_index size true (some name) index ret args d =
      (do
        idx ← lf_dyld_dyn_sym_lookup p true (some name)
        elim idx [
          | none ↦ do raise e_module; pure none
          | some i ↦ do
            ready ← ensure_module size name i
            if ready
                then (do packet ← access (invoke_packet i index ret args); exchange_by_index packet)
                else pure none
        ])
        d
