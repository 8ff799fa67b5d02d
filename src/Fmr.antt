-- ===== src/Fmr.antt =====
-- lib/fmr.h, lib/fmr.c: the message runtime of a device. A packet is its bytes: the magic number at 0,
-- the checksum at 1, the length at 3, the class at 5, the payload from 6 on; `packet + 1` is 64.
-- A handler returns its status and what it leaves in `*retval`, which fmr_perform sets to 0 before.
pub mod Args
pub mod Checksum
pub mod Beyond
pub mod Names
pub mod Rpc
pub mod Frame
mod Runs
use flipper.Prelude.{
  ℕ, zero, suc, ◌+◌, ◌-◌, ◌*◌, ◌%◌, ◌^◌, List, [], ◌∷◌, ◌++◌, Option, none, some, Bool, true, false,
  not, ◌||◌, if◌then◌else◌, length, get_elem?, set, drop, replicate, ltb, leb, ◌==◌,
}
use flipper.Prelude.Bytes.{peek, poke, to_le, of_le, c_string}
use flipper.Prelude.Outcome.{Outcome, done, fault, pure, continue, ◌>>=◌, ◌>>◌}
use flipper.Crc.{lf_crc}
use flipper.Error.{lf_success, lf_error, e_ok, e_null, e_fmr, e_checksum, lf_error_set}
use flipper.Device.{
  Arg, Module, Handler, rpc, push, pull, dyld, malloc, free, plugin, Device, Platform, Cmd, raise,
  call, access,
}
use flipper.Modules.{lf_module_get_by_name, node_size}

abbrev pub fmr_packet_size : ℕ
fmr_packet_size = 64

abbrev pub fmr_magic_number : ℕ
fmr_magic_number = 0xFE

abbrev pub fmr_class_count : ℕ
fmr_class_count = 6

-- lf_sizeof of lib/fmr_helper.c: the size of a type code
unfoldable pub lf_sizeof : ℕ → ℕ
lf_sizeof type =
    if (type == 16) || (type == 24)
    then 1
    else (if (type == 17) || (type == 25)
        then 2
        else (if (type == 19) || (type == 4) || (type == 27)
            then 4
            else (if (type == 3) || (type == 31) || (type == 2) then 8 else 0)))

-- the table after fmr_register, and its status; a NULL handler is none
unfoldable pub fmr_register :
    (type : ℕ) → (handler : Option Handler) → List (Option Handler) → ℕ × List (Option Handler)
fmr_register type none table = (lf_error, table)
fmr_register type (some h) table =
    if leb fmr_class_count type then (lf_error, table) else (lf_success, set table type (some h))

-- fmr_init: the six built-in dispatchers at their classes
unfoldable pub fmr_init : List (Option Handler) → List (Option Handler)
unfolding fmr_register
fmr_init table =
    (fmr_register 5 (some free)
      (fmr_register 4 (some malloc)
        (fmr_register 3 (some dyld)
          (fmr_register 2 (some pull)
            (fmr_register 1 (some push) (fmr_register 0 (some rpc) table).1).1).1).1).1).1

-- a number of `n` bytes in the packet at hand
unfoldable pub field : {E : Type 0} → (offset n : ℕ) → Cmd E ℕ
field offset n d = continue (access (peek d.packet offset n) d) λ bs. pure (of_le bs)

-- sizeof(struct _lf_arg)
abbrev pub arg_size : ℕ
arg_size = 9

-- `memcpy(&arg->value, argv, size)` into fresh memory: the bytes above stay as they are
abbrev pub value_of : List ℕ → ℕ → List ℕ → ℕ
value_of bs size garbage = of_le (bs ++ drop size garbage)

-- an argument that fmr_rpc has allocated: the addresses of the argument and of its node
pub record Held : Type 0 where
  pub arg_at : ℕ
  pub node_at : ℕ
  pub arg : Arg

abbrev pub args_of : List Held → List Arg
args_of [] = []
args_of (h ∷ hs) = h.arg ∷ args_of hs

module _ {E : Type 0} (p : Platform E) where
  -- lf_ll_release of the arguments, whose deconstructor is `free`
  unfoldable pub release_args : List Held → E → E
  release_args [] e = e
  release_args (h ∷ hs) e = release_args hs (p.free h.node_at (p.free h.arg_at e))

  -- The loop over the arguments that are left; none is the early return with `lf_error`.
  unfoldable pub rpc_args : (left i offset : ℕ) → List Held → Cmd E (Option (List Held))
  unfolding field release_args
  rpc_args zero i offset held = pure (some held)
  rpc_args (suc left) i offset held = do
    type ← field (10 + i) 1
    at ← call (p.malloc arg_size)
    if at == 0
        then (do raise (lf_error_set e_null); call (λ e. (tt, release_args held e)); pure none)
        else (do
          garbage ← call (λ e. (p.garbage e, e))
          bs ← (λ d. access (peek d.packet offset (lf_sizeof type)) d)
          node ← call (p.malloc node_size)
          let arg : Arg = record { type = type; value = value_of bs (lf_sizeof type) garbage }
          if node == 0
              then (do call (λ e. (tt, release_args held (p.free at e))); pure none)
              else rpc_args left (i + 1) (offset + lf_sizeof type)
                  (held ++ (record { arg_at = at; node_at = node; arg = arg }) ∷ []))

  -- lf_ll_item, which raises E_NULL past the end of the list
  unfoldable pub module_item : (index : ℕ) → Cmd E (Option (Module E))
  module_item index d = elim (get_elem? d.modules index) [
    | some m ↦ done (some m) d
    | none ↦ done none (record d { err = e_null })
  ]

  -- `*retval = module->table[call->function](args); lf_ll_release(&args);`
  unfoldable pub invoke : Module E → (function : ℕ) → List Held → Cmd E ℕ
  unfolding release_args
  invoke m function held d = continue (access (get_elem? m.table function) d) λ f d.
      let r = f (args_of held) d.env d.err in
      done r.0 (record d { env = release_args held r.1; err = r.2 })

  unfoldable pub fmr_rpc : Cmd E (ℕ × ℕ)
  unfolding field rpc_args module_item invoke
  fmr_rpc = do
    index ← field 6 1
    function ← field 7 1
    found ← module_item index
    elim found [
      | none ↦ pure (lf_error, 0)
      | some m ↦ if leb m.length function then pure (lf_error, 0) else (do
        argc ← field 9 1
        held ← rpc_args argc 0 26 []
        elim held [
          | none ↦ pure (lf_error, 0)
          | some hs ↦ do ret ← invoke m function hs; pure (lf_success, ret)
        ])
    ]

  -- the module whose state a push or a pull is for, without an error past the end
  abbrev pub state_of : (index : ℕ) → Device E → Option (List ℕ)
  state_of index d = elim (get_elem? d.modules index) [ none ↦ none | some m ↦ m.state ]

  abbrev pub set_state : (index : ℕ) → List ℕ → Cmd E (Unit {0})
  set_state index bs d = elim (get_elem? d.modules index) [
    | none ↦ fault
    | some m ↦ done tt (record d { modules = set d.modules index (record m { state = some bs }) })
  ]

  unfoldable pub fmr_push : Cmd E (ℕ × ℕ)
  unfolding field
  fmr_push = do
    index ← field 64 1
    offset ← field 65 1
    length ← field 66 1
    state ← (λ d. done (state_of index d) d)
    elim state [
      | none ↦ pure (lf_error, 0)
      | some mem ↦ do
        bs ← (λ d. access (peek d.packet 67 length) d)
        mem' ← access (poke mem offset bs)
        set_state index mem'
        pure (lf_success, 0)
    ]

  unfoldable pub fmr_pull : Cmd E (ℕ × ℕ)
  unfolding field
  fmr_pull = do
    index ← field 64 1
    offset ← field 65 1
    length ← field 66 1
    state ← (λ d. done (state_of index d) d)
    elim state [
      | none ↦ pure (lf_error, 0)
      | some mem ↦ do
        bs ← access (peek mem offset length)
        e ← call (p.write bs)
        pure (e, if e == lf_success then 0 else 2 ^ 64 - 1)
    ]

  unfoldable pub fmr_dyld : Cmd E (ℕ × ℕ)
  unfolding lf_module_get_by_name
  fmr_dyld = do
    name ← (λ d. access (c_string (drop 64 d.packet)) d)
    found ← lf_module_get_by_name true (some name)
    elim found [ none ↦ pure (lf_error, 0) | some m ↦ pure (lf_success, m.idx) ]

  unfoldable pub fmr_malloc : Cmd E (ℕ × ℕ)
  unfolding field
  fmr_malloc = do
    len ← field 64 8
    ptr ← call (p.malloc len)
    if ptr == 0 then pure (lf_error, 0) else pure (lf_success, ptr)

  unfoldable pub fmr_free : Cmd E (ℕ × ℕ)
  unfolding field
  fmr_free = do ptr ← field 64 8; call (λ e. (tt, p.free ptr e)); pure (lf_success, 0)

  -- what the code of plugins does is a parameter
  module _ (plugins : ℕ → Cmd E (ℕ × ℕ)) where
    unfoldable pub dispatch : Handler → Cmd E (ℕ × ℕ)
    unfolding fmr_rpc fmr_push fmr_pull fmr_dyld fmr_malloc fmr_free
    dispatch rpc = fmr_rpc
    dispatch push = fmr_push
    dispatch pull = fmr_pull
    dispatch dyld = fmr_dyld
    dispatch malloc = fmr_malloc
    dispatch free = fmr_free
    dispatch (plugin n) = plugins n

    -- `send_result`: the nine bytes of struct _fmr_result; a NULL device faults
    unfoldable pub send_result : (dev : Bool) → (value error : ℕ) → Cmd E ℕ
    send_result false value error d = fault
    send_result true value error d = call (p.write (to_le 8 value ++ to_le 1 error)) d

    -- `fail`: the error register is what is sent
    unfoldable pub fail : (dev : Bool) → (value : ℕ) → Cmd E ℕ
    unfolding send_result
    fail dev value d = send_result dev value d.err d

    -- the part behind the checksum: the class, the device and the handler are there, and it runs
    unfoldable pub perform_class : (dev : Bool) → (type : ℕ) → Cmd E ℕ
    unfolding send_result fail dispatch
    perform_class dev type d =
        if not (ltb type fmr_class_count)
        then (do raise e_fmr; fail dev 0) d
        else (if not dev || (length d.modules == 0)
            then send_result dev 0 e_null d
            else elim (get_elem? d.registry type) [
              | none ↦ fault
              | some none ↦ send_result dev 0 e_fmr d
              | some (some h) ↦
                  continue (dispatch h (record d { current = true }))
                    λ (e, retval) d'. fail dev retval (record d' { current = false })
            ])

    unfoldable pub fmr_perform : (dev : Bool) → Cmd E ℕ
    unfolding field fail perform_class
    fmr_perform dev = do
      magic ← field 0 1
      if not (magic == fmr_magic_number) then (do raise e_checksum; fail dev 0) else (do
        sent ← field 1 2
        cleared ← (λ d. access (poke d.packet 1 (to_le 2 0)) d)
        (λ d. done tt (record d { packet = cleared }))
        len ← field 3 2
        crc ← (λ d. access (lf_crc d.packet len) d)
        if not (sent == crc)
            then (do raise (lf_error_set e_checksum); fail dev 0)
            else (do raise (lf_error_set e_ok); type ← field 5 1; perform_class dev type))
