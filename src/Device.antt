-- ===== src/Device.antt =====
-- lib/device.h, lib/device.c, lib/module.h, lib/module.c and the data types of lib/fmr.h: a device with
-- the modules that are registered on it, and what its code calls but does not implement. A `char` array
-- that holds a C string is the list of the bytes before its zero. A linked list of modules is the list of
-- its items; `Ll` shows that the functions of lib/ll.c act so.
pub mod Create
pub mod Sample
use flipper.Prelude.{
  ℕ, zero, suc, ◌+◌, ◌%◌, ◌^◌, List, [], ◌∷◌, Option, none, some, Bool, true, false, if◌then◌else◌,
  length, ltb, take, replicate, ◌==◌,
}
use flipper.Prelude.Outcome.{Outcome, done, fault, pure, continue, ◌>>=◌, ◌>>◌}

-- struct _lf_arg: a type code and a 64-bit value
pub record Arg : Type 0 where
  pub type : ℕ
  pub value : ℕ

-- lf_function: code of a module. It works on the environment and on `_lf_err`.
abbrev pub Function : Type 0 → Type 0
Function E = List Arg → E → ℕ → ℕ × E × ℕ

-- struct _lf_module. `state` is none for NULL, and otherwise the object that it points to.
pub record Module (E : Type 0) : Type 0 where
  pub name : List ℕ
  pub version : ℕ
  pub idx : ℕ
  pub table : List (Function E)
  pub length : ℕ
  pub state : Option (List ℕ)

-- The dispatchers that a message class can have: those of lib/fmr.c, and those of plugins.
pub data Handler : Type 0 where
  rpc push pull dyld malloc free : Handler
  plugin : ℕ → Handler

-- A device, the globals of the library that runs beside it, and the packet at hand: the bytes from
-- its start on, those that stand in memory behind its 64 bytes included.
pub record Device (E : Type 0) : Type 0 where
  pub name : List ℕ
  pub modules : List (Module E)
  pub err : ℕ
  pub registry : List (Option Handler)
  pub current : Bool
  pub packet : List ℕ
  pub env : E

-- What is called through function pointers or from the C library. Each function changes the
-- environment. `write` and `read` return a status, `read` also the content of the buffer; `malloc`
-- returns an address, 0 where memory is exhausted; `garbage` is what eight allocated bytes hold.
pub record Platform (E : Type 0) : Type 0 where
  pub write : List ℕ → E → ℕ × E
  pub read : ℕ → E → ℕ × List ℕ × E
  pub malloc : ℕ → E → ℕ × E
  pub free : ℕ → E → E
  pub garbage : E → List ℕ

abbrev pub Cmd : Type 0 → Type 0 → Type 0
Cmd E A = Device E → Outcome (Device E) A

module _ {E : Type 0} where
  -- `_lf_assert`, and other writes to `_lf_err`
  abbrev pub raise : ℕ → Cmd E (Unit {0})
  raise e d = done tt (record d { err = e })

module _ {E : Type 0} {A : Type 0} where
  -- a call of the environment
  abbrev pub call : (E → A × E) → Cmd E A
  call f d = done (f d.env).0 (record d { env = (f d.env).1 })

  -- an access to memory, which faults outside of the object
  abbrev pub access : Option A → Cmd E A
  access none d = fault
  access (some a) d = done a d

-- LF_MODULE_NAME_MAX, and the size of the name of a device
abbrev pub name_max : ℕ
name_max = 32

-- UINT16_MAX as an index asks for the next free index
abbrev pub no_index : ℕ
no_index = 65535

-- "fvm"
abbrev pub fvm_name : List ℕ
fvm_name = b'f' ∷ b'v' ∷ b'm' ∷ []
