-- ===== src/Device/Sample.antt =====
-- A platform and a module for tests of lib: addresses are given out in order, and what is written is kept.
use flipper.Prelude.{ℕ, suc, ◌+◌, ◌%◌, List, [], ◌∷◌, ◌++◌, Option, some, replicate, false}
use flipper.Device.{
  Arg, Function, Module, Handler, rpc, push, pull, dyld, malloc, free, Device, Platform,
}

-- the last address, and the messages that were written
abbrev pub Env : Type 0
Env = ℕ × List (List ℕ)

abbrev pub platform : Platform Env
platform = record {
  write = λ bs e. (0, (e.0, e.1 ++ bs ∷ []));
  read = λ n e. (0, replicate n 0, e);
  malloc = λ n e. (suc e.0, (suc e.0, e.1));
  free = λ a e. e;
  garbage = λ e. replicate 8 170;
}

abbrev pub arg : (type value : ℕ) → Arg
arg type value = record { type = type; value = value }

abbrev pub sum : List Arg → ℕ
sum [] = 0
sum (a ∷ as') = a.value % 65536 + sum as'

-- the function of the module: the sum of its arguments
abbrev pub add : Function Env
add as' e err = (sum as', e, err)

abbrev pub led : Module Env
led = record {
  name = b'l' ∷ b'e' ∷ b'd' ∷ [];
  version = 1;
  idx = 0;
  table = add ∷ [];
  length = 1;
  state = some (1 ∷ 2 ∷ 3 ∷ 4 ∷ []);
}

abbrev pub handlers : List (Option Handler)
handlers = some rpc ∷ some push ∷ some pull ∷ some dyld ∷ some malloc ∷ some free ∷ []

-- a device with this module, and a packet at hand
abbrev pub board : List ℕ → Device Env
board packet = record {
  name = b'f' ∷ b'v' ∷ b'm' ∷ [];
  modules = led ∷ [];
  err = 0;
  registry = handlers;
  current = false;
  packet = packet;
  env = (100, []);
}

abbrev pub pair : List Arg
pair = arg 17 300 ∷ arg 16 7 ∷ []
