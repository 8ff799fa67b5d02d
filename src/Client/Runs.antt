-- ===== src/Client/Runs.antt =====
-- Tests of lib/libflipper.c on concrete inputs.
use flipper.Prelude.{ℕ, ◌≡◌, refl, List, [], ◌∷◌, ◌++◌, none, some, true, replicate, arith}
use flipper.Prelude.Bytes.{to_le, of_le, poke, bytes_eq}
use flipper.Prelude.Outcome.{done}
use flipper.Error.{e_null}
use flipper.Crc.{calcrc, lf_crc}
use flipper.Device.{Cmd}
use flipper.Device.Sample.{Env, platform, add, led, board, pair}
use flipper.Modules.{find}
use flipper.Dyld.{dyld_packet, lf_dyld_dyn_sym_lookup, dyld_module}
use flipper.Fmr.{lf_sizeof}
use flipper.Fmr.Args.{Allocates}
use flipper.Call.{total}
use flipper.Client.{
  args_loop, seal, invoke_packet, lf_invoke, ensure_module, exchange_by_index, lf_invoke_by_index,
}
use flipper.Client.RoundTrip.{Fits, IsCall, invoke_packet-IsCall}
use flipper.Client.Received.{Performs, invoke_packet-Performs}
use flipper.Client.Invoke.{lf_invoke-created_fails}

-- the packet that calls the first function of the first module with 300 and 7
abbrev packet : List ℕ
packet =
    254 ∷ 18 ∷ 142 ∷ 31 ∷ 0 ∷ 0 ∷ 0 ∷ 0 ∷ 4 ∷ 2 ∷ 17 ∷ 16 ∷ replicate 14 0
    ++ 44 ∷ 1 ∷ 7 ∷ replicate 35 0

built : invoke_packet 0 0 4 pair ≡ some packet
unfolding invoke_packet args_loop seal lf_crc calcrc poke to_le lf_sizeof
built = refl

pair-Fits : Fits pair
unfolding total lf_sizeof
pair-Fits = record {
  count = omega arith;
  room = omega arith;
  small = (omega arith, (omega arith, tt));
}

allocates : Allocates platform
allocates size e = ground arith

abbrev no_plugins : ℕ → Cmd Env (ℕ × ℕ)
no_plugins n d = done (0, 0) d

invoke_packet-IsCall_example :
    (packet : List ℕ) × (invoke_packet 0 0 4 pair ≡ some packet) × IsCall 0 0 4 pair packet
invoke_packet-IsCall_example = invoke_packet-IsCall 0 0 4 pair pair-Fits

invoke_packet-Performs_example : Performs platform no_plugins (board (packet ++ 9 ∷ [])) add pair
invoke_packet-Performs_example =
    invoke_packet-Performs platform no_plugins (board (packet ++ 9 ∷ [])) led add pair 0 0 4 packet
      (9 ∷ []) pair-Fits allocates built refl refl refl (omega arith) refl

abbrev led_name : List ℕ
led_name = b'l' ∷ b'e' ∷ b'd' ∷ []

find-led : find {E = Env} led_name (led ∷ []) ≡ some led
unfolding find bytes_eq
find-led = refl

lf_invoke-created_fails_example :
    lf_invoke platform 90 true (some led_name) 4 pair (board [])
    ≡ done none (record (board []) { err = e_null })
unfolding total lf_sizeof
lf_invoke-created_fails_example =
    lf_invoke-created_fails platform 90 4 led_name led pair (board []) find-led (omega arith)
      (omega arith)

-- the packet that asks for this module
abbrev asks : List ℕ
asks = 254 ∷ 72 ∷ 190 ∷ 10 ∷ 0 ∷ 3 ∷ 108 ∷ 101 ∷ 100 ∷ replicate 55 0

-- A call by index sends the lookup and the call, and returns the value of the second answer.
called :
    lf_invoke_by_index platform 90 true (some led_name) 0 4 pair (board [])
    ≡ done (some 0) (record (board []) { env = (100, asks ∷ packet ∷ []) })
unfolding lf_invoke_by_index ensure_module lf_dyld_dyn_sym_lookup dyld_module find dyld_packet
    invoke_packet args_loop seal lf_crc calcrc exchange_by_index poke to_le of_le bytes_eq lf_sizeof
called = refl
