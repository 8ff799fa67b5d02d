-- ===== src/Fmr/Runs.antt =====
-- Tests of lib/fmr.c on concrete inputs.
use flipper.Prelude.{ℕ, ◌≡◌, refl, List, [], ◌∷◌, ◌++◌, none, true, replicate, arith}
use flipper.Prelude.Bytes.{peek, to_le}
use flipper.Prelude.Outcome.{done, fault}
use flipper.Error.{e_checksum}
use flipper.Device.{Device, Cmd}
use flipper.Device.Sample.{Env, platform, add, led, handlers, board, pair}
use flipper.Fmr.{lf_sizeof, fmr_register, fmr_init, fmr_perform}
use flipper.Fmr.Beyond.{fmr_perform-outside}
use flipper.Fmr.Args.{Holds, Allocates}
use flipper.Fmr.Checksum.{message, crc_of, perform_rejects, replied}
use flipper.Fmr.Rpc.{Called, after, returned, dispatched, Answered, fmr_perform-Called}

-- fmr_init fills the table
initialised : fmr_init (replicate 6 none) ≡ handlers
unfolding fmr_init fmr_register
initialised = refl

abbrev no_plugins : ℕ → Cmd Env (ℕ × ℕ)
no_plugins n d = done (0, 0) d

allocates : Allocates platform
allocates size e = ground arith

-- the arrays of a call with the arguments of `pair`
abbrev tail : List ℕ
tail = 17 ∷ 16 ∷ replicate 14 0 ++ 44 ∷ 1 ∷ 7 ∷ []

abbrev call_of : (index function : ℕ) → List ℕ
call_of index function = index ∷ function ∷ 4 ∷ 2 ∷ tail

abbrev called : (index function : ℕ) → Device Env
called index function =
    board (message (crc_of 0 (call_of index function)) 0 (call_of index function) ++ 5 ∷ [])

pair_held : Holds (message 0 0 (call_of 0 0) ++ 5 ∷ []) 0 26 pair
unfolding peek to_le lf_sizeof
pair_held = (omega arith, refl, refl, (omega arith, refl, refl, tt))

fmr_perform-Called_example :
    (c : Called platform no_plugins add pair
      (dispatched platform no_plugins (called 0 0) (call_of 0 0) (5 ∷ [])))
    × Answered platform no_plugins
        (called 0 0)
        (returned platform no_plugins add pair
          (dispatched platform no_plugins (called 0 0) (call_of 0 0) (5 ∷ []))
          c)
        (after platform no_plugins add pair
          (dispatched platform no_plugins (called 0 0) (call_of 0 0) (5 ∷ []))
          c)
fmr_perform-Called_example =
    fmr_perform-Called platform no_plugins (called 0 0) led add pair 0 0 4 tail (5 ∷ []) allocates
      (refl, omega arith) refl refl (omega arith) refl pair_held

-- a message whose byte 2 behind the class is 8 where 4 was sent
abbrev damaged : Device Env
damaged = board (message (crc_of 0 (0 ∷ 0 ∷ 4 ∷ 0 ∷ [])) 0 (0 ∷ 0 ∷ 8 ∷ 0 ∷ []) ++ 5 ∷ [])

perform_rejects_example :
    let z : Device Env = record damaged {
      packet = message 0 0 (0 ∷ 0 ∷ 8 ∷ 0 ∷ []) ++ 5 ∷ [];
      err = e_checksum;
    } in
    fmr_perform platform no_plugins true damaged
    ≡ done
        (replied platform no_plugins z 0 e_checksum).0
        (replied platform no_plugins z 0 e_checksum).1
perform_rejects_example =
    perform_rejects platform no_plugins damaged 0 (0 ∷ 0 ∷ []) (0 ∷ []) (5 ∷ []) 4 8 refl
      (omega arith, tt) (omega arith) (omega arith) (λ e. omega arith) (omega arith) (omega arith)

-- a push to the first module, as a client would write it
abbrev push_call : List ℕ
push_call = 0 ∷ 1 ∷ 1 ∷ 9 ∷ []

fmr_perform-outside_example :
    fmr_perform platform no_plugins true
      (board (message (crc_of 1 push_call) 1 push_call ++ replicate 54 0))
    ≡ fault
unfolding fmr_init fmr_register to_le
fmr_perform-outside_example =
    fmr_perform-outside platform no_plugins
      (board (message (crc_of 1 push_call) 1 push_call ++ replicate 54 0)) 1 push_call
      (replicate 54 0) refl refl (omega arith) (omega arith) refl refl
