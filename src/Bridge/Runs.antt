-- ===== src/Bridge/Runs.antt =====
-- Tests of platforms/atmegau2/src/main.c on concrete inputs.
use flipper.Prelude.{ℕ, ◌≡◌, refl, List, [], ◌∷◌, ◌++◌, none, true, replicate, arith}
use flipper.Prelude.Bytes.{to_le}
use flipper.Prelude.Outcome.{done, fault}
use flipper.Error.{e_ok, e_null}
use flipper.Device.{Device, Cmd}
use flipper.Fmr.Checksum.{message, crc_of}
use flipper.Bulk.{Controller, ready, waiting, wait}
use flipper.Bridge.{platform, turn, loop}
use flipper.Bridge.Turn.{turn-no_modules}

abbrev call : List ℕ
call = 0 ∷ 3 ∷ 4 ∷ replicate 17 0

abbrev bank : List ℕ
bank = message (crc_of 0 call) 0 call ++ replicate 38 0

abbrev controller : Controller
controller = record {
  configured = true;
  polls = waiting ∷ ready ∷ waiting ∷ ready ∷ [];
  banks = bank ∷ replicate 64 1 ∷ [];
  packets = [];
}

-- the bridge as its program starts, with the registry that the code does not fill
abbrev bridge : Device Controller
bridge = record {
  name = [];
  modules = [];
  err = 7;
  registry = replicate 6 none;
  current = true;
  packet = replicate 64 0;
  env = controller;
}

abbrev malloc : ℕ → Controller → ℕ × Controller
malloc size c = (0, c)

abbrev free : ℕ → Controller → Controller
free at c = c

abbrev garbage : Controller → List ℕ
garbage c = replicate 8 0

abbrev read : ℕ → Controller → ℕ × List ℕ × Controller
read size c = (0, replicate size 0, c)

abbrev no_plugins : ℕ → Cmd Controller (ℕ × ℕ)
no_plugins k d = fault

-- a program that takes no turn changes nothing
idle : loop (platform malloc free garbage read) no_plugins 0 true bridge ≡ done tt bridge
unfolding loop
idle = refl

turn-no_modules_example :
    (d' : Device Controller) × (turn (platform malloc free garbage read) no_plugins true bridge
      ≡ done tt d')
    × (d'.env.banks ≡ replicate 64 1 ∷ [])
    × (d'.env.packets ≡ (to_le 8 0 ++ to_le 1 e_null) ∷ [])
    × (d'.err ≡ e_ok)
unfolding wait to_le
turn-no_modules_example =
    turn-no_modules malloc free garbage read no_plugins bridge 0 call (replicate 38 0)
      (replicate 64 1 ∷ []) (waiting ∷ ready ∷ []) [] refl refl refl refl refl (omega arith) refl
