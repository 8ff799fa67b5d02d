-- ===== src/Chip/Start.antt =====
-- platforms/atsam4s/src/main.c: main up to the first message, and its interrupt.
use flipper.Prelude.{
  ℕ, ◌^◌, ◌≤◌, ◌<◌, ◌≡◌, List, ◌++◌, Option, some, Bool, true, false, length, drop, ◌==◌,
}
use flipper.Prelude.Outcome.{done}
use flipper.Device.{Module, Device, Cmd}
use flipper.Dac.{Dac, lock_loop}
use flipper.Chip.{Line, main}
use flipper.Chip.Interrupt.{chip}

-- The phase locked loop of the converter locks, and the bit of its clock answers at least as often as the timeout, which is
-- positive and below 2 ^ 32.
abbrev pub Locks : (timeout : ℕ) → Dac → Type 0
Locks timeout c =
    (left : List Bool) × (lock_loop c.locked ≡ some left)
    × (0 < timeout)
    × (timeout < 2 ^ 32)
    × (timeout ≤ length c.ready)

module _ (malloc : ℕ → Line → ℕ × Line) (free : ℕ → Line → Line) (garbage : Line → List ℕ)
    (read : ℕ → Line → ℕ × List ℕ × Line) (plugins : ℕ → Cmd Line (ℕ × ℕ)) where
  -- What main leaves behind: the packet that has arrived, one module, and the dispatchers as they were.
  record Ready (timeout size : ℕ) (dac_module : Module Line) (selected : Bool) (d : Device Line)
      (next : List ℕ) (rest : List (Option ℕ)) : Type 0 where
    d' : Device Line
    run :
        main (chip malloc free garbage read plugins) timeout size dac_module selected d
        ≡ done true d'
    modules : (length d'.modules == 0) ≡ false
    registry : d'.registry ≡ d.registry
    packet : d'.packet ≡ next ++ drop 64 d.packet
    receiver : d'.env.receiver ≡ rest
