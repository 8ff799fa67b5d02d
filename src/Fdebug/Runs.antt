-- ===== src/Fdebug/Runs.antt =====
-- Tests of utils/fdebug/src/main.c on concrete inputs.
use flipper.Prelude.{ℕ, ◌+◌, ◌≤◌, ◌≡◌, refl, List, [], ◌∷◌, ◌++◌, none, some, true, false, length}
use flipper.Fdebug.{
  Thread, usb, network, Event, quiet, bytes, received, printing, title, char, Console, usb_event,
  network_event, move, act, run, started,
}
use flipper.Fdebug.Moves.{is, holds, IsAttributed}
use flipper.Fdebug.Blocks.{run-IsAttributed}
use flipper.Fdebug.Bytes.{pending, said, local, heard_in, run-heard_in}
use flipper.Fdebug.Release.{quietly, quietly-serves}

-- a timeout drops the byte that came with it
events :
    (usb_event true (some (7 ∷ [])) ≡ some quiet)
    × (usb_event false (some (104 ∷ 105 ∷ [])) ≡ some (bytes (104 ∷ 105 ∷ [])))
    × (usb_event false none ≡ none)
events = (refl, refl, refl)

-- Both threads read; the device gets the mutex and prints one of its two bytes.
abbrev actions : List (Thread × Event)
actions =
    (usb, bytes (104 ∷ 105 ∷ []))
    ∷ (network, network_event (some (33 ∷ [])))
    ∷ (usb, quiet)
    ∷ (network, quiet)
    ∷ (usb, quiet)
    ∷ (usb, quiet)
    ∷ (usb, quiet)
    ∷ []

ran : run actions started ≡ record {
  lock = some usb;
  on_usb = record { timeout = 5; place = printing (105 ∷ []) };
  on_network = record { timeout = 0; place = received (bytes (33 ∷ [])) };
  out = title usb ∷ char usb 104 ∷ [];
}
unfolding run act move
ran = refl

run-IsAttributed_example :
    let c : Console = run actions started in
    (holds c.on_usb ≡ true → holds c.on_network ≡ false) × IsAttributed none c.out
run-IsAttributed_example = run-IsAttributed actions

run-heard_in_example :
    said usb (run actions started).out ++ pending (local usb (run actions started))
    ≡ heard_in usb actions started
run-heard_in_example = run-heard_in usb actions

quietly-serves_example :
    let c : Console = run actions started in
    (n : ℕ) × (n ≤ length (pending (local usb c)) + 6)
    × (is network (act network quiet (quietly n usb c)).lock ≡ true)
unfolding run act move
quietly-serves_example = quietly-serves usb actions (bytes (33 ∷ [])) refl refl

-- When the peer has closed the connection, recv returns 0 at once, and each turn prints a title.
closed :
    (run
      ((network, network_event (some []))
        ∷ (network, quiet)
        ∷ (network, quiet)
        ∷ (network, quiet)
        ∷ (network, network_event (some []))
        ∷ (network, quiet)
        ∷ (network, quiet)
        ∷ [])
      started).out
    ≡ title network ∷ title network ∷ []
unfolding run act move
closed = refl
