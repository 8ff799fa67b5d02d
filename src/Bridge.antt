-- ===== src/Bridge.antt =====
-- platforms/atmegau2/src/main.c: the program of the usb bridge, which performs the messages that arrive in bulk. Registers,
-- the pins and the colour of the led are left out.
pub mod Turn
mod Runs
use flipper.Prelude.{ℕ, List, ◌++◌, Bool, true, false, if◌then◌else◌, length, drop, ◌==◌, suc, zero}
use flipper.Prelude.Outcome.{Outcome, done, fault, spent, pure, ◌>>=◌, ◌>>◌}
use flipper.Error.{lf_success, lf_error}
use flipper.Device.{Device, Platform, Cmd}
use flipper.Device.Create.{lf_device_create}
use flipper.Fmr.{fmr_packet_size, fmr_perform}
use flipper.Bulk.{Controller, megausb_bulk_receive, megausb_bulk_transmit}

-- A transmission that no turn of its loop ends is taken as one that its timeout ends.
abbrev pub transmitted : Controller → Outcome Controller ℕ → ℕ × Controller
transmitted c (done e c') = (e, c')
transmitted c fault = (lf_error, c)
transmitted c spent = (lf_error, c)

-- atmegau2_write and the memory; the message runtime does not read from the device
abbrev pub platform :
    (malloc : ℕ → Controller → ℕ × Controller)
    → (free : ℕ → Controller → Controller) → (garbage : Controller → List ℕ)
    → (read : ℕ → Controller → ℕ × List ℕ × Controller) → Platform Controller
platform malloc free garbage read = record {
  write = λ bs c. transmitted c (megausb_bulk_transmit bs c);
  read = read;
  malloc = malloc;
  free = free;
  garbage = garbage;
}

abbrev pub behind :
    {A : Type 0} → Outcome Controller A → Device Controller → Outcome (Device Controller) A
behind (done a c) d = done a (record d { env = c })
behind fault d = fault
behind spent d = spent

module _ (p : Platform Controller) (plugins : ℕ → Cmd Controller (ℕ × ℕ)) where
  -- A turn of `while (1)`. The bytes that have arrived stand at the start of the packet, and behind them what was there;
  -- `dev` says whether `_u2` is not NULL.
  unfoldable pub turn : (dev : Bool) → Cmd Controller (Unit {0})
  unfolding fmr_perform megausb_bulk_receive
  turn dev = do
    r ← (λ d. behind (megausb_bulk_receive fmr_packet_size d.env) d)
    (λ d. done tt (record d { packet = r.1 ++ drop (length r.1) d.packet }))
    if r.0 == lf_success then (do fmr_perform p plugins dev; pure tt) else pure tt

  unfoldable pub loop : (turns : ℕ) → (dev : Bool) → Cmd Controller (Unit {0})
  unfolding turn
  loop zero dev = pure tt
  loop (suc turns) dev = do turn dev; loop turns dev
