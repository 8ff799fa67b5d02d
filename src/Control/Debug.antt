-- ===== src/Control/Debug.antt =====
-- platforms/atmegau2/src/debug.c, and of control.c the set up and the handler for the other interrupts of the bus.
use flipper.Prelude.{
  ℕ, ◌-◌, List, [], ◌∷◌, ◌++◌, Option, none, some, Bool, true, false, ◌||◌, if◌then◌else◌, ◌==◌,
}
use flipper.Prelude.Outcome.{done, spent, pure, ◌>>◌}
use flipper.Error.{lf_success}
use flipper.Bulk.{Poll, ready, timed_out, unconfigured, waiting}
use flipper.Control.{
  Action, select, enable, enable_setup, shape, flush, put, freeze_clock, start_pll,
  enable_controller, attach_device, enable_events, Cmd, emit, debug_in_endpoint,
}

-- `while (!(PLLCSR & (1 << PLOCK)));`: whether the answers of the bit have one that ends the loop
unfoldable pub pll_locks : List Bool → Bool
pll_locks [] = false
pll_locks (true ∷ as') = true
pll_locks (false ∷ as') = pll_locks as'

-- `plock` is the answers of PLOCK.
unfoldable pub usb_configure : (plock : List Bool) → Cmd ℕ
unfolding pll_locks
usb_configure plock u =
    if pll_locks plock
    then (do
      emit (freeze_clock ∷ start_pll ∷ enable_controller ∷ attach_device ∷ [])
      (λ u. done tt (record u { megausb_configuration = 0 }))
      emit (enable_events ∷ [])
      pure lf_success)
        u
    else spent

-- the loop that fills the debug endpoint with zeros while RWAL is set
unfoldable pub fill_debug : List Bool → Option (List Action × List Bool)
fill_debug [] = none
fill_debug (false ∷ room) = some ([], room)
fill_debug (true ∷ room) = elim (fill_debug room) [
  | none ↦ none
  | some (as', left) ↦ some (put 0 ∷ as', left)
]

unfoldable pub flush_debug : Cmd (Unit {0})
unfolding fill_debug
flush_debug u = elim (fill_debug u.room) [
  | none ↦ spent
  | some (as', left) ↦ done tt (record u {
    actions = u.actions ++ (select debug_in_endpoint ∷ as') ++ (flush ∷ []);
    room = left;
  })
]

-- an end of reset
unfoldable pub end_of_reset : Cmd (Unit {0})
end_of_reset = do
  emit (select 0 ∷ enable 1 ∷ shape 0 18 ∷ enable_setup ∷ [])
  (λ u. done tt (record u { megausb_configuration = 0 }))

-- a start of frame
unfoldable pub start_of_frame : Cmd (Unit {0})
unfolding flush_debug
start_of_frame u =
    if (u.megausb_configuration == 0) || (u.debug_flush_timer == 0)
    then done tt u
    else (do
      (λ u. done tt (record u { debug_flush_timer = u.debug_flush_timer - 1 }))
      (λ u. if u.debug_flush_timer == 0 then flush_debug u else done tt u))
        u

unfoldable pub usb_gen : (eorsti sofi : Bool) → Cmd (Unit {0})
unfolding end_of_reset start_of_frame
usb_gen eorsti sofi = do
  if eorsti then end_of_reset else pure tt
  if sofi then start_of_frame else pure tt

-- The write of a character, with what RWAL answers behind it.
unfoldable pub write_character : (c : ℕ) → Cmd ℕ
write_character c u = elim u.room [
  | [] ↦ spent
  | rwal ∷ left ↦ done 0 (
      if rwal
      then record u { actions = u.actions ++ put c ∷ []; room = left; debug_flush_timer = 2 }
      else record u {
        actions = u.actions ++ put c ∷ flush ∷ [];
        room = left;
        debug_flush_timer = 0;
      })
]

-- The waiting loop; the result 1 stands for -1.
unfoldable pub debug_loop : List Poll → (c : ℕ) → Cmd ℕ
unfolding write_character
debug_loop [] c = λ u. spent
debug_loop (ready ∷ turns) c = λ u. write_character c (record u { turns = turns })
debug_loop (timed_out ∷ turns) c = λ u. done 1 (record u { turns = turns; previous_timeout = true })
debug_loop (unconfigured ∷ turns) c = λ u. done 1 (record u { turns = turns })
debug_loop (waiting ∷ turns) c = do emit (select debug_in_endpoint ∷ []); debug_loop turns c

unfoldable pub usb_debug_putchar : (c : ℕ) → Cmd ℕ
unfolding debug_loop
usb_debug_putchar c u =
    if u.megausb_configuration == 0
    then done 1 u
    else (do
      emit (select debug_in_endpoint ∷ [])
      (λ u.
          if u.previous_timeout
          then elim u.room [
            | [] ↦ spent
            | false ∷ room ↦ done 1 (record u { room = room })
            | true ∷ room ↦
                debug_loop u.turns c (record u { room = room; previous_timeout = false })
          ]
          else debug_loop u.turns c u))
        u

unfoldable pub usb_debug_flush_output : Cmd (Unit {0})
unfolding flush_debug
usb_debug_flush_output u =
    if u.debug_flush_timer == 0
    then done tt u
    else (do flush_debug; (λ u. done tt (record u { debug_flush_timer = 0 }))) u
