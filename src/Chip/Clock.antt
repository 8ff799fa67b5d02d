-- ===== src/Chip/Clock.antt =====
-- platforms/atsam4s/src/main.c: the waits for the clock.
use flipper.Prelude.{
  ℕ, zero, suc, ◌+◌, ◌*◌, ◌≤◌, ◌≡◌, refl, ◌∙◌, List, [], ◌∷◌, ◌++◌, none, some, ap, Bool, true,
  false, length, arith, append_assoc, if◌then◌else◌,
}
use flipper.Prelude.Outcome.{done, spent, ◌>>◌}
use flipper.Chip.{
  Line, Step, disable_watchdog, wait_states, main_oscillator, select_oscillator, main_clock, pllb,
  switch_to_main, board_clock, reset_pin, clock_wait, wait, timed, step, set_up,
}

-- A wait takes no more answers than its turns and one more.
clock_wait-ends :
    (left : ℕ) (answers : List Bool)
    → left + 1 ≤ length answers
    → (rest : List Bool) × (clock_wait left answers ≡ some rest)
      × (length answers ≤ length rest + (left + 1))
unfolding clock_wait
clock_wait-ends left [] enough = absurd (omega arith)
clock_wait-ends left (true ∷ as') enough = (as', refl, omega arith)
clock_wait-ends zero (false ∷ as') enough = (as', refl, omega arith)
clock_wait-ends (suc left) (false ∷ as') enough =
    let (rest, run, few) = clock_wait-ends left as' (omega arith) in (rest, run, omega arith)

-- The line behind a step with its wait.
abbrev ticked : Line → Step → List Bool → Line
ticked l x rest = record l { clock = rest; steps = l.steps ++ x ∷ [] }

timed-ends :
    (waits : ℕ) (l : Line) (x : Step)
    → (suc waits) * 5001 ≤ length l.clock
    → (rest : List Bool) × (timed x l ≡ done tt (ticked l x rest)) × (waits * 5001 ≤ length rest)
unfolding timed wait
timed-ends waits l x enough =
    let (rest, run, few) = clock_wait-ends 5000 l.clock (omega arith) in
    (rest, ap (λ r. elim r [ none ↦ spent | some as' ↦ done tt (ticked l x as') ]) run, omega arith)

-- the steps of the set up, in order
abbrev pub steps_of : (selected : Bool) → List Step
steps_of selected =
    disable_watchdog
    ∷ wait_states
    ∷ ((if selected then [] else main_oscillator ∷ [])
        ++ select_oscillator ∷ main_clock ∷ pllb ∷ switch_to_main ∷ board_clock ∷ reset_pin ∷ [])

-- the set up behind the main oscillator
rest_of-ends :
    (l : Line)
    → 5 * 5001 ≤ length l.clock
    → (rest : List Bool) × ((do
      timed select_oscillator
      timed main_clock
      timed pllb
      timed switch_to_main
      timed board_clock
      step reset_pin)
          l
        ≡ done tt (record l {
          clock = rest;
          steps =
              l.steps
              ++ select_oscillator ∷ main_clock ∷ pllb ∷ switch_to_main ∷ board_clock ∷ reset_pin
                ∷ [];
        }))
rest_of-ends l enough =
    let (c1, run1, e1) = timed-ends 4 l select_oscillator enough in
    let l1 = ticked l select_oscillator c1 in
    let (c2, run2, e2) = timed-ends 3 l1 main_clock e1 in
    let l2 = ticked l1 main_clock c2 in
    let (c3, run3, e3) = timed-ends 2 l2 pllb e2 in
    let l3 = ticked l2 pllb c3 in
    let (c4, run4, e4) = timed-ends 1 l3 switch_to_main e3 in
    let l4 = ticked l3 switch_to_main c4 in
    let (c5, run5, e5) = timed-ends 0 l4 board_clock e4 in
    (
      c5,
      rw (run1, run2, run3, run4, run5)
          (ap (λ ss. done tt (record l { clock = c5; steps = ss })) (simp append_assoc)),
    )

-- With 5001 answers of its bits for each of the six waits, the set up of the clocks ends with every step taken in
-- order, whatever the answers are.
pub set_up-ends :
    (selected : Bool) (l : Line)
    → 6 * 5001 ≤ length l.clock
    → (rest : List Bool) × (set_up selected l
        ≡ done tt (record l { clock = rest; steps = l.steps ++ steps_of selected }))
unfolding set_up
set_up-ends true l enough =
    let l0 : Line = record l { steps = (l.steps ++ disable_watchdog ∷ []) ++ wait_states ∷ [] } in
    let (rest, run) = rest_of-ends l0 (omega arith) in
    (rest, run ∙ ap (λ ss. done tt (record l { clock = rest; steps = ss })) (simp append_assoc))
set_up-ends false l enough =
    let l0 : Line = record l { steps = (l.steps ++ disable_watchdog ∷ []) ++ wait_states ∷ [] } in
    let (c1, run1, e1) = timed-ends 5 l0 main_oscillator enough in
    let (rest, run) = rest_of-ends (ticked l0 main_oscillator c1) e1 in
    (
      rest,
      rw (run1)
          (run ∙ ap (λ ss. done tt (record l { clock = rest; steps = ss })) (simp append_assoc)),
    )
