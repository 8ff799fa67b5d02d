-- ===== src/Dac/Configure.antt =====
-- platforms/atsam4s/api/dac.c: the wait for the clock in dac_configure.
use flipper.Prelude.{
  ℕ, ◌+◌, ◌-◌, ◌%◌, ◌^◌, ◌≤◌, ◌<◌, ◌≡◌, refl, List, [], ◌∷◌, ◌++◌, some, Bool, true, false, length,
  arith, ◌==◌, Bool-cases, inl, inr,
}
use flipper.Prelude.Outcome.{done}
use flipper.Error.{lf_success}
use flipper.Dac.{
  Dac, lock_loop, ready_loop, set_up, dac_configure, pmc_enable_pllack, pmc_switch_mck_to_pllack,
}

ready_loop-ends :
    (t : ℕ) (answers : List Bool)
    → 0 < t
    → t < 2 ^ 32
    → t ≤ length answers
    → (rest : List Bool) × (ready_loop t answers ≡ some (true, rest))
unfolding ready_loop
ready_loop-ends t [] pos small enough = absurd (omega arith)
ready_loop-ends t (true ∷ answers) pos small enough = (answers, refl)
ready_loop-ends t (false ∷ answers) pos small enough =
    let t' = (t + (2 ^ 32 - 1)) % 2 ^ 32 in
    let less : t' + 1 ≡ t = omega arith in
    elim (Bool-cases (t' == 0)) [
      | inl over ↦ (answers, rw (over) refl)
      | inr on ↦
          let pos' : 0 < t' = ground arith in
          let (rest, run) = ready_loop-ends t' answers pos' (omega arith) (omega arith) in
          (rest, rw (on) run)
    ]

-- When the phase locked loop locks, and the bit of the clock answers at least as often as the timeout, which is positive and
-- below 2 ^ 32, then dac_configure ends and sets up the converter with success, whether the clock ever becomes
-- ready or not.
pub dac_configure-success :
    (timeout : ℕ) (d : Dac) (left : List Bool)
    → lock_loop d.locked ≡ some left
    → 0 < timeout
    → timeout < 2 ^ 32
    → timeout ≤ length d.ready
    → (rest : List Bool) × (dac_configure timeout d
        ≡ done lf_success (record {
          locked = left;
          ready = rest;
          calls = (d.calls ++ pmc_enable_pllack 20 32 1 ∷ pmc_switch_mck_to_pllack ∷ []) ++ set_up;
        }))
unfolding dac_configure
dac_configure-success timeout d left locks pos small enough =
    let (rest, run) = ready_loop-ends timeout d.ready pos small enough in
    (rest, rw (locks, run, dac_configure) refl)
