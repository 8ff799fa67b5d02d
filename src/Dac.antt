-- ===== src/Dac.antt =====
-- platforms/atsam4s/api/dac.c and dac_wrapper.c: the converter of the main chip and the table of its functions.
-- The vendored library is the list of the calls that the code makes of it, and the answers of the two bits of the clock
-- that it waits for.
pub mod Configure
pub mod Module
mod Runs
use flipper.Prelude.{
  ℕ, ◌+◌, ◌-◌, ◌*◌, ◌%◌, ◌^◌, List, [], ◌∷◌, ◌++◌, Option, none, some, Bool, true, false,
  if◌then◌else◌, ltb, ◌==◌,
}
use flipper.Prelude.Outcome.{Outcome, done, fault, spent, pure, ◌>>=◌, ◌>>◌}
use flipper.Error.{lf_success, lf_error}

-- The calls of the vendored library with the arguments that are numbers.
pub data Call : Type 0 where
  pmc_enable_pllack : (mul count div : ℕ) → Call
  pmc_switch_mck_to_pllack pmc_enable_periph_clk pmc_disable_periph_clk : Call
  dacc_reset dacc_enable_flexible_selection dacc_set_timing dacc_set_transfer_mode : Call
  dacc_enable_interrupt dacc_disable_interrupt dacc_disable_trigger : Call
  nvic_enable nvic_disable : Call
  dacc_set_trigger dacc_enable_channel dacc_disable_channel dacc_set_channel_selection : ℕ → Call
  dacc_write_conversion_data : ℕ → Call

-- The answers of pmc_is_locked_pllack and of PMC_SR_MCKRDY, and the calls.
pub record Dac : Type 0 where
  pub locked : List Bool
  pub ready : List Bool
  pub calls : List Call

abbrev pub Cmd : Type 0 → Type 0
Cmd A = Dac → Outcome Dac A

abbrev pub note : List Call → Cmd (Unit {0})
note cs d = done tt (record d { calls = d.calls ++ cs })

-- DACC_MAX_DATA
abbrev pub max_data : ℕ
max_data = 4095

unfoldable pub lock_loop : List Bool → Option (List Bool)
lock_loop [] = none
lock_loop (true ∷ as') = some as'
lock_loop (false ∷ as') = lock_loop as'

-- The loop over MCKRDY: whether it ends by itself, and not by its `return`; none is no end. The count is compared in the
-- condition, and again in the body.
unfoldable pub ready_loop : (ul_timeout : ℕ) → List Bool → Option (Bool × List Bool)
ready_loop t [] = none
ready_loop t (true ∷ as') = some (true, as')
ready_loop t (false ∷ as') =
    let t' : ℕ = (t + (2 ^ 32 - 1)) % 2 ^ 32 in
    let more = ready_loop t' as' in
    if t' == 0 then some (true, as') else if t' == 0 then some (false, as') else more

-- the calls behind the wait for the clock
abbrev pub set_up : List Call
set_up =
    pmc_enable_periph_clk
    ∷ dacc_reset
    ∷ dacc_enable_flexible_selection
    ∷ dacc_set_timing
    ∷ dacc_set_transfer_mode
    ∷ dacc_set_trigger 0
    ∷ dacc_enable_interrupt
    ∷ nvic_enable
    ∷ []

-- The timeout is PMC_TIMEOUT.
unfoldable pub dac_configure : (pmc_timeout : ℕ) → Cmd ℕ
unfolding lock_loop ready_loop
dac_configure pmc_timeout d = elim (lock_loop d.locked) [
  | none ↦ spent
  | some locked ↦ elim (ready_loop pmc_timeout d.ready) [
    | none ↦ spent
    | some (by_itself, ready) ↦
        (do
          note (pmc_enable_pllack 20 32 1 ∷ pmc_switch_mck_to_pllack ∷ [])
          if by_itself then (do note set_up; pure lf_success) else pure lf_error)
          (record d { locked = locked; ready = ready })
  ]
]

unfoldable pub dac_enable_channels : (i : ℕ) → Cmd ℕ
dac_enable_channels i =
    if i == 0
    then (do note (dacc_enable_channel 0 ∷ []); pure lf_success)
    else if i == 1
    then (do note (dacc_enable_channel 1 ∷ []); pure lf_success)
    else pure lf_error

unfoldable pub dac_set_channels : (i : ℕ) → Cmd ℕ
dac_set_channels i =
    if i == 0
    then (do note (dacc_set_channel_selection 0 ∷ []); pure lf_success)
    else if i == 1
    then (do note (dacc_set_channel_selection 1 ∷ []); pure lf_success)
    else pure lf_error

unfoldable pub dac_write : (data' : ℕ) → Cmd ℕ
dac_write data' =
    if ltb max_data data'
    then pure lf_error
    else (do note (dacc_write_conversion_data data' ∷ []); pure lf_success)

unfoldable pub dac_cleanup : Cmd ℕ
dac_cleanup = do
  note (
      dacc_disable_interrupt
      ∷ nvic_disable
      ∷ dacc_disable_trigger
      ∷ dacc_disable_channel 0
      ∷ dacc_disable_channel 1
      ∷ pmc_disable_periph_clk
      ∷ [])
  pure lf_success

-- A function of the table, on what its argument points to, none being NULL.
abbrev pub Wrapper : Type 0
Wrapper = Option ℕ → Cmd ℕ

abbrev with_arg : (ℕ → Cmd ℕ) → Wrapper
with_arg f none = pure lf_error
with_arg f (some i) = f i

unfoldable pub dac_table : (pmc_timeout : ℕ) → List Wrapper
unfolding dac_configure dac_enable_channels dac_set_channels dac_write dac_cleanup
dac_table pmc_timeout =
    (λ args. dac_configure pmc_timeout)
    ∷ with_arg dac_enable_channels
    ∷ with_arg dac_set_channels
    ∷ with_arg dac_write
    ∷ (λ args. dac_cleanup)
    ∷ []
