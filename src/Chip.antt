-- ===== src/Chip.antt =====
-- platforms/atsam4s/src/main.c and platforms/atsam4s/api/uart0.c: the program of the main chip, which gets a message over its
-- serial line and performs it in the interrupt at its end. The vendored library is the answers of its line: those of
-- uart_is_tx_ready up to the last that is false, and those of uart_is_rx_ready with the byte that uart_read gives. The
-- set up of registers is a list of steps, and a wait for the clock runs along the answers of its bit.
pub mod Clock
pub mod Receive
pub mod Interrupt
pub mod Start
mod Runs
use flipper.Prelude.{
  ℕ, zero, suc, List, [], ◌∷◌, ◌++◌, Option, none, some, Bool, true, false, if◌then◌else◌, drop,
}
use flipper.Prelude.Outcome.{Outcome, done, fault, spent, pure, ◌>>=◌, ◌>>◌}
use flipper.Error.{lf_success, lf_error_set, e_ok}
use flipper.Device.{Module, Device, Platform, Cmd, raise}
use flipper.Device.Create.{Created, lf_device_create}
use flipper.Modules.{dyld_register}
use flipper.Fmr.{fmr_packet_size, fmr_perform}
use flipper.Dac.{Dac, dac_configure}

-- The steps on registers besides the serial line, in the order of main, and those of the interrupt.
pub data Step : Type 0 where
  disable_watchdog wait_states main_oscillator select_oscillator main_clock pllb : Step
  switch_to_main board_clock reset_pin : Step
  enable_interrupt init_scheduler stop_transfers reset_status fmr_low fmr_high : Step

-- The serial line, the bytes that were sent, the answers of the bits of the clock, the steps, and the converter.
pub record Line : Type 0 where
  pub transmitter : List Bool
  pub receiver : List (Option ℕ)
  pub sent : List ℕ
  pub clock : List Bool
  pub steps : List Step
  pub converter : Dac

-- `while (!uart_is_tx_ready(UART0_HW));` and the write
unfoldable pub put_loop : List Bool → (byte : ℕ) → Line → Line
put_loop [] byte l = record l { transmitter = []; sent = l.sent ++ byte ∷ [] }
put_loop (true ∷ as') byte l = record l { transmitter = as'; sent = l.sent ++ byte ∷ [] }
put_loop (false ∷ as') byte l = put_loop as' byte l

unfoldable pub uart0_put : (byte : ℕ) → Line → Line
unfolding put_loop
uart0_put byte l = put_loop l.transmitter byte l

unfoldable pub uart0_write : (src : List ℕ) → Line → ℕ × Line
unfolding uart0_put
uart0_write [] l = (0, l)
uart0_write (b ∷ src) l = uart0_write src (uart0_put b l)

-- `while (!uart_is_rx_ready(UART0_HW));`: the byte, and the answers that are left; none is no end
unfoldable pub get_loop : List (Option ℕ) → Option (ℕ × List (Option ℕ))
get_loop [] = none
get_loop (some b ∷ as') = some (b, as')
get_loop (none ∷ as') = get_loop as'

unfoldable pub uart0_get : Line → Outcome Line ℕ
unfolding get_loop
uart0_get l = elim (get_loop l.receiver) [
  | none ↦ spent
  | some (b, as') ↦ done b (record l { receiver = as' })
]

-- the bytes that are left, behind those that stand at `dst`
unfoldable pub read_loop : (left : ℕ) → (dst : List ℕ) → Line → Outcome Line (List ℕ)
unfolding uart0_get
read_loop zero dst = pure dst
read_loop (suc left) dst = do b ← uart0_get; read_loop left (dst ++ b ∷ [])

unfoldable pub uart0_read : (length : ℕ) → Line → Outcome Line (List ℕ)
unfolding read_loop
uart0_read length = read_loop length []

-- debug_putchar, which writes a character of the standard output
unfoldable pub debug_putchar : (c : ℕ) → Line → ℕ × Line
unfolding uart0_put
debug_putchar c l = (0, uart0_put c l)

-- CLOCK_TIMEOUT
abbrev pub clock_timeout : ℕ
clock_timeout = 5000

-- A wait for a bit, with the turns that are left: the answers behind it; none is no end of them.
unfoldable pub clock_wait : (left : ℕ) → List Bool → Option (List Bool)
clock_wait left [] = none
clock_wait left (true ∷ as') = some as'
clock_wait zero (false ∷ as') = some as'
clock_wait (suc left) (false ∷ as') = clock_wait left as'

abbrev pub Serial : Type 0 → Type 0
Serial A = Line → Outcome Line A

abbrev pub step : Step → Serial (Unit {0})
step x l = done tt (record l { steps = l.steps ++ x ∷ [] })

unfoldable pub wait : Serial (Unit {0})
unfolding clock_wait
wait l = elim (clock_wait clock_timeout l.clock) [
  | none ↦ spent
  | some as' ↦ done tt (record l { clock = as' })
]

-- a function of the converter
unfoldable pub on_converter : (Dac → Outcome Dac ℕ) → Serial ℕ
on_converter f l = elim (f l.converter) [
  | done r c ↦ done r (record l { converter = c })
  | fault ↦ fault
  | spent ↦ spent
]

-- a step, and the wait for its bit
unfoldable pub timed : Step → Serial (Unit {0})
unfolding wait
timed x = do step x; wait

-- The set up of the clocks in main; `selected` is MOSCSEL at the start.
unfoldable pub set_up : (selected : Bool) → Serial (Unit {0})
unfolding timed
set_up selected = do
  step disable_watchdog
  step wait_states
  if selected then pure tt else timed main_oscillator
  timed select_oscillator
  timed main_clock
  timed pllb
  timed switch_to_main
  timed board_clock
  step reset_pin

module _ (malloc : ℕ → Line → ℕ × Line) (free : ℕ → Line → Line) (garbage : Line → List ℕ) where
  -- atsam4s_write and the memory; fmr_perform and dyld_register never read from the device
  abbrev pub platform : (read : ℕ → Line → ℕ × List ℕ × Line) → Platform Line
  platform read = record {
    write = uart0_write;
    read = read;
    malloc = malloc;
    free = free;
    garbage = garbage;
  }

abbrev pub behind : {A : Type 0} → Outcome Line A → Device Line → Outcome (Device Line) A
behind (done a l) d = done a (record d { env = l })
behind fault d = fault
behind spent d = spent

module _ (p : Platform Line) where
  -- a command of the line as one of the device
  abbrev pub on_line : {A : Type 0} → (Line → Outcome Line A) → Cmd Line A
  on_line f d = behind (f d.env) d

  -- The packet at hand is what uart0_read leaves in it, before the bytes that stand behind.
  abbrev pub pull : Cmd Line (Unit {0})
  pull = do
    bs ← on_line (uart0_read fmr_packet_size)
    (λ d. done tt (record d { packet = bs ++ drop fmr_packet_size d.packet }))

  -- main up to its call of os_scheduler_init, which does not return; the result is whether lf_device_create has given a device.
  -- `pmc_timeout` is the timeout of dac_configure, whose result is not looked at.
  unfoldable pub main :
      (pmc_timeout size : ℕ) → (dac_module : Module Line) → (selected : Bool) → Cmd Line Bool
  unfolding set_up on_converter dyld_register uart0_read
  main pmc_timeout size dac_module selected = do
    on_line (set_up selected)
    created ← lf_device_create p size
    let dev : Bool = is_some created
    (λ d. done tt (if dev then record d { name = []; modules = [] } else d))
    dyld_register p dev (some dac_module)
    on_line (on_converter (dac_configure pmc_timeout))
    pull
    on_line (step enable_interrupt)
    on_line (step init_scheduler)
    pure dev
    where
      is_some : Option Created → Bool
      is_some none = false
      is_some (some c) = true

  -- `endrx` is the bit UART_SR_ENDRX of the status.
  unfoldable pub uart0_isr :
      (plugins : ℕ → Cmd Line (ℕ × ℕ)) → (dev endrx : Bool) → Cmd Line (Unit {0})
  unfolding fmr_perform uart0_read
  uart0_isr plugins dev false = on_line (step reset_status)
  uart0_isr plugins dev true = do
    on_line (step fmr_low)
    on_line (step stop_transfers)
    raise (lf_error_set e_ok)
    fmr_perform p plugins dev
    pull
    on_line (step fmr_high)
