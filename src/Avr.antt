-- ===== src/Avr.antt =====
-- platforms/atmegau2/api: gpio.c, button.c, led.c, wdt.c and spi.c, the drivers of the usb bridge, over its registers. The
-- loop in assembly that sends a colour to the led is left out. The numbers of the bits of the SPI registers come from
-- the library of the compiler, and are a parameter; so is the device at the other end of the line.
pub mod Gpio
pub mod Spi
mod Runs
use flipper.Prelude.{
  ℕ, zero, suc, ◌+◌, ◌-◌, ◌/◌, ◌^◌, List, [], ◌∷◌, ◌++◌, Option, some, Bool, true, false, bit_and,
  bit_or,
}
use flipper.Prelude.Outcome.{Outcome, done, spent, pure, ◌>>=◌, ◌>>◌}
use flipper.Error.{lf_success}

-- The registers, each of 8 bits; whether the watchdog runs; what the flag SPIF is each time that it is read; and the bytes
-- that were written to SPDR.
pub record Registers : Type 0 where
  pub ddrb : ℕ
  pub ddrc : ℕ
  pub ddrd : ℕ
  pub portd : ℕ
  pub pinc : ℕ
  pub pind : ℕ
  pub spcr : ℕ
  pub spdr : ℕ
  pub watchdog : Bool
  pub flags : List Bool
  pub sent : List ℕ

-- `~` of a uint32_t, and of an int, which has 16 bits here
abbrev pub not_32 : ℕ → ℕ
not_32 x = 2 ^ 32 - 1 - x

abbrev pub not_16 : ℕ → ℕ
not_16 x = 2 ^ 16 - 1 - x

-- `reg |= set & 0xff; reg &= ~(clear & 0xff);`
abbrev pub assign : (set clear reg : ℕ) → ℕ
assign set clear reg = bit_and (bit_or reg (bit_and set 255)) (not_32 (bit_and clear 255))

abbrev pub gpio_configure : ℕ
gpio_configure = lf_success

unfoldable pub gpio_enable : (enable disable : ℕ) → Registers → Registers
gpio_enable enable disable r = record r { ddrd = assign enable disable r.ddrd }

unfoldable pub gpio_write : (set clear : ℕ) → Registers → Registers
gpio_write set clear r = record r { portd = assign set clear r.portd }

unfoldable pub gpio_read : (mask : ℕ) → Registers → ℕ
gpio_read mask r = r.pind

-- BUTTON_PIN, LED_DI, SCK and MOSI
abbrev pub button_pin : ℕ
button_pin = 6

abbrev pub led_di : ℕ
led_di = 5

abbrev pub spi_pins : ℕ
spi_pins = bit_or (2 ^ 2) (2 ^ 1)

unfoldable pub button_configure : Registers → ℕ × Registers
button_configure r = (lf_success, record r { ddrc = bit_and r.ddrc (not_16 (2 ^ button_pin)) })

unfoldable pub button_read : Registers → ℕ
button_read r = bit_and r.pinc (2 ^ button_pin) / 2 ^ button_pin

unfoldable pub led_configure : Registers → ℕ × Registers
led_configure r = (lf_success, record r { ddrc = bit_or r.ddrc (2 ^ led_di) })

abbrev pub wdt_configure : ℕ
wdt_configure = lf_success

unfoldable pub wdt_fire : Registers → Registers
wdt_fire r = record r { watchdog = true }

-- where MSTR, SPE, SPIF and SPI2X are
pub record SpiBits : Type 0 where
  pub mstr : ℕ
  pub spe : ℕ
  pub spif : ℕ
  pub spi2x : ℕ

-- SPI_DATA_MODE_3
abbrev pub spi_data_mode_3 : ℕ
spi_data_mode_3 = 12

module _ (b : SpiBits) where
  unfoldable pub spi_configure : Registers → ℕ × Registers
  spi_configure r = (
    lf_success,
    record r {
      ddrb = bit_or r.ddrb spi_pins;
      spcr = bit_or (bit_or r.spcr spi_data_mode_3) (2 ^ b.spi2x);
    },
  )

  abbrev pub master : ℕ
  master = bit_or (2 ^ b.mstr) (2 ^ b.spe)

  unfoldable pub spi_enable : Registers → Registers
  spi_enable r = record r { ddrb = bit_or r.ddrb spi_pins; spcr = bit_or r.spcr master }

  unfoldable pub spi_disable : Registers → Registers
  spi_disable r = record r {
    spcr = bit_and r.spcr (not_16 master);
    ddrb = bit_and r.ddrb (not_16 spi_pins);
  }

  -- SPSR, as it is read
  unfoldable pub spi_ready : (spsr : ℕ) → ℕ
  spi_ready spsr = bit_and spsr (2 ^ b.spif)

abbrev pub Cmd : Type 0 → Type 0
Cmd A = Registers → Outcome Registers A

-- `while (!((SPSR) & (1 << SPIF)));`
unfoldable pub flag_loop : List Bool → Cmd (Unit {0})
flag_loop [] = λ r. spent
flag_loop (true ∷ fs) = λ r. done tt (record r { flags = fs })
flag_loop (false ∷ fs) = flag_loop fs

-- `slave` is the byte that the other end has shifted in, by all the bytes that it was sent.
module _ (slave : List ℕ → ℕ) where
  unfoldable pub spi_put : (byte : ℕ) → Cmd (Unit {0})
  unfolding flag_loop
  spi_put byte = do
    (λ r. done tt (record r { sent = r.sent ++ byte ∷ []; spdr = slave (r.sent ++ byte ∷ []) }))
    (λ r. flag_loop r.flags r)

  unfoldable pub spi_get : Cmd ℕ
  unfolding spi_put
  spi_get = do spi_put 0; (λ r. done r.spdr r)

  unfoldable pub spi_write : (src : List ℕ) → Cmd ℕ
  unfolding spi_put
  spi_write [] = pure lf_success
  spi_write (byte ∷ src) = do spi_put byte; spi_write src

  -- the status, and the bytes of `dst`
  unfoldable pub spi_read : (length : ℕ) → Cmd (ℕ × List ℕ)
  unfolding spi_get
  spi_read zero = pure (lf_success, [])
  spi_read (suc n) = do byte ← spi_get; rest ← spi_read n; pure (rest.0, byte ∷ rest.1)
