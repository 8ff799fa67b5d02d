-- ===== src/Avr/Runs.antt =====
-- Tests of platforms/atmegau2/api on concrete inputs.
use flipper.Prelude.{ℕ, ◌<◌, ◌≡◌, refl, [], ◌∷◌, true, false, arith}
use flipper.Avr.{
  Registers, SpiBits, gpio_enable, gpio_write, gpio_read, button_configure, button_read,
  led_configure, wdt_fire, spi_configure, spi_enable, spi_disable, spi_ready,
}
use flipper.Avr.Gpio.{Assigned, gpio_write-Assigned}

abbrev registers : Registers
registers = record {
  ddrb = 0;
  ddrc = 255;
  ddrd = 7;
  portd = 129;
  pinc = 64;
  pind = 9;
  spcr = 0;
  spdr = 0;
  watchdog = false;
  flags = false ∷ true ∷ true ∷ false ∷ true ∷ [];
  sent = [];
}

-- bits 1 and 2 are set, and 0 and 1 cleared
pins : (gpio_write 262 3 registers).portd ≡ 132
unfolding gpio_write
pins = refl

directions : (gpio_enable 8 3 registers).ddrd ≡ 12
unfolding gpio_enable
directions = refl

-- The mask does not matter.
unmasked : gpio_read 1 registers ≡ 9
unfolding gpio_read
unmasked = refl

button : (button_read registers ≡ 1) × ((button_configure registers).1.ddrc ≡ 191)
unfolding button_read button_configure
button = (refl, refl)

led : (led_configure (record registers { ddrc = 0 })).1.ddrc ≡ 32
unfolding led_configure
led = refl

fired : (wdt_fire registers).watchdog ≡ true
unfolding wdt_fire
fired = refl

-- with the bits as on the chip
abbrev bits : SpiBits
bits = record { mstr = 4; spe = 6; spif = 7; spi2x = 0 }

bus :
    ((spi_configure bits registers).1.spcr ≡ 13)
    × ((spi_enable bits registers).spcr ≡ 80)
    × ((spi_disable bits (spi_enable bits registers)).spcr ≡ 0)
    × ((spi_disable bits (spi_enable bits registers)).ddrb ≡ 0)
unfolding spi_configure spi_enable spi_disable
bus = (refl, refl, refl, refl)

line_ready : spi_ready bits 130 ≡ 128
unfolding spi_ready
line_ready = refl

gpio_write-Assigned_example :
    ((i : ℕ) → i < 8 → Assigned i 262 3 129 (gpio_write 262 3 registers).portd)
    × ((gpio_write 262 3 registers).portd < 256)
    × ((gpio_write 262 3 registers).ddrd ≡ 7)
gpio_write-Assigned_example = gpio_write-Assigned 262 3 registers (omega arith)
