-- ===== src/Chip/Runs.antt =====
-- Tests of platforms/atsam4s/src/main.c and platforms/atsam4s/api/uart0.c on concrete inputs.
use flipper.Prelude.{
  ℕ, zero, suc, map, ◌≡◌, refl, List, [], ◌∷◌, ◌++◌, Option, none, some, Bool, true, false,
  replicate, length, length-replicate, drop, arith, ◌*◌, ◌≤◌,
}
use flipper.Prelude.Bytes.{to_le}
use flipper.Prelude.Outcome.{done}
use flipper.Error.{e_fmr}
use flipper.Device.{Function, Module, Device, Cmd}
use flipper.Device.Sample.{handlers}
use flipper.Fmr.Checksum.{message, crc_of}
use flipper.Chip.{Line, uart0_read, uart0_isr, set_up}
use flipper.Chip.Clock.{steps_of, set_up-ends}
use flipper.Chip.Receive.{Arrives, all, pause, byte, uart0_read-Arrives}
use flipper.Chip.Interrupt.{chip, uart0_isr-no_dispatcher}

-- a receiver that gives a packet of zeros behind a poll that finds nothing, and then a byte
abbrev zeros : List (Option ℕ)
zeros = none ∷ replicate 64 (some 0) ++ some 9 ∷ []

abbrev line : Line
line = record {
  transmitter = false ∷ true ∷ false ∷ [];
  receiver = zeros;
  sent = [];
  clock = replicate 30006 false;
  steps = [];
  converter = record { locked = false ∷ true ∷ []; ready = replicate 3 false; calls = [] };
}

zeros_arrive : Arrives zeros (replicate 64 0) (some 9 ∷ [])
zeros_arrive = pause (byte 0 (go 63))
  where
    go : (n : ℕ) → Arrives (replicate n (some 0) ++ some 9 ∷ []) (replicate n 0) (some 9 ∷ [])
    go zero = all (some 9 ∷ [])
    go (suc n) = byte 0 (go n)

abbrev malloc : ℕ → Line → ℕ × Line
malloc n l = (100, l)

abbrev free : ℕ → Line → Line
free at l = l

abbrev garbage : Line → List ℕ
garbage l = replicate 8 170

abbrev read : ℕ → Line → ℕ × List ℕ × Line
read n l = (0, replicate n 0, l)

abbrev no_plugins : ℕ → Cmd Line (ℕ × ℕ)
no_plugins n d = done (0, 0) d

-- a module with one function, which sends a byte
abbrev beep : Function Line
beep args l err = (7, record l { sent = l.sent ++ 1 ∷ [] }, err)

abbrev speaker : Module Line
speaker = record {
  name = b'b' ∷ [];
  version = 1;
  idx = 0;
  table = replicate 4 beep;
  length = 4;
  state = none;
}

abbrev board : Device Line
board = record {
  name = [];
  modules = speaker ∷ [];
  err = 0;
  registry = handlers;
  current = false;
  packet = replicate 64 0;
  env = line;
}

clocks_ready :
    (rest : List Bool) × (set_up false line
      ≡ done tt (record line { clock = rest; steps = steps_of false }))
clocks_ready = set_up-ends false line enough
  where
    enough : 6 * 5001 ≤ length line.clock
    enough = omega (arith, length-replicate {A = Bool} 30006 false)

zeros_read : uart0_read 64 line ≡ done (replicate 64 0) (record line { receiver = some 9 ∷ [] })
zeros_read = uart0_read-Arrives line (replicate 64 0) (some 9 ∷ []) zeros_arrive

abbrev call : List ℕ
call = 0 ∷ 3 ∷ 4 ∷ replicate 17 0

-- the chip as its program starts, with the same module
abbrev started : Device Line
started = record board {
  registry = replicate 6 none;
  packet = message (crc_of 0 call) 0 call ++ replicate 38 0;
}

unanswered :
    (d' : Device Line) × (uart0_isr
        (chip malloc free garbage read no_plugins)
        no_plugins
        true
        true
        started
      ≡ done tt d')
    × (d'.env.sent ≡ to_le 8 0 ++ to_le 1 e_fmr)
    × (d'.env.receiver ≡ some 9 ∷ [])
    × (d'.packet ≡ replicate 64 0 ++ drop 64 (message 0 0 call ++ replicate 38 0))
unanswered =
    uart0_isr-no_dispatcher malloc free garbage read no_plugins started 0 call (replicate 38 0)
      (replicate 64 0) (some 9 ∷ []) refl refl refl (omega arith) (omega arith) zeros_arrive refl

-- the message, and behind it a packet of zeros
abbrev arriving : List (Option ℕ)
arriving = map some (message (crc_of 0 call) 0 call ++ replicate 38 0) ++ zeros

-- a program that starts, with a converter whose clock never becomes ready
abbrev idle_chip : Device Line
idle_chip = record started { env = record line { receiver = arriving }; modules = [] }
