-- ===== src/Chip/Interrupt.antt =====
-- platforms/atsam4s/src/main.c: the interrupt of the serial line, with the packets of lib/libflipper.c.
use flipper.Prelude.{
  ℕ, zero, suc, ◌+◌, ◌<◌, ◌≡◌, refl, sym, ap, ◌∙◌, List, [], ◌∷◌, ◌++◌, Option, none, some, true,
  false, length, drop, get_elem?, arith, replicate, ltb, ◌==◌,
}
use flipper.Prelude.Bytes.{to_le}
use flipper.Prelude.Outcome.{done}
use flipper.Error.{lf_error_set, e_ok, e_fmr}
use flipper.Device.{Device, Platform, Cmd}
use flipper.Fmr.{fmr_perform, perform_class, send_result}
use flipper.Fmr.Checksum.{message, crc_of, perform_accepts}
use flipper.Chip.{
  Line, fmr_low, fmr_high, stop_transfers, platform, uart0_write, uart0_read, pull, uart0_isr,
}
use flipper.Chip.Receive.{Arrives, uart0_read-Arrives, uart0_write-sent}

get_elem?-replicate : {A : Type 0} (a : A) (n i : ℕ) → i < n → get_elem? (replicate n a) i ≡ some a
get_elem?-replicate a zero i h = absurd (omega arith)
get_elem?-replicate a (suc n) zero h = refl
get_elem?-replicate a (suc n) (suc i) h = get_elem?-replicate a n i (omega arith)

module _ (malloc : ℕ → Line → ℕ × Line) (free : ℕ → Line → Line) (garbage : Line → List ℕ)
    (read : ℕ → Line → ℕ × List ℕ × Line) (plugins : ℕ → Cmd Line (ℕ × ℕ)) where
  abbrev pub chip : Platform Line
  chip = platform malloc free garbage read

  pub pull-Arrives :
      (d : Device Line) (next : List ℕ) (rest : List (Option ℕ))
      → Arrives d.env.receiver next rest
      → length next ≡ 64
      → pull chip d
        ≡ done tt
            (record d { packet = next ++ drop 64 d.packet; env = record d.env { receiver = rest } })
  pull-Arrives d next rest a size =
      let run : uart0_read 64 d.env ≡ done next (record d.env { receiver = rest }) =
        ap (λ n. uart0_read n d.env) (sym size) ∙ uart0_read-Arrives d.env next rest a in
      rw (run) refl

  -- the device behind the first steps of the interrupt
  abbrev pub begun : Device Line → Device Line
  begun d = record d {
    err = e_ok;
    env = record d.env { steps = (d.env.steps ++ fmr_low ∷ []) ++ stop_transfers ∷ [] };
  }

  -- A message that is performed and answered, and the next packet that arrives behind it.
  answered :
      (d v : Device Line) (reply next : List ℕ) (rest : List (Option ℕ))
      → fmr_perform chip plugins true (begun d)
        ≡ done (uart0_write reply v.env).0 (record v { env = (uart0_write reply v.env).1 })
      → Arrives v.env.receiver next rest
      → length next ≡ 64
      → (d' : Device Line) × (uart0_isr chip plugins true true d ≡ done tt d')
        × (d'.env.sent ≡ v.env.sent ++ reply)
        × (d'.env.receiver ≡ rest)
        × (d'.packet ≡ next ++ drop 64 v.packet)
  unfolding uart0_isr lf_error_set
  answered d v reply next rest performed a size =
      let (left, run) = uart0_write-sent reply v.env in
      let w : Line = record v.env { transmitter = left; sent = v.env.sent ++ reply } in
      let performed' : fmr_perform chip plugins true (begun d) ≡ done 0 (record v { env = w }) =
        performed ∙ ap (λ r. done r.0 (record v { env = r.1 })) run in
      (
        record v {
          packet = next ++ drop 64 v.packet;
          env = record w { receiver = rest; steps = v.env.steps ++ fmr_high ∷ [] };
        },
        rw (performed', pull-Arrives (record v { env = w }) next rest a size) refl,
        refl,
        refl,
        refl,
      )

  -- No code of the chip registers a dispatcher. With the table as it is at the start of the program, where the
  -- device has modules, a message with its own checksum, a class that has a name and a length below 65536 is
  -- answered with the value 0 and E_FMR, whatever its class and payload are.
  pub uart0_isr-no_dispatcher :
      (d : Device Line) (type : ℕ) (more behind next : List ℕ) (rest : List (Option ℕ))
      → d.registry ≡ replicate 6 none
      → (length d.modules == 0) ≡ false
      → d.packet ≡ message (crc_of type more) type more ++ behind
      → type < 6
      → length more + 6 < 65536
      → Arrives d.env.receiver next rest
      → length next ≡ 64
      → (d' : Device Line) × (uart0_isr chip plugins true true d ≡ done tt d')
        × (d'.env.sent ≡ d.env.sent ++ (to_le 8 0 ++ to_le 1 e_fmr))
        × (d'.env.receiver ≡ rest)
        × (d'.packet ≡ next ++ drop 64 (message 0 type more ++ behind))
  unfolding perform_class send_result
  uart0_isr-no_dispatcher d type more behind next rest empty modules here named size a whole =
      let known : ltb type 6 ≡ true = ground arith in
      let missing : get_elem? d.registry type ≡ some none =
        ap (λ t. get_elem? t type) empty ∙ get_elem?-replicate none 6 type named in
      let v : Device Line = record (begun d) { packet = message 0 type more ++ behind } in
      answered d v (to_le 8 0 ++ to_le 1 e_fmr) next rest
        (perform_accepts chip plugins (begun d) type more behind here (omega arith) size
          ∙ rw (known, modules, missing) refl)
        a whole
