-- ===== src/Uart.antt =====
-- platforms/atmegau2/api/uart0.c: the serial line between the usb bridge and the main chip, with the buffer that the
-- interrupt fills. The line is what each turn of a waiting loop finds, and the bytes that are written to it.
-- The configuration of the line and its speed are left out, and so is the text that is printed.
pub mod Queue
mod Runs
use flipper.Prelude.{
  ℕ, zero, suc, ◌+◌, ◌-◌, List, [], ◌∷◌, ◌++◌, Option, none, some, Bool, true, false, not, ◌||◌,
  if◌then◌else◌, length, take, drop, set, ltb, leb, ◌==◌,
}
use flipper.Prelude.Outcome.{Outcome, done, fault, spent, pure, ◌>>=◌, ◌>>◌}
use flipper.Error.{lf_success, lf_error, e_uart0_write_timeout, e_uart0_read_timeout}

abbrev pub buffer_size : ℕ
buffer_size = 64

-- What a turn of the loop before a write finds: UDRE1 is set; or it is not, and the frame number is that of
-- the timeout, or not.
pub data SendTurn : Type 0 where
  free expired busy : SendTurn

-- The same before a read: RXC1 is set, and UDR1 gives the byte.
pub data ReadTurn : Type 0 where
  byte : ℕ → ReadTurn
  late quiet : ReadTurn

-- `idx` and `uart0_buffer`, the error, the line, and the characters that went to the debug endpoint
pub record Uart : Type 0 where
  pub idx : ℕ
  pub uart0_buffer : List ℕ
  pub err : ℕ
  pub send_turns : List SendTurn
  pub read_turns : List ReadTurn
  pub sent : List ℕ
  pub debug : List ℕ

abbrev pub Cmd : Type 0 → Type 0
Cmd A = Uart → Outcome Uart A

-- `while (UCSR1A & (1 << RXC1)) (void)UDR1;`: the turns behind the first that finds no byte
unfoldable pub flush_line : List ReadTurn → List ReadTurn
flush_line [] = []
flush_line (byte b ∷ ts) = flush_line ts
flush_line (late ∷ ts) = ts
flush_line (quiet ∷ ts) = ts

unfoldable pub uart0_reset : Cmd ℕ
unfolding flush_line
uart0_reset u = done lf_success (record u { idx = 0; read_turns = flush_line u.read_turns })

-- RXC1 is an answer of the line
unfoldable pub uart0_ready : (rxc1 : Bool) → Cmd Bool
uart0_ready rxc1 u = done (rxc1 || not (u.idx == 0)) u

unfoldable pub put_loop : List SendTurn → ℕ → Cmd (Unit {0})
put_loop [] b = λ u. spent
put_loop (free ∷ ts) b = λ u. done tt (record u { send_turns = ts; sent = u.sent ++ b ∷ [] })
put_loop (expired ∷ ts) b = λ u. done tt (record u { send_turns = ts; err = e_uart0_write_timeout })
put_loop (busy ∷ ts) b = put_loop ts b

unfoldable pub uart0_put : (b : ℕ) → Cmd (Unit {0})
unfolding put_loop
uart0_put b u = put_loop u.send_turns b u

unfoldable pub uart0_write : (src : List ℕ) → Cmd ℕ
unfolding uart0_put
uart0_write [] = pure lf_success
uart0_write (b ∷ src) = do uart0_put b; uart0_write src

-- The loop over the bytes that the buffer lacks: the status, and the bytes that have been read.
unfoldable pub line_loop : (length : ℕ) → List ReadTurn → Cmd (ℕ × List ℕ)
line_loop zero ts = λ u. done (lf_success, []) (record u { read_turns = ts })
line_loop (suc n) [] = λ u. spent
line_loop (suc n) (byte b ∷ ts) = do r ← line_loop n ts; pure (r.0, b ∷ r.1)
line_loop (suc n) (late ∷ ts) =
    λ u. done (lf_error, []) (record u { read_turns = ts; err = e_uart0_read_timeout })
line_loop (suc n) (quiet ∷ ts) = line_loop (suc n) ts

-- `memmove` of the bytes behind those that have been read
abbrev pub moved : (from count : ℕ) → List ℕ → List ℕ
moved from count buffer = take count (drop from buffer) ++ drop count buffer

unfoldable pub uart0_read : (length : ℕ) → Cmd (ℕ × List ℕ)
unfolding line_loop
uart0_read n u =
    if ltb n u.idx
    then done (lf_success, take n u.uart0_buffer)
        (record u { idx = u.idx - n; uart0_buffer = moved n (u.idx - n) u.uart0_buffer })
    else (do
      r ← line_loop (n - u.idx) u.read_turns
      (λ v. done (r.0, take u.idx u.uart0_buffer ++ r.1) (record v { idx = 0 })))
        u

-- The byte is not initialised where the read fails.
unfoldable pub uart0_get : Cmd (Option ℕ)
unfolding uart0_read
uart0_get = do r ← uart0_read 1; pure (first r.1)
  where
    first : List ℕ → Option ℕ
    first [] = none
    first (b ∷ bs) = some b

-- USART1_RX_vect, with the byte of UDR1 and whether the pin asks for the debug endpoint
unfoldable pub usart1_rx : (c : ℕ) → (to_debug : Bool) → Cmd (Unit {0})
usart1_rx c to_debug u =
    let at : ℕ = if u.idx == buffer_size then 0 else u.idx in
    if to_debug
    then done tt (record u { idx = at; debug = u.debug ++ c ∷ [] })
    else if ltb at (length u.uart0_buffer)
    then done tt (record u { idx = suc at; uart0_buffer = set u.uart0_buffer at c })
    else fault
