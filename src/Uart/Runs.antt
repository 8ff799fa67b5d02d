-- ===== src/Uart/Runs.antt =====
-- Tests of platforms/atmegau2/api/uart0.c on concrete inputs.
use flipper.Prelude.{◌≡◌, refl, [], ◌∷◌, false, replicate, arith}
use flipper.Prelude.Outcome.{done, ◌>>◌}
use flipper.Error.{lf_success, lf_error, e_uart0_read_timeout, e_uart0_write_timeout}
use flipper.Uart.{
  Uart, byte, late, quiet, free, expired, busy, line_loop, uart0_read, uart0_write, uart0_put,
  put_loop, usart1_rx,
}
use flipper.Uart.Queue.{IsUart, queue, arrive, uart0_read-arrive}

abbrev uart : Uart
uart = record {
  idx = 2;
  uart0_buffer = 7 ∷ 8 ∷ replicate 62 0;
  err = 0;
  send_turns = busy ∷ free ∷ expired ∷ [];
  read_turns = quiet ∷ byte 9 ∷ quiet ∷ late ∷ [];
  sent = [];
  debug = [];
}

uart0_read-arrive_example :
    (u' : Uart) × ((arrive (3 ∷ 4 ∷ []) >> uart0_read 3) uart
      ≡ done (lf_success, 7 ∷ 8 ∷ 3 ∷ []) u')
    × IsUart u'
    × (queue u' ≡ 4 ∷ [])
uart0_read-arrive_example =
    uart0_read-arrive 3 (3 ∷ 4 ∷ []) uart (refl, omega arith) (omega arith) (omega arith)

-- The third byte is awaited, and the fourth does not come.
timeout :
    uart0_read 4 uart
    ≡ done
        (lf_error, 7 ∷ 8 ∷ 9 ∷ [])
        (record uart { idx = 0; read_turns = []; err = e_uart0_read_timeout })
unfolding uart0_read line_loop
timeout = refl

-- A byte whose write times out is lost, and the write of all succeeds.
lost :
    uart0_write (1 ∷ 2 ∷ []) uart
    ≡ done lf_success (record uart { send_turns = []; sent = 1 ∷ []; err = e_uart0_write_timeout })
unfolding uart0_write uart0_put put_loop
lost = refl

-- A byte that comes to a full buffer drops what the buffer holds.
dropped :
    usart1_rx 5 false (record uart { idx = 64 })
    ≡ done tt (record uart { idx = 1; uart0_buffer = 5 ∷ 8 ∷ replicate 62 0 })
unfolding usart1_rx
dropped = refl
