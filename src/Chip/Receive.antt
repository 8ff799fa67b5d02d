-- ===== src/Chip/Receive.antt =====
-- platforms/atsam4s/api/uart0.c: the bytes that cross the serial line.
use flipper.Prelude.{
  ℕ, ◌≡◌, refl, sym, ap, ◌∙◌, List, [], ◌∷◌, ◌++◌, append-nil, append_assoc, Option, none, some,
  Bool, true, false, length,
}
use flipper.Prelude.Outcome.{done}
use flipper.Chip.{
  Line, put_loop, uart0_put, uart0_write, get_loop, uart0_get, read_loop, uart0_read,
}

-- The receiver gives these bytes in order, with any number of polls before each that find nothing.
pub data Arrives : List (Option ℕ) → List ℕ → List (Option ℕ) → Type 0 where
  all : (rest : List (Option ℕ)) → Arrives rest [] rest
  pause :
      {as' rest : List (Option ℕ)} {b : ℕ} {bs : List ℕ}
      → Arrives as' (b ∷ bs) rest
      → Arrives (none ∷ as') (b ∷ bs) rest
  byte :
      {as' rest : List (Option ℕ)} {bs : List ℕ} (b : ℕ)
      → Arrives as' bs rest
      → Arrives (some b ∷ as') (b ∷ bs) rest

read_loop-Arrives :
    (l : Line) (dst : List ℕ) {as' : List (Option ℕ)} {bs : List ℕ} {rest : List (Option ℕ)}
    → Arrives as' bs rest
    → read_loop (length bs) dst (record l { receiver = as' })
      ≡ done (dst ++ bs) (record l { receiver = rest })
unfolding read_loop uart0_get get_loop
read_loop-Arrives l dst (all rest) =
    ap (λ t. done t (record l { receiver = rest })) (sym (append-nil dst))
read_loop-Arrives l dst (pause a) = read_loop-Arrives l dst a
read_loop-Arrives l dst (byte b a) =
    let run = read_loop-Arrives l (dst ++ b ∷ []) a in rw append_assoc at run

-- A read of as many bytes as the receiver gives, whatever polls between them find nothing, ends with those
-- bytes in order, and leaves the answers behind them.
pub uart0_read-Arrives :
    (l : Line) (bs : List ℕ) (rest : List (Option ℕ))
    → Arrives l.receiver bs rest
    → uart0_read (length bs) l ≡ done bs (record l { receiver = rest })
unfolding uart0_read
uart0_read-Arrives l bs rest a = read_loop-Arrives l [] a

put_loop-sent :
    (answers : List Bool) (b : ℕ) (l : Line)
    → (left : List Bool) × (put_loop answers b l
        ≡ record l { transmitter = left; sent = l.sent ++ b ∷ [] })
unfolding put_loop
put_loop-sent [] b l = ([], refl)
put_loop-sent (true ∷ as') b l = (as', refl)
put_loop-sent (false ∷ as') b l = put_loop-sent as' b l

-- A write succeeds and sends the bytes behind those that were sent, whatever the transmitter answers before it is
-- ready for each.
pub uart0_write-sent :
    (src : List ℕ) (l : Line)
    → (left : List Bool) × (uart0_write src l
        ≡ (0, record l { transmitter = left; sent = l.sent ++ src }))
unfolding uart0_write uart0_put
uart0_write-sent [] l =
    (l.transmitter, ap (λ t. (0, record l { sent = t })) (sym (append-nil l.sent)))
uart0_write-sent (b ∷ src) l =
    let (left, put) = put_loop-sent l.transmitter b l in
    let (left', run) =
      uart0_write-sent src (record l { transmitter = left; sent = l.sent ++ b ∷ [] }) in
    (
      left',
      ap (uart0_write src) put
          ∙ run
          ∙ ap (λ t. (0, record l { transmitter = left'; sent = t }))
              (append_assoc l.sent (b ∷ []) src),
    )
