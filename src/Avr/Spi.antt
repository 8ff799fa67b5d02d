-- ===== src/Avr/Spi.antt =====
-- platforms/atmegau2/api/spi.c: a transaction on the line.
use flipper.Prelude.{
  ℕ, zero, suc, ◌≡◌, refl, sym, ap, ◌∙◌, List, [], ◌∷◌, ◌++◌, append-nil, append_assoc, Bool, true,
  false, length, replicate,
}
use mathlib.Core.Path.{subst}
use flipper.Prelude.Outcome.{done, continue}
use flipper.Error.{lf_success}
use flipper.Avr.{Registers, flag_loop, spi_put, spi_get, spi_write, spi_read}

-- Flags that let a number of waits end, each on its own turn, and those that are left.
pub data Waits : ℕ → List Bool → List Bool → Type 0 where
  none_left : {fs : List Bool} → Waits 0 fs fs
  busy : {n : ℕ} {fs gs : List Bool} → Waits (suc n) fs gs → Waits (suc n) (false ∷ fs) gs
  ready : {n : ℕ} {fs gs : List Bool} → Waits n fs gs → Waits (suc n) (true ∷ fs) gs

-- the bytes that come back for zeros, behind those that were sent
abbrev pub answers : (slave : List ℕ → ℕ) → (sent : List ℕ) → (n : ℕ) → List ℕ
answers slave sent zero = []
answers slave sent (suc n) = slave (sent ++ 0 ∷ []) ∷ answers slave (sent ++ 0 ∷ []) n

-- what holds of the registers behind some transfers
pub record Sent (r : Registers) (bytes : List ℕ) (left : List Bool) : Type 0 where
  pub r' : Registers
  pub sent : r'.sent ≡ r.sent ++ bytes
  pub flags : r'.flags ≡ left

over : {fs gs : List Bool} → Waits 0 fs gs → fs ≡ gs
over none_left = refl

first :
    (n : ℕ) (fs gs : List Bool)
    → Waits (suc n) fs gs
    → (mid : List Bool) × Waits 1 fs mid × Waits n mid gs
first n [] gs w = elim w [ ]
first n (false ∷ fs) gs (busy w) = let (mid, one, rest) = first n fs gs w in (mid, busy one, rest)
first n (true ∷ fs) gs (ready w) = (fs, ready none_left, w)

flag_loop-ready :
    (fs gs : List Bool) (r : Registers)
    → Waits 1 fs gs
    → flag_loop fs r ≡ done tt (record r { flags = gs })
unfolding flag_loop
flag_loop-ready [] gs r w = elim w [ ]
flag_loop-ready (false ∷ fs) gs r (busy w) = flag_loop-ready fs gs r w
flag_loop-ready (true ∷ fs) gs r (ready none_left) = refl

module _ (slave : List ℕ → ℕ) where
  abbrev put : ℕ → List Bool → Registers → Registers
  put byte left r = record r {
    sent = r.sent ++ byte ∷ [];
    spdr = slave (r.sent ++ byte ∷ []);
    flags = left;
  }

  spi_put-ready :
      (byte : ℕ) (r : Registers) (left : List Bool)
      → Waits 1 r.flags left
      → spi_put slave byte r ≡ done tt (put byte left r)
  unfolding spi_put
  spi_put-ready byte r left w =
      flag_loop-ready r.flags left
        (record r { sent = r.sent ++ byte ∷ []; spdr = slave (r.sent ++ byte ∷ []) }) w

  spi_write-Sent :
      (src : List ℕ) (r : Registers) (left : List Bool)
      → Waits (length src) r.flags left
      → (s : Sent r src left) × (spi_write slave src r ≡ done lf_success s.r')
  unfolding spi_write
  spi_write-Sent [] r left w =
      (record { r' = r; sent = sym (append-nil r.sent); flags = over w }, refl)
  spi_write-Sent (byte ∷ src) r left w =
      let (mid, one, rest) = first (length src) r.flags left w in
      let (s, run) = spi_write-Sent src (put byte mid r) left rest in
      (
        record { r' = s.r'; sent = s.sent ∙ append_assoc r.sent (byte ∷ []) src; flags = s.flags },
        rw (spi_put-ready byte r mid one) run,
      )

  spi_read-answers :
      (n : ℕ) (r : Registers) (left : List Bool)
      → Waits n r.flags left
      → (s : Sent r (replicate n 0) left) × (spi_read slave n r
          ≡ done (lf_success, answers slave r.sent n) s.r')
  unfolding spi_read spi_get
  spi_read-answers zero r left w =
      (record { r' = r; sent = sym (append-nil r.sent); flags = over w }, refl)
  spi_read-answers (suc n) r left w =
      let (mid, one, rest) = first n r.flags left w in
      let (s, run) = spi_read-answers n (put 0 mid r) left rest in
      (
        record {
          r' = s.r';
          sent = s.sent ∙ append_assoc r.sent (0 ∷ []) (replicate n 0);
          flags = s.flags;
        },
        rw (spi_put-ready 0 r mid one, run) refl,
      )

  -- Let the flag of the line get set for each byte that is written, and then for each of `n` more. Then spi_write ends with
  -- success, and spi_read of n bytes behind it ends with success and the answers of the other end to n zeros
  -- behind the bytes that were written; the line has been sent just those bytes and the zeros, and the flag has been read just as often as
  -- these waits need.
  spi_read-spi_write :
      (src : List ℕ) (n : ℕ) (r : Registers) (mid left : List Bool)
      → Waits (length src) r.flags mid
      → Waits n mid left
      → (s : Sent r (src ++ replicate n 0) left) × (continue
            (spi_write slave src r)
            (λ e. spi_read slave n)
          ≡ done (lf_success, answers slave (r.sent ++ src) n) s.r')
  spi_read-spi_write src n r mid left w w' =
      let (s, run) = spi_write-Sent src r mid w in
      let at_mid : Waits n s.r'.flags left = subst (λ fs. Waits n fs left) (sym s.flags) w' in
      let (s', run') = spi_read-answers n s.r' left at_mid in
      (
        record {
          r' = s'.r';
          sent =
              s'.sent
              ∙ ap (λ t. t ++ replicate n 0) s.sent
              ∙ append_assoc r.sent src (replicate n 0);
          flags = s'.flags;
        },
        rw (run) (run' ∙ ap (λ t. done (lf_success, answers slave t n) s'.r') s.sent),
      )
