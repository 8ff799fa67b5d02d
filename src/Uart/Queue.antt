-- ===== src/Uart/Queue.antt =====
-- platforms/atmegau2/api/uart0.c: the buffer as a queue, which the interrupt fills and a read empties.
use flipper.Prelude.{
  ℕ, zero, suc, ◌+◌, ◌-◌, ◌≤◌, ◌<◌, ◌≡◌, refl, sym, ap, ◌∙◌, List, [], ◌∷◌, ◌++◌, append_assoc,
  append-nil, true, false, Bool-cases, inl, inr, length, take, drop, set, ltb, ◌==◌, arith,
  length-append, length-take, length-drop, take-nil, take-length-append,
}
use flipper.Prelude.Outcome.{done, pure, ◌>>◌}
use flipper.Error.{lf_success}
use flipper.Uart.{Uart, Cmd, moved, line_loop, uart0_read, usart1_rx}

abbrev pub IsUart : Uart → Type 0
IsUart u = (length u.uart0_buffer ≡ 64) × (u.idx ≤ 64)

-- the bytes that have come and have not been read
abbrev pub queue : Uart → List ℕ
queue u = take u.idx u.uart0_buffer

-- the interrupts of some bytes in order, while the pin does not ask for the debug endpoint
unfoldable pub arrive : List ℕ → Cmd (Unit {0})
arrive [] = pure tt
arrive (c ∷ cs) = do usart1_rx c false; arrive cs

take-set : (xs : List ℕ) (i c : ℕ) → i < length xs → take (suc i) (set xs i c) ≡ take i xs ++ c ∷ []
take-set [] i c h = absurd (omega arith)
take-set (x ∷ xs) zero c h = refl
take-set (x ∷ xs) (suc i) c h = ap (λ t. x ∷ t) (take-set xs i c (omega arith))

length-set : (xs : List ℕ) (i c : ℕ) → length (set xs i c) ≡ length xs
length-set [] i c = refl
length-set (x ∷ xs) zero c = refl
length-set (x ∷ xs) (suc i) c = ap suc (length-set xs i c)

take-take : (n m : ℕ) (xs : List ℕ) → n ≤ m → take n (take m xs) ≡ take n xs
take-take zero m xs h = refl
take-take (suc n) zero xs h = absurd (omega arith)
take-take (suc n) (suc m) [] h = refl
take-take (suc n) (suc m) (x ∷ xs) h = ap (λ t. x ∷ t) (take-take n m xs (omega arith))

drop-take : (n k : ℕ) (xs : List ℕ) → drop n (take k xs) ≡ take (k - n) (drop n xs)
drop-take zero k xs = ap (λ t. take t xs) (omega arith)
drop-take (suc n) zero xs =
    let e : 0 ≡ 0 - suc n = omega arith in ap (λ t. take t (drop (suc n) xs)) e
drop-take (suc n) (suc k) [] = sym (take-nil (suc k - suc n))
drop-take (suc n) (suc k) (x ∷ xs) = drop-take n k xs ∙ ap (λ t. take t (drop n xs)) (omega arith)

-- the front of the buffer behind a move of its bytes
take-moved :
    (n m : ℕ) (xs : List ℕ) → n + m ≤ length xs → take m (moved n m xs) ≡ take m (drop n xs)
take-moved n m xs h =
    let e : length (take m (drop n xs)) ≡ m =
      length-take m (drop n xs) (omega (arith, length-drop {0} n xs)) in
    ap (λ t. take t (moved n m xs)) (sym e) ∙ take-length-append (take m (drop n xs)) (drop m xs)

length-moved : (n m : ℕ) (xs : List ℕ) → n + m ≤ length xs → length (moved n m xs) ≡ length xs
length-moved n m xs h = omega (
  arith,
  length-append {0} (take m (drop n xs)) (drop m xs),
  length-take m (drop n xs) (omega (arith, length-drop {0} n xs)),
  length-drop {0} m xs,
)

usart1_rx-queue :
    (u : Uart) (c : ℕ)
    → IsUart u
    → u.idx < 64
    → (u' : Uart) × (usart1_rx c false u ≡ done tt u')
      × IsUart u'
      × (u'.idx ≡ suc u.idx)
      × (queue u' ≡ queue u ++ c ∷ [])
unfolding usart1_rx
usart1_rx-queue u c (size, fits) room =
    let more : (u.idx == 64) ≡ false = ground arith in
    let inside : ltb u.idx (length u.uart0_buffer) ≡ true = ground arith in
    (
      record u { idx = suc u.idx; uart0_buffer = set u.uart0_buffer u.idx c },
      rw (more, inside) refl,
      (length-set u.uart0_buffer u.idx c ∙ size, omega arith),
      refl,
      take-set u.uart0_buffer u.idx c (omega arith),
    )

arrive-queue :
    (cs : List ℕ) (u : Uart)
    → IsUart u
    → u.idx + length cs ≤ 64
    → (u' : Uart) × (arrive cs u ≡ done tt u')
      × IsUart u'
      × (u'.idx ≡ u.idx + length cs)
      × (queue u' ≡ queue u ++ cs)
unfolding arrive
arrive-queue [] u ok fits = (u, refl, ok, omega arith, sym (append-nil (queue u)))
arrive-queue (c ∷ cs) u ok fits =
    let (v, run, ok', i, q) = usart1_rx-queue u c ok (omega arith) in
    let (w, runs, ok'', i', q') = arrive-queue cs v ok' (omega arith) in
    (
      w,
      rw (run) runs,
      ok'',
      omega arith,
      q' ∙ ap (λ t. t ++ cs) q ∙ append_assoc (queue u) (c ∷ []) cs,
    )

uart0_read-queue :
    (n : ℕ) (u : Uart)
    → IsUart u
    → n ≤ u.idx
    → (u' : Uart) × (uart0_read n u ≡ done (lf_success, take n (queue u)) u')
      × IsUart u'
      × (queue u' ≡ drop n (queue u))
unfolding uart0_read line_loop
uart0_read-queue n u (size, fits) h = elim (Bool-cases (ltb n u.idx)) [
  | inl less ↦
      let v : Uart = record u {
        idx = u.idx - n;
        uart0_buffer = moved n (u.idx - n) u.uart0_buffer;
      } in
      (
        v,
        rw (less) (ap (λ t. done (lf_success, t) v) (sym (take-take n u.idx u.uart0_buffer h))),
        (length-moved n (u.idx - n) u.uart0_buffer (omega arith) ∙ size, omega arith),
        take-moved n (u.idx - n) u.uart0_buffer (omega arith)
            ∙ sym (drop-take n u.idx u.uart0_buffer),
      )
  | inr all' ↦
      let e : u.idx ≡ n = ground arith in
      let none_left : n - u.idx ≡ 0 = omega arith in
      let empty : 0 ≡ u.idx - n = omega arith in
      let v : Uart = record u { idx = 0 } in
      (
        v,
        rw (all', none_left)
            (ap (λ t. done (lf_success, t) v)
              (append-nil (queue u)
                ∙ ap (λ t. take t u.uart0_buffer) e
                ∙ sym (take-take n u.idx u.uart0_buffer h))),
        (size, omega arith),
        ap (λ t. take t (drop n u.uart0_buffer)) empty ∙ sym (drop-take n u.idx u.uart0_buffer),
      )
]

-- After the interrupts of some bytes that fit in the buffer with the bytes that it holds, a read of no more than all
-- of them succeeds without waiting: it gives the first of them in the order in which they came, and leaves the others
-- in the buffer in that order.
pub uart0_read-arrive :
    (n : ℕ) (cs : List ℕ) (u : Uart)
    → IsUart u
    → u.idx + length cs ≤ 64
    → n ≤ u.idx + length cs
    → (u' : Uart) × ((arrive cs >> uart0_read n) u ≡ done (lf_success, take n (queue u ++ cs)) u')
      × IsUart u'
      × (queue u' ≡ drop n (queue u ++ cs))
uart0_read-arrive n cs u ok fits h =
    let (v, run, ok', i, q) = arrive-queue cs u ok fits in
    let (w, read, ok'', q') = uart0_read-queue n v ok' (omega arith) in
    (
      w,
      rw (run) (read ∙ ap (λ t. done (lf_success, take n t) w) q),
      ok'',
      q' ∙ ap (λ t. drop n t) q,
    )
