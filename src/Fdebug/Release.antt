-- ===== src/Fdebug/Release.antt =====
-- utils/fdebug/src/main.c: a thread that waits for the mutex, and one that reads nothing more.
use flipper.Prelude.{
  ℕ, zero, suc, ◌+◌, ◌≤◌, ◌≡◌, refl, sym, ap, ◌∙◌, List, [], ◌∷◌, none, some, true, false, length,
  replicate, ◌==◌, arith,
}
use flipper.Fdebug.{
  Thread, usb, network, Event, quiet, bytes, Place, reading, received, titling, testing, printing,
  Local, Console, move, act, run, started,
}
use flipper.Fdebug.Moves.{is, other, holds, IsTimed}
use flipper.Fdebug.Blocks.{Orderly, run-Orderly, started-Orderly}
use flipper.Fdebug.Bytes.{pending, local}

abbrev pub quietly : ℕ → Thread → Console → Console
quietly n t c = run (replicate n (t, quiet)) c

act-lock :
    (t : Thread) (e : Event) (c : Console) → (act t e c).lock ≡ (move t e c.lock (local t c)).lock
unfolding act
act-lock usb e c = refl
act-lock network e c = refl

act-local :
    (t : Thread) (e : Event) (c : Console)
    → local t (act t e c) ≡ (move t e c.lock (local t c)).local
unfolding act
act-local usb e c = refl
act-local network e c = refl

act-other : (t : Thread) (e : Event) (c : Console) → local (other t) (act t e c) ≡ local (other t) c
unfolding act
act-other usb e c = refl
act-other network e c = refl

quietly-other :
    (n : ℕ) (t : Thread) (c : Console) → local (other t) (quietly n t c) ≡ local (other t) c
unfolding run
quietly-other zero t c = refl
quietly-other (suc n) t c = quietly-other n t (act t quiet c) ∙ act-other t quiet c

-- at most `k` actions until the mutex is unlocked
abbrev Frees : ℕ → Thread → Console → Type 0
Frees k t c = (n : ℕ) × (n ≤ k) × ((quietly n t c).lock ≡ none)

later : (k : ℕ) (t : Thread) (c : Console) → Frees k t (act t quiet c) → Frees (suc k) t c
unfolding run
later k t c (n, few, free) = (suc n, omega arith, free)

more : (k k' : ℕ) (t : Thread) (c : Console) → k ≤ k' → Frees k t c → Frees k' t c
more k k' t c le (n, few, free) = (n, omega arith, free)

module _ (t : Thread) where
  moves :
      (c : Console) (l : Local)
      → local t c ≡ l
      → local t (act t quiet c) ≡ (move t quiet c.lock l).local
  moves c l here = act-local t quiet c ∙ ap (λ x. (move t quiet c.lock x).local) here

  tested :
      (c : Console) (timeout : ℕ)
      → local t c ≡ record { timeout = timeout; place = testing quiet }
      → Frees 1 t c
  unfolding run move
  tested c timeout here =
      (1, omega arith, act-lock t quiet c ∙ ap (λ x. (move t quiet c.lock x).lock) here)

  late :
      (c : Console) (timeout : ℕ) (e : Event)
      → (timeout == 0) ≡ false
      → local t c ≡ record { timeout = timeout; place = received e }
      → local t (act t quiet c) ≡ record { timeout = timeout; place = testing e }
  unfolding move
  late c timeout e timed here =
      moves c (record { timeout = timeout; place = received e }) here ∙ rw (timed) refl

  heard_nothing :
      (c : Console) (timeout : ℕ)
      → (timeout == 0) ≡ false
      → local t c ≡ record { timeout = timeout; place = received quiet }
      → Frees 2 t c
  heard_nothing c timeout timed here =
      later 1 t c (tested (act t quiet c) timeout (late c timeout quiet timed here))

  listens :
      (c : Console) (timeout : ℕ)
      → (timeout == 0) ≡ false
      → local t c ≡ record { timeout = timeout; place = reading }
      → Frees 3 t c
  unfolding move
  listens c timeout timed here = later 2 t c (
      heard_nothing (act t quiet c) timeout timed
        (moves c (record { timeout = timeout; place = reading }) here))

  prints :
      (c : Console) (timeout : ℕ) (bs : List ℕ)
      → (timeout == 0) ≡ false
      → local t c ≡ record { timeout = timeout; place = printing bs }
      → Frees (length bs + 4) t c
  unfolding move
  prints c timeout [] timed here = later 3 t c (
      listens (act t quiet c) timeout timed
        (moves c (record { timeout = timeout; place = printing [] }) here))
  prints c timeout (b ∷ bs) timed here =
      more (suc (length bs + 4)) (suc (length bs) + 4) t c (omega arith) (
        later (length bs + 4) t c (
          prints (act t quiet c) timeout bs timed
            (moves c (record { timeout = timeout; place = printing (b ∷ bs) }) here)))

  tests :
      (c : Console) (timeout : ℕ) (e : Event)
      → local t c ≡ record { timeout = timeout; place = testing e }
      → Frees (length (pending (record { timeout = timeout; place = testing e })) + 5) t c
  unfolding move
  tests c timeout quiet here = more 1 5 t c (omega arith) (tested c timeout here)
  tests c timeout (bytes bs) here = more (suc (length bs + 4)) (length bs + 5) t c (omega arith) (
      later (length bs + 4) t c (
        prints (act t quiet c) 5 bs refl
          (moves c (record { timeout = timeout; place = testing (bytes bs) }) here)))

  -- what a place of a thread needs
  frees :
      (c : Console) (timeout : ℕ) (place : Place)
      → let l : Local = record { timeout = timeout; place = place } in
        local t c ≡ l → holds l ≡ true → IsTimed l → Frees (length (pending l) + 6) t c
  unfolding move
  frees c timeout reading here has timed =
      let late_yet : (timeout == 0) ≡ false = ground arith in
      more 3 6 t c (omega arith) (listens c timeout late_yet here)
  frees c timeout (received e) here has timed =
      let late_yet : (timeout == 0) ≡ false = ground arith in
      let k = length (pending (record { timeout = timeout; place = testing e })) in
      more (suc (k + 5)) (k + 6) t c (omega arith)
        (later (k + 5) t c (tests (act t quiet c) timeout e (late c timeout e late_yet here)))
  frees c timeout (titling e) here has timed =
      let k = length (pending (record { timeout = timeout; place = testing e })) in
      more (suc (k + 5)) (k + 6) t c (omega arith) (
        later (k + 5) t c (
          tests (act t quiet c) timeout e
            (moves c (record { timeout = timeout; place = titling e }) here)))
  frees c timeout (testing e) here has timed =
      let k = length (pending (record { timeout = timeout; place = testing e })) in
      more (k + 5) (k + 6) t c (omega arith) (tests c timeout e here)
  frees c timeout (printing bs) here has timed =
      more (length bs + 4) (length bs + 6) t c (omega arith) (prints c timeout bs timed here)

mine : (t : Thread) (c : Console) → Orderly c → is t c.lock ≡ true → holds (local t c) ≡ true
mine usb c o has = sym o.usb_mine ∙ has
mine network c o has = sym o.network_mine ∙ has

timed : (t : Thread) (c : Console) → Orderly c → IsTimed (local t c)
timed usb c o = o.usb_timed
timed network c o = o.network_timed

is-me : (t : Thread) → is t (some t) ≡ true
is-me usb = refl
is-me network = refl

-- In a run from the start of the program, let a thread have the mutex, and let the other one wait for it. If
-- the first thread reads nothing more, then after at most six actions of it more than it has bytes to
-- print, the next action of the other thread gives it the mutex.
pub quietly-serves :
    (t : Thread) (actions : List (Thread × Event)) (e : Event)
    → let c : Console = run actions started in
      is t c.lock ≡ true
      → local (other t) c ≡ record { timeout = 0; place = received e }
      → (n : ℕ) × (n ≤ length (pending (local t c)) + 6)
        × (is (other t) (act (other t) quiet (quietly n t c)).lock ≡ true)
unfolding move
quietly-serves t actions e has waits =
    let c : Console = run actions started in
    let o : Orderly c = run-Orderly actions started started-Orderly in
    let l = local t c in
    let (n, few, free) = frees t c l.timeout l.place refl (mine t c o has) (timed t c o) in
    let still : local (other t) (quietly n t c) ≡ record { timeout = 0; place = received e } =
      quietly-other n t c ∙ waits in
    (
      n,
      few,
      ap (is (other t)) (
            act-lock (other t) quiet (quietly n t c)
            ∙ ap (λ x. (move (other t) quiet (quietly n t c).lock x).lock) still
            ∙ ap (λ x. (move (other t) quiet x (record { timeout = 0; place = received e })).lock)
                free)
          ∙ is-me (other t),
    )
