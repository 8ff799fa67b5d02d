-- ===== src/Fdebug/Moves.antt =====
-- utils/fdebug/src/main.c: one action of a thread, and what it keeps.
use flipper.Prelude.{
  ℕ, ◌≡◌, refl, sym, ap, ◌∙◌, List, [], ◌∷◌, ◌++◌, Option, none, some, Bool, true, false, not, ◌==◌,
  Bool-cases, inl, inr, arith,
}
use flipper.Fdebug.{
  Thread, usb, network, Event, quiet, bytes, Place, reading, received, titling, testing, printing,
  Local, Print, title, char, Moved, acquire, move,
}

abbrev pub is : Thread → Option Thread → Bool
is usb (some usb) = true
is network (some network) = true
is t _ = false

abbrev pub other : Thread → Thread
other usb = network
other network = usb

-- whether a thread has the mutex, by its place: before the lock, where its timeout is not 0
abbrev pub holds : Local → Bool
holds l = elim l.place [
  | reading ↦ not (l.timeout == 0)
  | received e ↦ not (l.timeout == 0)
  | titling e ↦ true
  | testing e ↦ true
  | printing bs ↦ true
]

-- whether the last title is that of the thread
abbrev pub speaks : Local → Bool
speaks l = elim l.place [
  | reading ↦ not (l.timeout == 0)
  | received e ↦ not (l.timeout == 0)
  | titling e ↦ false
  | testing e ↦ true
  | printing bs ↦ true
]

-- the thread of the last title
abbrev pub speaker : Option Thread → List Print → Option Thread
speaker now [] = now
speaker now (title t ∷ ps) = speaker (some t) ps
speaker now (char t b ∷ ps) = speaker now ps

-- Each byte stands below the title of its thread, with no other title between them.
abbrev pub IsAttributed : Option Thread → List Print → Type 0
IsAttributed now [] = Unit {0}
IsAttributed now (title t ∷ ps) = IsAttributed (some t) ps
IsAttributed now (char t b ∷ ps) = (now ≡ some t) × IsAttributed now ps

pub speaker-append :
    (now : Option Thread) (ps qs : List Print)
    → speaker now (ps ++ qs) ≡ speaker (speaker now ps) qs
speaker-append now [] qs = refl
speaker-append now (title t ∷ ps) qs = speaker-append (some t) ps qs
speaker-append now (char t b ∷ ps) qs = speaker-append now ps qs

pub append-IsAttributed :
    (now : Option Thread) (ps qs : List Print)
    → IsAttributed now ps
    → IsAttributed (speaker now ps) qs
    → IsAttributed now (ps ++ qs)
append-IsAttributed now [] qs h h' = h'
append-IsAttributed now (title t ∷ ps) qs h h' = append-IsAttributed (some t) ps qs h h'
append-IsAttributed now (char t b ∷ ps) qs (e, h) h' = (e, append-IsAttributed now ps qs h h')

-- A thread that prints bytes has a timeout.
abbrev pub IsTimed : Local → Type 0
IsTimed l = elim l.place [
  | reading ↦ Unit {0}
  | received e ↦ Unit {0}
  | titling e ↦ Unit {0}
  | testing e ↦ Unit {0}
  | printing bs ↦ (l.timeout == 0) ≡ false
]

-- What an action of `me` keeps: who has the mutex, and what is printed by whom.
pub record Kept (me : Thread) (lock : Option Thread) (l : Local) (m : Moved) : Type 0 where
  pub mine : is me m.lock ≡ holds m.local
  pub others : is (other me) m.lock ≡ is (other me) lock
  pub timed : IsTimed m.local
  pub silent : is me lock ≡ false → m.out ≡ []
  pub attributed :
      (now : Option Thread)
      → (speaks l ≡ true → now ≡ some me)
      → IsAttributed now m.out × (speaks m.local ≡ true → speaker now m.out ≡ some me)

unlocked :
    (me : Thread) (lock : Option Thread)
    → is me lock ≡ true
    → is (other me) none ≡ is (other me) lock
unlocked usb (some usb) h = refl
unlocked usb (some network) h = ground arith
unlocked usb none h = refl
unlocked network (some network) h = refl
unlocked network (some usb) h = ground arith
unlocked network none h = refl

is-me : (me : Thread) → is me (some me) ≡ true
is-me usb = refl
is-me network = refl

is-other : (me : Thread) → is (other me) (some me) ≡ is (other me) none
is-other usb = refl
is-other network = refl

is-none : (me : Thread) → is me none ≡ false
is-none usb = refl
is-none network = refl

pub true-false : {A : Type 0} → true ≡ false → A
true-false h = ground arith

acquire-Kept :
    (me : Thread) (e : Event) (lock : Option Thread) (timeout : ℕ)
    → (timeout == 0) ≡ true
    → is me lock ≡ not (timeout == 0)
    → let l : Local = record { timeout = timeout; place = received e } in
      Kept me lock l (acquire me e lock l)
acquire-Kept me e none timeout none_yet h = record {
  mine = is-me me;
  others = is-other me;
  timed = tt;
  silent = λ _. refl;
  attributed = λ now said. (tt, λ no. true-false (sym no));
}
acquire-Kept me e (some t) timeout none_yet h = record {
  mine = h;
  others = refl;
  timed = tt;
  silent = λ _. refl;
  attributed = λ now said. (tt, said);
}

-- an action that keeps the mutex and prints nothing
still :
    (me : Thread) (lock : Option Thread) (l l' : Local)
    → is me lock ≡ holds l'
    → IsTimed l'
    → (speaks l' ≡ true → speaks l ≡ true)
    → Kept me lock l (record { lock = lock; local = l'; out = [] })
still me lock l l' h timed same = record {
  mine = h;
  others = refl;
  timed = timed;
  silent = λ _. refl;
  attributed = λ now said. (tt, λ speaking. said (same speaking));
}

pub move-Kept :
    (me : Thread) (e : Event) (lock : Option Thread) (timeout : ℕ) (place : Place)
    → let l : Local = record { timeout = timeout; place = place } in
      is me lock ≡ holds l → IsTimed l → Kept me lock l (move me e lock l)
unfolding move
move-Kept me e lock timeout reading h timed =
    still me lock (record { timeout = timeout; place = reading })
      (record { timeout = timeout; place = received e }) h tt (λ same. same)
move-Kept me e lock timeout (received r) h timed = elim (Bool-cases (timeout == 0)) [
  | inl none_yet ↦ rw (none_yet) (acquire-Kept me r lock timeout none_yet h)
  | inr late ↦ rw (late) (
      still me lock (record { timeout = timeout; place = received r })
        (record { timeout = timeout; place = testing r }) (h ∙ ap not late) tt (λ _. ap not late))
]
move-Kept me e lock timeout (titling r) h timed = record {
  mine = h;
  others = refl;
  timed = tt;
  silent = λ no. true-false (sym h ∙ no);
  attributed = λ now said. (tt, λ _. refl);
}
move-Kept me e lock timeout (testing quiet) h timed = record {
  mine = is-none me;
  others = unlocked me lock h;
  timed = tt;
  silent = λ _. refl;
  attributed = λ now said. (tt, λ no. true-false (sym no));
}
move-Kept me e lock timeout (testing (bytes bs)) h timed =
    still me lock (record { timeout = timeout; place = testing (bytes bs) })
      (record { timeout = 5; place = printing bs }) h refl (λ same. same)
move-Kept me e lock timeout (printing []) h timed =
    still me lock (record { timeout = timeout; place = printing [] })
      (record { timeout = timeout; place = reading }) (h ∙ sym (ap not timed)) tt (λ _. refl)
move-Kept me e lock timeout (printing (b ∷ bs)) h timed = record {
  mine = h;
  others = refl;
  timed = timed;
  silent = λ no. true-false (sym h ∙ no);
  attributed = λ now said. ((said refl, tt), said);
}

pub speaks-holds :
    (timeout : ℕ) (place : Place)
    → let l : Local = record { timeout = timeout; place = place } in
      speaks l ≡ true → holds l ≡ true
speaks-holds timeout reading h = h
speaks-holds timeout (received e) h = h
speaks-holds timeout (titling e) h = refl
speaks-holds timeout (testing e) h = refl
speaks-holds timeout (printing bs) h = refl
