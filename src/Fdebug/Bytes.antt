-- ===== src/Fdebug/Bytes.antt =====
-- utils/fdebug/src/main.c: what is printed, by what was read.
use flipper.Prelude.{
  ℕ, ◌≡◌, refl, sym, ap, ◌∙◌, List, [], ◌∷◌, ◌++◌, append-nil, append_assoc, Option, none, some,
  Bool-cases, inl, inr, ◌==◌,
}
use flipper.Fdebug.{
  Thread, usb, network, Event, quiet, bytes, Place, reading, received, titling, testing, printing,
  Local, Print, title, char, Console, Moved, acquire, move, act, run, started,
}
use flipper.Fdebug.Moves.{other}

abbrev pub content : Event → List ℕ
content quiet = []
content (bytes bs) = bs

-- the bytes that a thread has still to print
abbrev pub pending : Local → List ℕ
pending l = elim l.place [
  | reading ↦ []
  | received e ↦ content e
  | titling e ↦ content e
  | testing e ↦ content e
  | printing bs ↦ bs
]

-- what the call of an action leaves to be printed
abbrev pub heard : Event → Local → List ℕ
heard e l = elim l.place [
  | reading ↦ content e
  | received r ↦ []
  | titling r ↦ []
  | testing r ↦ []
  | printing bs ↦ []
]

-- the bytes that a thread has printed
abbrev pub said : Thread → List Print → List ℕ
said t [] = []
said t (title u ∷ ps) = said t ps
said usb (char usb b ∷ ps) = b ∷ said usb ps
said usb (char network b ∷ ps) = said usb ps
said network (char usb b ∷ ps) = said network ps
said network (char network b ∷ ps) = b ∷ said network ps

abbrev pub local : Thread → Console → Local
local usb c = c.on_usb
local network c = c.on_network

-- what the calls of a thread leave to be printed in a run
abbrev pub heard_in : Thread → List (Thread × Event) → Console → List ℕ
heard_in t [] c = []
heard_in usb ((usb, e) ∷ actions) c = heard e c.on_usb ++ heard_in usb actions (act usb e c)
heard_in usb ((network, e) ∷ actions) c = heard_in usb actions (act network e c)
heard_in network ((usb, e) ∷ actions) c = heard_in network actions (act usb e c)
heard_in network ((network, e) ∷ actions) c =
    heard e c.on_network ++ heard_in network actions (act network e c)

said-append : (t : Thread) (ps qs : List Print) → said t (ps ++ qs) ≡ said t ps ++ said t qs
said-append t [] qs = refl
said-append t (title u ∷ ps) qs = said-append t ps qs
said-append usb (char usb b ∷ ps) qs = ap (λ x. b ∷ x) (said-append usb ps qs)
said-append usb (char network b ∷ ps) qs = said-append usb ps qs
said-append network (char usb b ∷ ps) qs = said-append network ps qs
said-append network (char network b ∷ ps) qs = ap (λ x. b ∷ x) (said-append network ps qs)

said-char : (t : Thread) (b : ℕ) (ps : List Print) → said t (char t b ∷ ps) ≡ b ∷ said t ps
said-char usb b ps = refl
said-char network b ps = refl

-- One action: what is printed and what waits, by what waited and what is read.
abbrev Passed : Thread → Event → Local → Moved → Type 0
Passed me e l m = said me m.out ++ pending m.local ≡ pending l ++ heard e l

acquire-pending :
    (me : Thread) (e r : Event) (lock : Option Thread) (timeout : ℕ)
    → let l : Local = record { timeout = timeout; place = received r } in
      Passed me e l (acquire me r lock l)
acquire-pending me e r none timeout = sym (append-nil (content r))
acquire-pending me e r (some t) timeout = sym (append-nil (content r))

move-said :
    (me : Thread) (e : Event) (lock : Option Thread) (timeout : ℕ) (place : Place)
    → let l : Local = record { timeout = timeout; place = place } in
      Passed me e l (move me e lock l)
unfolding move
move-said me e lock timeout reading = refl
move-said me e lock timeout (received r) = elim (Bool-cases (timeout == 0)) [
  | inl none_yet ↦ rw (none_yet) (acquire-pending me e r lock timeout)
  | inr late ↦ rw (late) (sym (append-nil (content r)))
]
move-said me e lock timeout (titling r) = sym (append-nil (content r))
move-said me e lock timeout (testing quiet) = refl
move-said me e lock timeout (testing (bytes bs)) = sym (append-nil bs)
move-said me e lock timeout (printing []) = refl
move-said me e lock timeout (printing (b ∷ bs)) =
    ap (λ x. x ++ bs) (said-char me b []) ∙ sym (append-nil (b ∷ bs))

acquire-others :
    (me : Thread) (r : Event) (lock : Option Thread) (l : Local)
    → said (other me) (acquire me r lock l).out ≡ []
acquire-others me r none l = refl
acquire-others me r (some t) l = refl

-- A thread prints no bytes of the other one.
move-others :
    (me : Thread) (e : Event) (lock : Option Thread) (timeout : ℕ) (place : Place)
    → said (other me) (move me e lock (record { timeout = timeout; place = place })).out ≡ []
unfolding move
move-others me e lock timeout reading = refl
move-others me e lock timeout (received r) = elim (Bool-cases (timeout == 0)) [
  | inl none_yet ↦
      rw (none_yet) (acquire-others me r lock (record { timeout = timeout; place = received r }))
  | inr late ↦ rw (late) refl
]
move-others me e lock timeout (titling r) = refl
move-others me e lock timeout (testing quiet) = refl
move-others me e lock timeout (testing (bytes bs)) = refl
move-others me e lock timeout (printing []) = refl
move-others usb e lock timeout (printing (b ∷ bs)) = refl
move-others network e lock timeout (printing (b ∷ bs)) = refl

-- the bytes of the thread that acts, and those of the other one
mine :
    (me : Thread) (e : Event) (l : Local) (m : Moved) (out : List Print)
    → Passed me e l m
    → said me (out ++ m.out) ++ pending m.local ≡ (said me out ++ pending l) ++ heard e l
mine me e l m out passed =
    ap (λ x. x ++ pending m.local) (said-append me out m.out)
    ∙ append_assoc (said me out) (said me m.out) (pending m.local)
    ∙ ap (λ x. said me out ++ x) passed
    ∙ sym (append_assoc (said me out) (pending l) (heard e l))

others :
    (me : Thread) (l : Local) (m : Moved) (out : List Print)
    → said (other me) m.out ≡ []
    → said (other me) (out ++ m.out) ++ pending l ≡ said (other me) out ++ pending l
others me l m out silent =
    ap (λ x. x ++ pending l)
      (said-append (other me) out m.out
        ∙ ap (λ x. said (other me) out ++ x) silent
        ∙ append-nil (said (other me) out))

run-said :
    (t : Thread) (actions : List (Thread × Event)) (c : Console)
    → said t (run actions c).out ++ pending (local t (run actions c))
      ≡ (said t c.out ++ pending (local t c)) ++ heard_in t actions c
unfolding run act
run-said t [] c = sym (append-nil (said t c.out ++ pending (local t c)))
run-said usb ((usb, e) ∷ actions) c =
    let l = c.on_usb in
    run-said usb actions (act usb e c)
    ∙ ap (λ x. x ++ heard_in usb actions (act usb e c))
        (mine usb e l (move usb e c.lock l) c.out (move-said usb e c.lock l.timeout l.place))
    ∙ append_assoc (said usb c.out ++ pending l) (heard e l) (heard_in usb actions (act usb e c))
run-said usb ((network, e) ∷ actions) c =
    let l = c.on_network in
    run-said usb actions (act network e c)
    ∙ ap (λ x. x ++ heard_in usb actions (act network e c))
        (others network c.on_usb (move network e c.lock l) c.out
          (move-others network e c.lock l.timeout l.place))
run-said network ((usb, e) ∷ actions) c =
    let l = c.on_usb in
    run-said network actions (act usb e c)
    ∙ ap (λ x. x ++ heard_in network actions (act usb e c))
        (others usb c.on_network (move usb e c.lock l) c.out
          (move-others usb e c.lock l.timeout l.place))
run-said network ((network, e) ∷ actions) c =
    let l = c.on_network in
    run-said network actions (act network e c)
    ∙ ap (λ x. x ++ heard_in network actions (act network e c))
        (mine network e l (move network e c.lock l) c.out
          (move-said network e c.lock l.timeout l.place))
    ∙ append_assoc (said network c.out ++ pending l) (heard e l)
        (heard_in network actions (act network e c))

-- Whatever the calls of the threads leave to be printed, and in whichever order the threads act from the start of the program
-- on, the bytes that a thread has printed, followed by those that it has still to print, are those that its calls have
-- left, in order.
pub run-heard_in :
    (t : Thread) (actions : List (Thread × Event))
    → said t (run actions started).out ++ pending (local t (run actions started))
      ≡ heard_in t actions started
run-heard_in usb actions = run-said usb actions started
run-heard_in network actions = run-said network actions started
