-- ===== src/Fdebug/Blocks.antt =====
-- utils/fdebug/src/main.c: who holds the mutex, and under which title the bytes stand.
use flipper.Prelude.{
  ◌≡◌, refl, sym, ap, ◌∙◌, List, [], ◌∷◌, ◌++◌, append-nil, Option, none, some, true, false,
}
use flipper.Fdebug.{
  Thread, usb, network, Event, Local, Print, Console, Moved, move, act, run, started,
}
use flipper.Fdebug.Moves.{
  is, other, holds, speaks, speaker, IsAttributed, speaker-append, append-IsAttributed, IsTimed,
  Kept, true-false, move-Kept, speaks-holds,
}

-- What holds of a console between two actions.
pub record Orderly (c : Console) : Type 0 where
  pub usb_mine : is usb c.lock ≡ holds c.on_usb
  pub network_mine : is network c.lock ≡ holds c.on_network
  pub usb_timed : IsTimed c.on_usb
  pub network_timed : IsTimed c.on_network
  pub attributed : IsAttributed none c.out
  pub usb_said : speaks c.on_usb ≡ true → speaker none c.out ≡ some usb
  pub network_said : speaks c.on_network ≡ true → speaker none c.out ≡ some network

-- the title of a thread that does not move
unchanged :
    (me : Thread) (lock : Option Thread) (l l' : Local) (m : Moved) (out : List Print)
    → Kept me lock l' m
    → is (other me) lock ≡ holds l
    → (speaks l ≡ true → speaker none out ≡ some (other me))
    → speaks l ≡ true
    → speaker none (out ++ m.out) ≡ some (other me)
unchanged me lock l l' m out k theirs said speaking =
    let free : is me lock ≡ false =
      excluded me lock (theirs ∙ speaks-holds l.timeout l.place speaking) in
    ap (λ t. speaker none (out ++ t)) (k.silent free)
    ∙ ap (speaker none) (append-nil out)
    ∙ said speaking
  where
    excluded : (me : Thread) (lock : Option Thread) → is (other me) lock ≡ true → is me lock ≡ false
    excluded usb (some usb) h = true-false (sym h)
    excluded usb (some network) h = refl
    excluded usb none h = refl
    excluded network (some usb) h = refl
    excluded network (some network) h = true-false (sym h)
    excluded network none h = refl

act-Orderly : (t : Thread) (e : Event) (c : Console) → Orderly c → Orderly (act t e c)
unfolding act
act-Orderly usb e c o =
    let m : Moved = move usb e c.lock c.on_usb in
    let k : Kept usb c.lock c.on_usb m =
      move-Kept usb e c.lock c.on_usb.timeout c.on_usb.place o.usb_mine o.usb_timed in
    let (printed, said) = k.attributed (speaker none c.out) o.usb_said in
    record {
      usb_mine = k.mine;
      network_mine = k.others ∙ o.network_mine;
      usb_timed = k.timed;
      network_timed = o.network_timed;
      attributed = append-IsAttributed none c.out m.out o.attributed printed;
      usb_said = λ speaking. speaker-append none c.out m.out ∙ said speaking;
      network_said =
          unchanged usb c.lock c.on_network c.on_usb m c.out k o.network_mine o.network_said;
    }
act-Orderly network e c o =
    let m : Moved = move network e c.lock c.on_network in
    let k : Kept network c.lock c.on_network m =
      move-Kept network e c.lock c.on_network.timeout c.on_network.place o.network_mine
        o.network_timed in
    let (printed, said) = k.attributed (speaker none c.out) o.network_said in
    record {
      usb_mine = k.others ∙ o.usb_mine;
      network_mine = k.mine;
      usb_timed = o.usb_timed;
      network_timed = k.timed;
      attributed = append-IsAttributed none c.out m.out o.attributed printed;
      usb_said = unchanged network c.lock c.on_usb c.on_network m c.out k o.usb_mine o.usb_said;
      network_said = λ speaking. speaker-append none c.out m.out ∙ said speaking;
    }

pub run-Orderly :
    (actions : List (Thread × Event)) (c : Console) → Orderly c → Orderly (run actions c)
unfolding run
run-Orderly [] c o = o
run-Orderly ((t, e) ∷ actions) c o = run-Orderly actions (act t e c) (act-Orderly t e c o)

pub started-Orderly : Orderly started
started-Orderly = record {
  usb_mine = refl;
  network_mine = refl;
  usb_timed = tt;
  network_timed = tt;
  attributed = tt;
  usb_said = λ no. true-false (sym no);
  network_said = λ no. true-false (sym no);
}

apart : (lock : Option Thread) → is usb lock ≡ true → is network lock ≡ false
apart (some usb) h = refl
apart (some network) h = true-false (sym h)
apart none h = refl

-- Whatever the two threads read, and in whichever order they act from the start of the program on, at most one of them is
-- behind pthread_mutex_lock at a time, and every byte that is printed stands below the title of the thread that
-- printed it, with no other title between them.
pub run-IsAttributed :
    (actions : List (Thread × Event))
    → let c : Console = run actions started in
      (holds c.on_usb ≡ true → holds c.on_network ≡ false) × IsAttributed none c.out
run-IsAttributed actions =
    let o = run-Orderly actions started started-Orderly in
    (λ has. sym o.network_mine ∙ apart (run actions started).lock (o.usb_mine ∙ has), o.attributed)
