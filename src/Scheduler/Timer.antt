-- ===== src/Scheduler/Timer.antt =====
-- os/arch/armv7/scheduler.c: the ring of tasks from the current one on, under the ticks of the timer.
use flipper.Prelude.{
  ℕ, zero, suc, ◌<◌, ◌≡◌, refl, sym, ap, ◌∙◌, ◌≢◌, ◌⊎◌, inl, inr, List, [], ◌∷◌, ◌++◌, Option, some,
  true, false, length, length-append, arith, ◌==◌, ◌||◌, Bool-cases, All,
}
use mathlib.Core.Path.{subst}
use flipper.Prelude.Outcome.{done}
use flipper.Scheduler.{
  Task, Schedule, idle, active, is_paused, update, set_status, skip_paused, os_task_next,
  systick_exception, os_update_task_pointers,
}
use flipper.Scheduler.Ring.{first, has, IsLinked, load-done, update_other, update_self}
use flipper.Scheduler.Rotation.{ticks, Kept-update, IsLinked-Kept, IsAwake}

-- No address of the first list is one of the second.
abbrev Apart : List ℕ → List ℕ → Type 0
Apart xs ys = All (λ a. has a ys ≡ false) xs

has-append : (a : ℕ) (xs ys : List ℕ) → has a (xs ++ ys) ≡ (has a xs || has a ys)
has-append a [] ys = refl
has-append a (x ∷ xs) ys = ground (arith, has-append a xs ys)

first-append : (stop : ℕ) (xs ys : List ℕ) → first stop (xs ++ ys) ≡ first (first stop ys) xs
first-append stop [] ys = refl
first-append stop (x ∷ xs) ys = refl

-- A chain is cut in two that have no task in common, and joined of two such.
cut :
    (tasks : ℕ → Option Task) (stop : ℕ) (xs ys : List ℕ)
    → IsLinked tasks stop (xs ++ ys)
    → IsLinked tasks (first stop ys) xs × IsLinked tasks stop ys × Apart xs ys
cut tasks stop [] ys ln = (tt, ln, tt)
cut tasks stop (x ∷ xs) ys (ne, (t, e, n), out, rest) =
    let (front, back, apart) = cut tasks stop xs ys rest in
    let neither = has-append x xs ys in
    (
      (ne, (t, e, n ∙ first-append stop xs ys), ground (arith, neither), front),
      back,
      (ground (arith, neither), apart),
    )

join :
    (tasks : ℕ → Option Task) (stop : ℕ) (xs ys : List ℕ)
    → IsLinked tasks (first stop ys) xs
    → IsLinked tasks stop ys
    → Apart xs ys
    → IsLinked tasks stop (xs ++ ys)
join tasks stop [] ys front back apart = back
join tasks stop (x ∷ xs) ys (ne, (t, e, n), out, rest) back (here, apart) = (
  ne,
  (t, e, n ∙ sym (first-append stop xs ys)),
  ground (arith, has-append x xs ys),
  join tasks stop xs ys rest back apart,
)

Apart-cons : (y : ℕ) (xs ys : List ℕ) → Apart xs (y ∷ ys) → (has y xs ≡ false) × Apart xs ys
Apart-cons y [] ys apart = (refl, tt)
Apart-cons y (x ∷ xs) ys (here, apart) =
    let (out, rest) = Apart-cons y xs ys apart in (ground arith, (ground arith, rest))

Apart-sym : (xs ys : List ℕ) → Apart xs ys → Apart ys xs
Apart-sym xs [] apart = tt
Apart-sym xs (y ∷ ys) apart =
    let (out, rest) = Apart-cons y xs ys apart in (out, Apart-sym xs ys rest)

-- The same ring from another of its tasks on.
rotated :
    (tasks : ℕ → Option Task) (c w : ℕ) (xs ys : List ℕ)
    → IsLinked tasks c ((c ∷ xs) ++ (w ∷ ys))
    → IsLinked tasks w ((w ∷ ys) ++ (c ∷ xs))
rotated tasks c w xs ys ln =
    let (front, back, apart) = cut tasks c (c ∷ xs) (w ∷ ys) ln in
    join tasks w (w ∷ ys) (c ∷ xs) back front (Apart-sym (c ∷ xs) (w ∷ ys) apart)

-- The search stops at the goal, or at a task of the chain.
skip_paused-split :
    (fuel : ℕ) (s : Schedule) (stop : ℕ) (ps : List ℕ)
    → IsLinked s.tasks stop ps
    → IsAwake s.tasks stop
    → length ps < fuel
    → (w : ℕ) × (skip_paused fuel (first stop ps) s ≡ done w s)
      × IsAwake s.tasks w
      × ((w ≡ stop) ⊎ ((xs : List ℕ) × (ys : List ℕ) × (ps ≡ xs ++ (w ∷ ys))))
unfolding skip_paused
skip_paused-split zero s stop ps ln goal enough = absurd (omega arith)
skip_paused-split (suc fuel) s stop [] ln (ne, (t, e, w)) enough =
    (stop, rw (load-done s stop t ne e, w) refl, (ne, (t, e, w)), inl refl)
skip_paused-split (suc fuel) s stop (p ∷ ps) (ne, (t, e, n), out, rest) goal enough =
    elim (Bool-cases (is_paused t.status)) [
      | inr awake ↦
          (p, rw (load-done s p t ne e, awake) refl, (ne, (t, e, awake)), inr ([], ps, refl))
      | inl asleep ↦
          let (w, run, awake, where_) = skip_paused-split fuel s stop ps rest goal (omega arith) in
          (
            w,
            rw (load-done s p t ne e, asleep, n) run,
            awake,
            elim where_ [
              | inl at ↦ inl at
              | inr (xs, ys, split) ↦ inr (p ∷ xs, ys, ap (λ l. p ∷ l) split)
            ],
          )
    ]

-- A task that is paused, in both states, and is not at the address.
abbrev IsPassed : (tasks tasks' : ℕ → Option Task) → (w p : ℕ) → Type 0
IsPassed tasks tasks' w p =
    (t : Task) → tasks p ≡ some t → is_paused t.status ≡ true → (p ≢ w) × (tasks' p ≡ some t)

-- The tasks are a ring from the current one on.
abbrev pub IsCycle : Schedule → List ℕ → Type 0
IsCycle s qs = IsLinked s.tasks s.current (s.current ∷ qs)

-- What a tick leaves: the next task is one of the ring, and a task that was paused is not it, but for the current one.
record Switched (fuel : ℕ) (s : Schedule) (qs : List ℕ) : Type 0 where
  s' : Schedule
  qs' : List ℕ
  run : os_task_next fuel s ≡ done tt s'
  cycle : IsLinked s'.tasks s'.next (s'.next ∷ qs')
  as_many : length qs' ≡ length qs
  passed : (p : ℕ) → p ≢ s.current → IsPassed s.tasks s'.tasks s'.next p

awake-passed :
    (tasks : ℕ → Option Task) (w p : ℕ) (t u : Task)
    → tasks w ≡ some u
    → is_paused u.status ≡ false
    → tasks p ≡ some t
    → is_paused t.status ≡ true
    → (p == w) ≡ false
awake-passed tasks w p t u eu awake et asleep = elim (Bool-cases (p == w)) [
  | inr other ↦ other
  | inl same ↦
      let same' : p ≡ w = ground arith in
      let eq : some t ≡ some u = sym et ∙ ap tasks same' ∙ eu in
      let eq' : t ≡ u = cc in
      absurd (let no : is_paused t.status ≡ false = ap (λ x. is_paused x.status) eq' ∙ awake in cc)
]

tick :
    (fuel : ℕ) (s : Schedule) (qs : List ℕ) → IsCycle s qs → length qs < fuel → Switched fuel s qs
unfolding os_task_next set_status
tick fuel s qs (ne, (t, e, n), out, rest) enough =
    let c = s.current in
    let running : (c == 0) ≡ false = ground arith in
    let t1 : Task = record t { status = idle } in
    let tasks1 = update s.tasks c (some t1) in
    let at1 = update_self s.tasks c (some t1) in
    let kept1 = Kept-update s.tasks c t idle e refl in
    let linked1 = IsLinked-Kept s.tasks tasks1 c (c ∷ qs) kept1 (ne, (t, e, n), out, rest) in
    let s1 : Schedule = record s { tasks = tasks1 } in
    let s2 : Schedule = record s1 { next = t.next } in
    let (w, skipped, (wn, (u, eu, awake)), where_) =
      skip_paused-split fuel s2 c qs (linked1.3) (ne, (t1, at1, refl)) enough in
    let skipped' : skip_paused fuel t.next s2 ≡ done w s2 =
      ap (λ x. skip_paused fuel x s2) n ∙ skipped in
    let kept2 = Kept-update tasks1 w u active eu refl in
    let tasks2 = update tasks1 w (some (record u { status = active })) in
    let (qs', linked2, as_many) = turned tasks1 c w qs linked1 where_ in
    record {
      s' = record s { tasks = tasks2; next = w; pending = true };
      qs' = qs';
      run =
          rw
            (
              running,
              load-done s c t ne e,
              load-done s1 c t1 ne at1,
              skipped',
              load-done (record s2 { next = w }) w u wn eu,
            )
            refl;
      cycle = IsLinked-Kept tasks1 tasks2 w (w ∷ qs') kept2 linked2;
      as_many = as_many;
      passed = λ p other v ev asleep.
          let apart : (p == c) ≡ false = ground arith in
          let there : tasks1 p ≡ some v = update_other s.tasks c p (some t1) apart ∙ ev in
          let apart' = awake-passed tasks1 w p v u eu awake there asleep in
          (
            ground arith,
            update_other tasks1 w p (some (record u { status = active })) apart' ∙ there,
          );
    }
  where
    turned :
        (tasks : ℕ → Option Task) (c w : ℕ) (qs : List ℕ)
        → IsLinked tasks c (c ∷ qs)
        → ((w ≡ c) ⊎ ((xs : List ℕ) × (ys : List ℕ) × (qs ≡ xs ++ (w ∷ ys))))
        → (qs' : List ℕ) × IsLinked tasks w (w ∷ qs') × (length qs' ≡ length qs)
    turned tasks c w qs ln (inl at) = (qs, subst (λ x. IsLinked tasks x (x ∷ qs)) (sym at) ln, refl)
    turned tasks c w qs ln (inr (xs, ys, split)) = (
      ys ++ (c ∷ xs),
      rotated tasks c w xs ys (subst (λ l. IsLinked tasks c (c ∷ l)) split ln),
      omega (arith, ap length split, length-append {0} ys (c ∷ xs), length-append {0} xs (w ∷ ys)),
    )

-- While the tasks are a ring from the current one on, of no more tasks than the fuel of the search, any number of
-- ticks with the switches that they queue ends, without a fault, in such a ring of as many tasks. A task that was paused and not the
-- current one is as it was, and is not the current one.
pub ticks-IsCycle :
    (count fuel : ℕ) (s : Schedule) (qs : List ℕ)
    → IsCycle s qs
    → length qs < fuel
    → (s' : Schedule) × (qs' : List ℕ) × (ticks fuel count s ≡ done tt s')
      × IsCycle s' qs'
      × (length qs' ≡ length qs)
      × ((p : ℕ) (t : Task)
          → p ≢ s.current
          → s.tasks p ≡ some t
          → is_paused t.status ≡ true
          → (p ≢ s'.current) × (s'.tasks p ≡ some t))
unfolding ticks systick_exception os_update_task_pointers
ticks-IsCycle zero fuel s qs cycle enough =
    (s, qs, refl, cycle, refl, λ p t other e asleep. (other, e))
ticks-IsCycle (suc n) fuel s qs cycle enough =
    let w = tick fuel s qs cycle enough in
    let v : Schedule = record (w.s') { current = w.s'.next } in
    let fewer : length w.qs' < fuel = omega (arith, w.as_many) in
    let (s', qs', run, cycle', as_many, passed) = ticks-IsCycle n fuel v w.qs' w.cycle fewer in
    (
      s',
      qs',
      rw (w.run) run,
      cycle',
      as_many ∙ w.as_many,
      λ p t other e asleep.
          let (out, there) = w.passed p other t e asleep in passed p t out there asleep,
    )
