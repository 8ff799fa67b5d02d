-- ===== src/Scheduler/Rotation.antt =====
-- os/arch/armv7/scheduler.c: the tasks that the ticks of the timer make current.
use flipper.Prelude.{
  ℕ, zero, suc, ◌≤◌, ◌<◌, ◌≡◌, refl, sym, ap, ◌∙◌, ◌≢◌, ◌⊎◌, inl, inr, List, [], ◌∷◌, Option, some,
  true, false, length, arith, ◌==◌, Bool-cases,
}
use mathlib.Core.Path.{subst}
use flipper.Prelude.Outcome.{done, pure, ◌>>◌}
use flipper.Scheduler.{
  Task, Schedule, Status, Cmd, idle, active, is_paused, update, set_status, skip_paused,
  os_task_next, systick_exception, os_update_task_pointers,
}
use flipper.Scheduler.Ring.{first, IsLinked, load-done, update_other, update_self}

-- A tick of the timer, and the switch that it queues; the fuel is that of the search.
unfoldable pub ticks : (fuel count : ℕ) → Cmd (Unit {0})
unfolding systick_exception os_update_task_pointers
ticks fuel zero = pure tt
ticks fuel (suc n) = do systick_exception fuel; os_update_task_pointers; ticks fuel n

-- The second tasks have the same links, and no task is paused that was not.
abbrev pub Kept : (tasks tasks' : ℕ → Option Task) → Type 0
Kept tasks tasks' =
    (p : ℕ) (t : Task)
    → tasks p ≡ some t
    → (t' : Task) × (tasks' p ≡ some t')
      × (t'.next ≡ t.next)
      × (is_paused t.status ≡ false → is_paused t'.status ≡ false)

pub Kept-trans : (a b c : ℕ → Option Task) → Kept a b → Kept b c → Kept a c
Kept-trans a b c f g p t e =
    let (t', e', n', w') = f p t e in
    let (t'', e'', n'', w'') = g p t' e' in (t'', e'', n'' ∙ n', λ h. w'' (w' h))

pub Kept-update :
    (tasks : ℕ → Option Task) (a : ℕ) (t : Task) (x : Status)
    → tasks a ≡ some t
    → is_paused x ≡ false
    → Kept tasks (update tasks a (some (record t { status = x })))
Kept-update tasks a t x e awake p u at = elim (Bool-cases (p == a)) [
  | inl same ↦
      let same' : p ≡ a = ground arith in
      let eq : some u ≡ some t = sym at ∙ ap tasks same' ∙ e in
      let eq' : u ≡ t = cc in
      (
        record t { status = x },
        ap (λ q. update tasks a (some (record t { status = x })) q) same'
            ∙ update_self tasks a (some (record t { status = x })),
        ap (λ v. v.next) (sym eq'),
        λ h. awake,
      )
  | inr other ↦
      (u, update_other tasks a p (some (record t { status = x })) other ∙ at, refl, λ h. h)
]

pub IsLinked-Kept :
    (tasks tasks' : ℕ → Option Task) (stop : ℕ) (ps : List ℕ)
    → Kept tasks tasks'
    → IsLinked tasks stop ps
    → IsLinked tasks' stop ps
IsLinked-Kept tasks tasks' stop [] kept ln = tt
IsLinked-Kept tasks tasks' stop (p ∷ ps) kept (ne, (t, e, n), out, rest) =
    let (t', e', n', w) = kept p t e in
    (ne, (t', e', n' ∙ n), out, IsLinked-Kept tasks tasks' stop ps kept rest)

-- The task at an address is not paused.
abbrev pub IsAwake : (ℕ → Option Task) → ℕ → Type 0
IsAwake tasks p = (p ≢ 0) × ((t : Task) × (tasks p ≡ some t) × (is_paused t.status ≡ false))

pub IsAwake-Kept :
    (tasks tasks' : ℕ → Option Task) (p : ℕ)
    → Kept tasks tasks'
    → IsAwake tasks p
    → IsAwake tasks' p
IsAwake-Kept tasks tasks' p kept (ne, (t, e, w)) =
    let (t', e', n', w') = kept p t e in (ne, (t', e', w' w))

-- A task is the goal, or is linked to it by fewer tasks than these.
abbrev Closer : (ℕ → Option Task) → (stop : ℕ) → (ps : List ℕ) → ℕ → Type 0
Closer tasks stop ps w =
    (w ≡ stop) ⊎ ((rest : List ℕ) × IsLinked tasks stop (w ∷ rest) × (length rest < length ps))

skip_paused-Closer :
    (fuel : ℕ) (s : Schedule) (stop : ℕ) (ps : List ℕ)
    → IsLinked s.tasks stop ps
    → IsAwake s.tasks stop
    → length ps < fuel
    → (w : ℕ) × (skip_paused fuel (first stop ps) s ≡ done w s)
      × IsAwake s.tasks w
      × Closer s.tasks stop ps w
unfolding skip_paused
skip_paused-Closer zero s stop ps ln goal enough = absurd (omega arith)
skip_paused-Closer (suc fuel) s stop [] ln (ne, (t, e, w)) enough =
    (stop, rw (load-done s stop t ne e, w) refl, (ne, (t, e, w)), inl refl)
skip_paused-Closer (suc fuel) s stop (p ∷ ps) (ne, (t, e, n), out, rest) goal enough =
    elim (Bool-cases (is_paused t.status)) [
      | inl asleep ↦
          let (w, run, awake, closer) = skip_paused-Closer fuel s stop ps rest goal (omega arith) in
          (
            w,
            rw (load-done s p t ne e, asleep, n) run,
            awake,
            elim closer [ inl at ↦ inl at | inr (more, ln, less) ↦ inr (more, ln, omega arith) ],
          )
      | inr awake ↦ (
        p,
        rw (load-done s p t ne e, awake) refl,
        (ne, (t, e, awake)),
        inr (ps, (ne, (t, e, n), out, rest), omega arith),
      )
    ]

-- A tick moves to a task that is closer to the goal.
os_task_next-Closer :
    (fuel : ℕ) (s : Schedule) (stop : ℕ) (qs : List ℕ)
    → IsLinked s.tasks stop (s.current ∷ qs)
    → IsAwake s.tasks stop
    → length qs < fuel
    → (w : ℕ) × (s' : Schedule) × (os_task_next fuel s ≡ done tt s')
      × (s'.next ≡ w)
      × Kept s.tasks s'.tasks
      × Closer s'.tasks stop qs w
unfolding os_task_next set_status
os_task_next-Closer fuel s stop qs (ne, (t, e, n), out, rest) goal enough =
    let c = s.current in
    let running : (c == 0) ≡ false = ground arith in
    let t1 : Task = record t { status = idle } in
    let tasks1 = update s.tasks c (some t1) in
    let kept1 = Kept-update s.tasks c t idle e refl in
    let s1 : Schedule = record s { tasks = tasks1 } in
    let s2 : Schedule = record s1 { next = t.next } in
    let (w, skipped, (wn, (u, eu, awake)), closer) =
      skip_paused-Closer fuel s2 stop qs (IsLinked-Kept s.tasks tasks1 stop qs kept1 rest)
        (IsAwake-Kept s.tasks tasks1 stop kept1 goal) enough in
    let skipped' : skip_paused fuel t.next s2 ≡ done w s2 =
      ap (λ x. skip_paused fuel x s2) n ∙ skipped in
    let kept2 = Kept-update tasks1 w u active eu refl in
    let tasks2 = update tasks1 w (some (record u { status = active })) in
    (
      w,
      record s { tasks = tasks2; next = w; pending = true },
      rw
          (
            running,
            load-done s c t ne e,
            load-done s1 c t1 ne (update_self s.tasks c (some t1)),
            skipped',
            load-done (record s2 { next = w }) w u wn eu,
          )
          refl,
      refl,
      Kept-trans s.tasks tasks1 tasks2 kept1 kept2,
      elim closer [
        | inl at ↦ inl at
        | inr (more, ln, less) ↦
            inr (more, IsLinked-Kept tasks1 tasks2 stop (w ∷ more) kept2 ln, less)
      ],
    )

-- The goal is the current task after some ticks, not more than one and these tasks.
abbrev Reaches : (fuel : ℕ) → Schedule → (stop : ℕ) → List ℕ → Type 0
Reaches fuel s stop qs =
    (n : ℕ) × (s' : Schedule) × (n ≤ length qs)
    × (ticks fuel (suc n) s ≡ done tt s')
    × (s'.current ≡ stop)

ticks_turn :
    (fuel : ℕ) (s : Schedule) (stop : ℕ) (qs : List ℕ)
    → IsLinked s.tasks stop (s.current ∷ qs)
    → IsAwake s.tasks stop
    → length qs < fuel
    → ((v : Schedule) (more : List ℕ)
        → IsLinked v.tasks stop (v.current ∷ more)
        → IsAwake v.tasks stop
        → length more < length qs
        → Reaches fuel v stop more)
    → Reaches fuel s stop qs
unfolding ticks systick_exception os_update_task_pointers
ticks_turn fuel s stop qs ln goal enough next =
    let (w, v, run, at, kept, closer) = os_task_next-Closer fuel s stop qs ln goal enough in
    let awake = IsAwake-Kept s.tasks v.tasks stop kept goal in
    elim closer [
      | inl arrived ↦ (0, record v { current = v.next }, omega arith, rw (run) refl, at ∙ arrived)
      | inr (more, ln', less) ↦
          let here : IsLinked v.tasks stop (v.next ∷ more) =
            subst (λ x. IsLinked v.tasks stop (x ∷ more)) (sym at) ln' in
          let (n, s', few, runs, reached) =
            next (record v { current = v.next }) more here awake less in
          (suc n, s', omega arith, rw (run) runs, reached)
    ]

ticks_within :
    (bound fuel : ℕ) (s : Schedule) (stop : ℕ) (qs : List ℕ)
    → IsLinked s.tasks stop (s.current ∷ qs)
    → IsAwake s.tasks stop
    → length qs ≤ bound
    → bound < fuel
    → Reaches fuel s stop qs
ticks_within zero fuel s stop qs ln goal few enough =
    ticks_turn fuel s stop qs ln goal (omega arith) (λ v more ln g less. absurd (omega arith))
ticks_within (suc bound) fuel s stop qs ln goal few enough =
    ticks_turn fuel s stop qs ln goal (omega arith)
      (λ v more ln g less. ticks_within bound fuel v stop more ln g (omega arith) (omega arith))

-- From the current task, let the links of the tasks lead along some others, which are all different, to a task that is
-- not paused, and let the fuel of the search be more than their number. Then after at least one tick and at most
-- one more than their number, with the switch that each queues, that task is the current one.
pub ticks-reach :
    (fuel : ℕ) (s : Schedule) (stop : ℕ) (qs : List ℕ)
    → IsLinked s.tasks stop (s.current ∷ qs)
    → IsAwake s.tasks stop
    → length qs < fuel
    → (n : ℕ) × (s' : Schedule) × (n ≤ length qs)
      × (ticks fuel (suc n) s ≡ done tt s')
      × (s'.current ≡ stop)
ticks-reach fuel s stop qs ln goal enough =
    ticks_within (length qs) fuel s stop qs ln goal (omega arith) enough
