-- ===== src/Scheduler/Pause.antt =====
-- os/arch/armv7/scheduler.c: os_task_pause, and the ticks that follow.
use flipper.Prelude.{
  ℕ, ◌<◌, ◌≡◌, refl, sym, ap, ◌∙◌, ◌≢◌, List, [], ◌∷◌, Option, some, false, length, arith, ◌==◌,
  Bool-cases, inl, inr,
}
use flipper.Prelude.Outcome.{done}
use flipper.Error.{lf_success}
use flipper.Scheduler.{
  Task, Schedule, Status, paused, update, set_status, os_task_from_pid, os_task_pause,
}
use flipper.Scheduler.Ring.{IsLinked, IsRing, load-done, update_other, update_self}
use flipper.Scheduler.Rotation.{ticks}
use flipper.Scheduler.Search.{with_pid, with_pid-at, os_task_from_pid-with_pid}
use flipper.Scheduler.Timer.{IsCycle, ticks-IsCycle}

-- A new status changes no link.
IsLinked-status :
    (tasks : ℕ → Option Task) (stop a : ℕ) (t : Task) (x : Status) (ps : List ℕ)
    → tasks a ≡ some t
    → IsLinked tasks stop ps
    → IsLinked (update tasks a (some (record t { status = x }))) stop ps
IsLinked-status tasks stop a t x [] e ln = tt
IsLinked-status tasks stop a t x (p ∷ ps) e (ne, (u, eu, n), out, rest) =
    let more = IsLinked-status tasks stop a t x ps e rest in
    elim (Bool-cases (p == a)) [
      | inl same ↦
          let same' : p ≡ a = ground arith in
          let eq : some u ≡ some t = sym eu ∙ ap tasks same' ∙ e in
          let eq' : u ≡ t = cc in
          (
            ne,
            (
              record t { status = x },
              ap (λ q. update tasks a (some (record t { status = x })) q) same'
                  ∙ update_self tasks a (some (record t { status = x })),
              ap (λ v. v.next) (sym eq') ∙ n,
            ),
            out,
            more,
          )
      | inr other ↦ (ne, (u, update_other tasks a p _ other ∙ eu, n), out, more)
    ]

-- On a ring, os_task_pause of a number that is not 0 and that the ring has, where the task with it is not the
-- current one, succeeds and leaves a ring of the same tasks. After any number of ticks, when the ring goes on from
-- the current task as well and the fuel is more than its other tasks, that task is paused and not the current one.
pub os_task_pause-ticks :
    (count fuel pid task : ℕ) (s : Schedule) (ps qs : List ℕ)
    → IsRing s ps
    → IsCycle s qs
    → length qs < fuel
    → pid ≢ 0
    → with_pid s.tasks pid (s.head ∷ ps) ≡ task
    → task ≢ 0
    → task ≢ s.current
    → (s' : Schedule) × (s'' : Schedule) × (t : Task) × (os_task_pause fuel pid s
        ≡ done lf_success s')
      × IsRing s' ps
      × (ticks fuel count s' ≡ done tt s'')
      × (s''.tasks task ≡ some t)
      × (t.status ≡ paused)
      × (t.pid ≡ pid)
      × (s''.current ≢ task)
unfolding os_task_pause set_status
os_task_pause-ticks count fuel pid task s ps qs ring cycle enough np found ne other =
    let (t, e, at) = with_pid-at s.tasks s.head pid task (s.head ∷ ps) ring.linked found ne in
    let user : (pid == 0) ≡ false = ground arith in
    let some_task : (task == 0) ≡ false = ground arith in
    let not_running : (s.current == task) ≡ false = ground arith in
    let t' : Task = record t { status = paused } in
    let v : Schedule = record s { tasks = update s.tasks task (some t') } in
    let searched : os_task_from_pid pid s ≡ done task s =
      os_task_from_pid-with_pid s ps pid ring ∙ ap (λ p. done p s) found in
    let cycle' = IsLinked-status s.tasks s.current task t paused (s.current ∷ qs) e cycle in
    let (s'', qs', run, after, as_many, passed) = ticks-IsCycle count fuel v qs cycle' enough in
    let (out, there) = passed task t' other (update_self s.tasks task (some t')) refl in
    (
      v,
      s'',
      t',
      rw (user, searched, some_task, not_running, load-done s task t ne e) refl,
      record {
        linked = IsLinked-status s.tasks s.head task t paused (s.head ∷ ps) e ring.linked;
        counted = ring.counted;
      },
      run,
      there,
      refl,
      at,
      λ same. out (sym same),
    )
