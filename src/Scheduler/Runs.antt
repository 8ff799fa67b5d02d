-- ===== src/Scheduler/Runs.antt =====
-- Tests of os/arch/armv7/scheduler.c on concrete inputs.
use flipper.Prelude.{
  ℕ, suc, ◌≤◌, ◌≢◌, length, List, ◌≡◌, refl, [], ◌∷◌, Option, none, some, true, false, arith, ◌==◌,
  if◌then◌else◌,
}
use flipper.Prelude.Outcome.{done, Outcome, fault, spent}
use flipper.Error.{lf_success}
use flipper.Scheduler.{
  Task, Schedule, Status, idle, paused, update, load, set_next, os_task_add, os_task_release,
  unlink_loop, is_paused, os_task_pause,
}
use flipper.Scheduler.Ring.{IsRing, os_task_add-IsRing}
use flipper.Scheduler.Rotation.{ticks, ticks-reach}
use flipper.Scheduler.Timer.{IsCycle, ticks-IsCycle}
use flipper.Scheduler.Pause.{os_task_pause-ticks}
use flipper.Scheduler.Search.{with_pid}

abbrev task : (pid : ℕ) → Status → (next : ℕ) → Task
task pid status next = record {
  sp = 0;
  pid = pid;
  handler = 0;
  status = status;
  stack = 0;
  exit = 0;
  header = 0;
  next = next;
}

-- three tasks in a ring, the second paused, and a fourth that is linked to the head
abbrev tasks : ℕ → Option Task
tasks a =
    if a == 100
    then some (task 0 idle 200)
    else (if a == 200
        then some (task 1 paused 300)
        else (if a == 300
            then some (task 2 idle 100)
            else (if a == 400 then some (task 3 idle 100) else none)))

abbrev schedule : Schedule
schedule = record {
  tasks = tasks;
  next_pid = 4;
  head = 100;
  count = 3;
  current = 0;
  next = 200;
  pending = false;
  err = 0;
  log = [];
}

ring : IsRing schedule (200 ∷ 300 ∷ [])
ring = record {
  linked = (
    λ e. omega arith,
    (task 0 idle 200, refl, refl),
    refl,
    (
      λ e. omega arith,
      (task 1 paused 300, refl, refl),
      refl,
      (λ e. omega arith, (task 2 idle 100, refl, refl), refl, tt),
    ),
  );
  counted = refl;
}

os_task_add-IsRing_example :
    (s' : Schedule) × (os_task_add 400 schedule ≡ done lf_success s')
    × IsRing s' (200 ∷ 300 ∷ 400 ∷ [])
    × (s'.head ≡ 100)
    × (s'.current ≡ 0)
    × (s'.next ≡ 200)
os_task_add-IsRing_example =
    os_task_add-IsRing schedule (200 ∷ 300 ∷ []) 400 (task 3 idle 100) ring (omega arith)
      (λ e. omega arith) refl refl refl

-- What the task at an address is linked to behind a release. The loop of os_task_release tests the head
-- only, so a task that is not behind the head stays linked from the task before it.
abbrev linked_to : ℕ → Outcome Schedule ℕ → Option ℕ
linked_to a (done x s) = elim (s.tasks a) [ none ↦ none | some t ↦ some t.next ]
linked_to a fault = none
linked_to a spent = none

released_behind_head : linked_to 100 (os_task_release 4 200 schedule) ≡ some 300
unfolding os_task_release load unlink_loop set_next update
released_behind_head = refl

released_later : linked_to 200 (os_task_release 4 300 schedule) ≡ some 300
unfolding os_task_release load unlink_loop set_next update
released_later = refl

-- From the system task, the third task is reached along the second, which is paused.
ticks-reach_example :
    (n : ℕ) × (s' : Schedule) × (n ≤ 1)
    × (ticks 2 (suc n) (record schedule { current = 100 }) ≡ done tt s')
    × (s'.current ≡ 300)
ticks-reach_example =
    ticks-reach 2 (record schedule { current = 100 }) 300 (200 ∷ [])
      (
        λ e. omega arith,
        (task 0 idle 200, refl, refl),
        refl,
        (λ e. omega arith, (task 1 paused 300, refl, refl), refl, tt),
      )
      (λ e. omega arith, (task 2 idle 100, refl, refl)) (omega arith)

-- the system task is the current one
abbrev started : Schedule
started = record schedule { current = 100 }

cycle : IsCycle started (200 ∷ 300 ∷ [])
cycle = ring.linked

ticks-IsCycle_example :
    (s' : Schedule) × (qs' : List ℕ) × (ticks 3 7 started ≡ done tt s')
    × IsCycle s' qs'
    × (length qs' ≡ 2)
    × ((p : ℕ) (t : Task)
        → p ≢ 100
        → tasks p ≡ some t
        → is_paused t.status ≡ true
        → (p ≢ s'.current) × (s'.tasks p ≡ some t))
ticks-IsCycle_example = ticks-IsCycle 7 3 started (200 ∷ 300 ∷ []) cycle (omega arith)

-- the third task is paused
os_task_pause-ticks_example :
    (s' : Schedule) × (s'' : Schedule) × (t : Task) × (os_task_pause 3 2 started
      ≡ done lf_success s')
    × IsRing s' (200 ∷ 300 ∷ [])
    × (ticks 3 5 s' ≡ done tt s'')
    × (s''.tasks 300 ≡ some t)
    × (t.status ≡ paused)
    × (t.pid ≡ 2)
    × (s''.current ≢ 300)
unfolding with_pid
os_task_pause-ticks_example =
    os_task_pause-ticks 5 3 2 300 started (200 ∷ 300 ∷ []) (200 ∷ 300 ∷ [])
      (record { linked = ring.linked; counted = refl }) cycle (omega arith) (λ e. omega arith) refl
      (λ e. omega arith) (λ e. omega arith)
