-- ===== src/Scheduler/Ring.antt =====
-- os/arch/armv7/scheduler.c: the ring of tasks, and os_task_add.
use flipper.Prelude.{
  ℕ, suc, ◌+◌, ◌-◌, ◌%◌, ◌<◌, ◌≡◌, refl, ◌∙◌, ◌≢◌, List, [], ◌∷◌, ◌++◌, Option, some, Bool, true,
  false, length, length-append, arith, ◌==◌, ◌||◌, Bool-cases, inl, inr, ==_refl,
}
use flipper.Prelude.Outcome.{done}
use flipper.Error.{lf_success}
use flipper.Scheduler.{
  Task, Schedule, idle, update, load, set_next, walk, os_task_add, os_task_create,
  os_scheduler_init, frame,
}

-- the pointer to the tasks, and whether an address is one of theirs
abbrev pub first : ℕ → List ℕ → ℕ
first stop [] = stop
first stop (p ∷ ps) = p

abbrev pub has : ℕ → List ℕ → Bool
has a [] = false
has a (p ∷ ps) = (a == p) || has a ps

-- The tasks at these addresses are linked in this order, and the last to `stop`.
abbrev pub IsLinked : (ℕ → Option Task) → ℕ → List ℕ → Type 0
IsLinked tasks stop [] = Unit {0}
IsLinked tasks stop (p ∷ ps) =
    (p ≢ 0)
    × ((t : Task) × (tasks p ≡ some t) × (t.next ≡ first stop ps))
    × (has p ps ≡ false)
    × IsLinked tasks stop ps

-- A schedule whose tasks are a ring from its head on.
pub record IsRing (s : Schedule) (ps : List ℕ) : Type 0 where
  pub linked : IsLinked s.tasks s.head (s.head ∷ ps)
  pub counted : s.count ≡ suc (length ps)

pub load-done : (s : Schedule) (p : ℕ) (t : Task) → p ≢ 0 → s.tasks p ≡ some t → load p s ≡ done t s
unfolding load
load-done s p t ne e = let not_null : (p == 0) ≡ false = ground arith in rw (not_null, e, load) refl

-- the last address
abbrev last : ℕ → List ℕ → ℕ
last p [] = p
last p (q ∷ ps) = last q ps

walk-last :
    (s : Schedule) (stop p : ℕ) (ps : List ℕ)
    → IsLinked s.tasks stop (p ∷ ps)
    → walk (length ps) p s ≡ done (last p ps) s
unfolding walk
walk-last s stop p [] h = refl
walk-last s stop p (q ∷ ps) (ne, (t, e, n), out, rest) =
    rw (load-done s p t ne e, n) (walk-last s stop q ps rest)

last-task :
    (tasks : ℕ → Option Task) (stop p : ℕ) (ps : List ℕ)
    → IsLinked tasks stop (p ∷ ps)
    → (last p ps ≢ 0) × ((t : Task) × (tasks (last p ps) ≡ some t))
last-task tasks stop p [] (ne, (t, e, n), out, rest) = (ne, (t, e))
last-task tasks stop p (q ∷ ps) (ne, at, out, rest) = last-task tasks stop q ps rest

has-last : (p : ℕ) (ps : List ℕ) → has (last p ps) (p ∷ ps) ≡ true
has-last p [] = ground (arith, ==_refl p)
has-last p (q ∷ ps) = ground (arith, has-last q ps)

pub update_other :
    (tasks : ℕ → Option Task) (a b : ℕ) (t : Option Task)
    → (b == a) ≡ false
    → update tasks a t b ≡ tasks b
unfolding update
update_other tasks a b t h = rw (h, update) refl

pub update_self : (tasks : ℕ → Option Task) (a : ℕ) (t : Option Task) → update tasks a t a ≡ t
unfolding update
update_self tasks a t = rw (==_refl a, update) refl

apart : (a b : ℕ) (ps : List ℕ) → has a ps ≡ true → has b ps ≡ false → (b == a) ≡ false
apart a b ps i o = elim (Bool-cases (b == a)) [
  | inl same ↦ let e : b ≡ a = ground arith in absurd (let o' : has a ps ≡ false = rw e at o in cc)
  | inr other ↦ other
]

-- With the next of the last task set to a task that is linked to the head, the ring has one task more.
relinked :
    (tasks : ℕ → Option Task) (stop new p : ℕ) (ps : List ℕ) (t u : Task)
    → IsLinked tasks stop (p ∷ ps)
    → tasks (last p ps) ≡ some t
    → new ≢ 0
    → tasks new ≡ some u
    → u.next ≡ stop
    → has new (p ∷ ps) ≡ false
    → IsLinked
        (update tasks (last p ps) (some (record t { next = new })))
        stop
        (p ∷ (ps ++ new ∷ []))
relinked tasks stop new p [] t u (ne, at, out, rest) e nn en un out_new = (
  ne,
  (record t { next = new }, update_self tasks p (some (record t { next = new })), refl),
  ground arith,
  (nn, (u, update_other tasks p new _ (ground arith) ∙ en, un), refl, tt),
)
relinked tasks stop new p (q ∷ ps) t u (ne, (v, ev, nv), out, rest) e nn en un out_new =
    let z = last q ps in
    let differ : (p == z) ≡ false = apart z p (q ∷ ps) (has-last q ps) out in
    (
      ne,
      (v, update_other tasks z p _ differ ∙ ev, nv),
      has_append p (q ∷ ps) new out (ground arith),
      relinked tasks stop new q ps t u rest e nn en un (ground arith),
    )
  where
    has_append :
        (a : ℕ) (ps : List ℕ) (n : ℕ)
        → has a ps ≡ false
        → (a == n) ≡ false
        → has a (ps ++ n ∷ []) ≡ false
    has_append a [] n o d = ground arith
    has_append a (x ∷ xs) n o d = ground (arith, has_append a xs n)

-- On a ring of less than 255 tasks, os_task_add of a new task that is linked to the head succeeds, and
-- leaves the ring with that task as the last, with the same head, current and next task.
pub os_task_add-IsRing :
    (s : Schedule) (ps : List ℕ) (new : ℕ) (u : Task)
    → IsRing s ps
    → length ps < 254
    → new ≢ 0
    → s.tasks new ≡ some u
    → u.next ≡ s.head
    → has new (s.head ∷ ps) ≡ false
    → (s' : Schedule) × (os_task_add new s ≡ done lf_success s')
      × IsRing s' (ps ++ new ∷ [])
      × (s'.head ≡ s.head)
      × (s'.current ≡ s.current)
      × (s'.next ≡ s.next)
unfolding os_task_add set_next
os_task_add-IsRing s ps new u ring few ne en un out =
    let (nz, (t, et)) = last-task s.tasks s.head s.head ps ring.linked in
    let some_task : (s.count == 0) ≡ false = ground (arith, ring.counted) in
    let turns : s.count - 1 ≡ length ps = omega (arith, ring.counted) in
    let s' : Schedule = record s {
      tasks = update s.tasks (last s.head ps) (some (record t { next = new }));
      count = (s.count + 1) % 256;
    } in
    (
      s',
      rw
          (
            some_task,
            turns,
            walk-last s s.head s.head ps ring.linked,
            load-done s (last s.head ps) t nz et,
          )
          refl,
      record {
        linked = relinked s.tasks s.head new s.head ps t u ring.linked et ne en un out;
        counted = omega (arith, ring.counted, length-append {0} ps (new ∷ []));
      },
      refl,
      refl,
      refl,
    )

-- With memory for the system task and its stack, os_scheduler_init ends with a ring of that one task, which
-- is the head and the current task, has the number 0, is idle and starts at the entry of the kernel.
os_scheduler_init-IsRing :
    (s : Schedule) (task_at stack_at finished kernel : ℕ)
    → task_at ≢ 0
    → stack_at ≢ 0
    → (s' : Schedule) × (t : Task) × (os_scheduler_init task_at stack_at finished kernel s
        ≡ done tt s')
      × IsRing s' []
      × (s'.head ≡ task_at)
      × (s'.current ≡ task_at)
      × (s'.tasks task_at ≡ some t)
      × (t.pid ≡ 0)
      × (t.status ≡ idle)
      × (t.handler ≡ kernel)
unfolding os_scheduler_init os_task_create os_task_add set_next
os_scheduler_init-IsRing s task_at stack_at finished kernel ne ns =
    let no_task : (task_at == 0) ≡ false = ground arith in
    let no_stack : (stack_at == 0) ≡ false = ground arith in
    let t : Task = record {
      sp = stack_at + 512 - 64;
      pid = 0;
      handler = kernel;
      status = idle;
      stack = stack_at;
      exit = 0;
      header = 0;
      next = 0;
    } in
    let made = update s.tasks task_at (some t) in
    let z : Schedule = record s {
      tasks = made;
      next_pid = 1;
      head = task_at;
      count = 1;
      current = task_at;
      log = s.log ++ frame (stack_at + 512) kernel finished;
    } in
    let t' = record t { next = task_at } in
    (
      record z { tasks = update made task_at (some t') },
      t',
      rw (no_task, no_stack, load-done z task_at t ne (update_self s.tasks task_at (some t))) refl,
      record {
        linked = (ne, (t', update_self made task_at (some t'), refl), refl, tt);
        counted = refl;
      },
      refl,
      refl,
      update_self made task_at (some t'),
      refl,
      refl,
      refl,
    )
