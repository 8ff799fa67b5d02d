-- ===== src/Scheduler.antt =====
-- os/arch/armv7/scheduler.c and os/include/os/scheduler.h: the tasks of a device, linked in a ring from the
-- system task on. A task is at an address, 0 is NULL. What `malloc` returns is an argument; calls of
-- `free` and of exit functions, and the words that are written to a stack, are logged in order. Registers of
-- the processor are left out, but for the bit that queues the switch of tasks.
pub mod Search
pub mod Ring
pub mod Rotation
pub mod Timer
pub mod Pause
mod Runs
use flipper.Prelude.{
  ℕ, zero, suc, ◌+◌, ◌-◌, ◌*◌, ◌%◌, ◌^◌, List, [], ◌∷◌, ◌++◌, Option, none, some, Bool, true, false,
  not, if◌then◌else◌, ◌==◌,
}
use flipper.Prelude.Outcome.{Outcome, done, fault, spent, pure, continue, ◌>>=◌, ◌>>◌}
use flipper.Error.{lf_success, lf_error, e_null, e_invalid_task}

-- os_task_status
pub data Status : Type 0 where
  unallocated idle active paused : Status

abbrev pub is_paused : Status → Bool
is_paused unallocated = false
is_paused idle = false
is_paused active = false
is_paused paused = true

-- struct _os_task
pub record Task : Type 0 where
  pub sp : ℕ
  pub pid : ℕ
  pub handler : ℕ
  pub status : Status
  pub stack : ℕ
  pub exit : ℕ
  pub header : ℕ
  pub next : ℕ

-- what the code does besides: `free`, a call of an exit function, and a write of a word
pub data Event : Type 0 where
  freed : ℕ → Event
  exited : (function header : ℕ) → Event
  wrote : (address word : ℕ) → Event

-- The tasks by address, struct _os_schedule, os_current_task, os_next_task, the queued switch, and
-- `_lf_err`.
pub record Schedule : Type 0 where
  pub tasks : ℕ → Option Task
  pub next_pid : ℕ
  pub head : ℕ
  pub count : ℕ
  pub current : ℕ
  pub next : ℕ
  pub pending : Bool
  pub err : ℕ
  pub log : List Event

abbrev pub Cmd : Type 0 → Type 0
Cmd A = Schedule → Outcome Schedule A

unfoldable pub update : (ℕ → Option Task) → ℕ → Option Task → ℕ → Option Task
update tasks p t a = if a == p then t else tasks a

-- `*task`
unfoldable pub load : ℕ → Cmd Task
load p s = if p == 0 then fault else elim (s.tasks p) [ none ↦ fault | some t ↦ done t s ]

abbrev pub store : ℕ → Option Task → Cmd (Unit {0})
store p t s = done tt (record s { tasks = update s.tasks p t })

-- the writes `task->next = q` and `task->status = x`
unfoldable pub set_next : (p q : ℕ) → Cmd (Unit {0})
unfolding load update
set_next p q = do t ← load p; store p (some (record t { next = q }))

unfoldable pub set_status : (p : ℕ) → Status → Cmd (Unit {0})
unfolding load update
set_status p x = do t ← load p; store p (some (record t { status = x }))

abbrev pub raise : ℕ → Cmd (Unit {0})
raise e s = done tt (record s { err = e })

abbrev pub note : List Event → Cmd (Unit {0})
note es s = done tt (record s { log = s.log ++ es })

abbrev pub set_current : ℕ → Cmd (Unit {0})
set_current p s = done tt (record s { current = p })

abbrev pub set_pending_next : ℕ → Cmd (Unit {0})
set_pending_next p s = done tt (record s { next = p })

-- `while (--count) _tail = _tail->next`, for the turns that are left
unfoldable pub walk : (turns p : ℕ) → Cmd ℕ
unfolding load
walk zero p = pure p
walk (suc turns) p = do t ← load p; walk turns t.next

unfoldable pub os_task_add : (task : ℕ) → Cmd ℕ
unfolding walk set_next
os_task_add task s =
    (do
      (if s.count == 0 then pure tt else (do tail ← walk (s.count - 1) s.head; set_next tail task))
      (λ s. done tt (record s { count = (s.count + 1) % 256 }))
      pure lf_success)
      s

-- The words that os_task_create writes: the context that the hardware restores below the end of the
-- stack, and below it that of the switcher. `finished` is the address of os_task_finished.
abbrev pub frame : (top entry finished : ℕ) → List Event
frame top entry finished =
    wrote (top - 32 + 28) 0x01000000
    ∷ wrote (top - 32 + 24) entry
    ∷ wrote (top - 32 + 20) finished
    ∷ wrote (top - 64) 4
    ∷ wrote (top - 64 + 4) 5
    ∷ wrote (top - 64 + 8) 6
    ∷ wrote (top - 64 + 12) 7
    ∷ wrote (top - 64 + 16) 8
    ∷ wrote (top - 64 + 20) 9
    ∷ wrote (top - 64 + 24) 10
    ∷ wrote (top - 64 + 28) 11
    ∷ []

-- `task_at` and `stack_at` are what `malloc` returns; a task without a stack leaks. The result is NULL or
-- the task. The end of the stack is below 2 ^ 32.
unfoldable pub os_task_create :
    (task_at stack_at finished : ℕ) → (entry exit header stack_size : ℕ) → Cmd ℕ
unfolding update
os_task_create task_at stack_at finished entry exit header stack_size s =
    if task_at == 0
    then (do raise e_null; pure 0) s
    else (if stack_at == 0
        then (do raise e_null; pure 0) s
        else (do
          store task_at (
              some (record {
                sp = stack_at + stack_size - 64;
                pid = s.next_pid;
                handler = entry;
                status = idle;
                stack = stack_at;
                exit = exit;
                header = header;
                next = s.head;
              }))
          (λ s. done tt (record s { next_pid = s.next_pid + 1 }))
          note (frame (stack_at + stack_size) entry finished)
          pure task_at)
            s)

-- the loop at `check:`, which skips paused tasks; on fuel
unfoldable pub skip_paused : (fuel p : ℕ) → Cmd ℕ
unfolding load
skip_paused zero p = λ _. spent
skip_paused (suc fuel) p = do
  t ← load p
  if is_paused t.status then skip_paused fuel t.next else pure p

unfoldable pub os_task_next : (fuel : ℕ) → Cmd (Unit {0})
unfolding load set_status skip_paused
os_task_next fuel s =
    (do
      (if s.current == 0
          then pure tt
          else (do set_status s.current idle; t ← load s.current; set_pending_next t.next))
      (λ s. (do p ← skip_paused fuel s.next; set_pending_next p; set_status p active) s)
      (λ s. done tt (record s { pending = true })))
      s

-- called where the switch is done
unfoldable pub os_update_task_pointers : Cmd (Unit {0})
os_update_task_pointers s = done tt (record s { current = s.next })

unfoldable pub search_pid : (turns pid p : ℕ) → Cmd ℕ
unfolding load
search_pid zero pid p = pure 0
search_pid (suc turns) pid p = do
  t ← load p
  if pid == t.pid then pure p else search_pid turns pid t.next

unfoldable pub os_task_from_pid : (pid : ℕ) → Cmd ℕ
unfolding search_pid
os_task_from_pid pid s = search_pid s.count pid s.head s

-- the loop that looks for the parent; it tests the head in every turn
unfoldable pub unlink_loop : (turns parent task : ℕ) → Cmd (Unit {0})
unfolding load set_next
unlink_loop zero parent task = pure tt
unlink_loop (suc turns) parent task = do
  p ← load parent
  if p.next == task
      then (do t ← load task; set_next parent t.next)
      else unlink_loop turns parent task

unfoldable pub os_task_release : (fuel task : ℕ) → Cmd ℕ
unfolding load unlink_loop os_task_next update
os_task_release fuel task s =
    if task == 0
    then (do raise e_null; pure lf_error) s
    else (if task == s.head
        then (do raise e_invalid_task; pure lf_error) s
        else (do
          t ← load task
          (if t.exit == 0 then pure tt else note (exited t.exit t.header ∷ []))
          (if t.stack == 0 then pure tt else note (freed t.stack ∷ []))
          unlink_loop s.count s.head task
          t' ← load task
          (if task == s.current
              then (do set_current 0; set_pending_next t'.next; os_task_next fuel)
              else pure tt)
          store task none
          note (freed task ∷ [])
          (λ s. done tt (record s { count = (s.count + 255) % 256 }))
          pure lf_success)
            s)

-- called when an application ends; the endless loop behind the release is left out
unfoldable pub os_task_finished : (fuel : ℕ) → Cmd (Unit {0})
unfolding os_task_release
os_task_finished fuel s = (do os_task_release fuel s.current; pure tt) s

-- The system task cannot be paused.
unfoldable pub os_task_pause : (fuel pid : ℕ) → Cmd ℕ
unfolding os_task_from_pid os_task_next set_status
os_task_pause fuel pid s =
    if pid == 0
    then (do raise e_invalid_task; pure lf_error) s
    else (do
      task ← os_task_from_pid pid
      if task == 0 then (do raise e_null; pure lf_error) else (do
        (if s.current == task then os_task_next fuel else pure tt)
        set_status task paused
        pure lf_success))
        s

unfoldable pub os_task_resume : (fuel pid : ℕ) → Cmd ℕ
unfolding os_task_from_pid os_task_next set_status
os_task_resume fuel pid s =
    if pid == 0
    then (do raise e_invalid_task; pure lf_error) s
    else (do
      task ← os_task_from_pid pid
      if task == 0 then (do raise e_null; pure lf_error) else (do
        set_status task idle
        set_status s.current idle
        set_current 0
        set_pending_next task
        os_task_next fuel
        pure lf_success))
        s

unfoldable pub os_task_stop : (fuel pid : ℕ) → Cmd ℕ
unfolding os_task_from_pid os_task_release
os_task_stop fuel pid =
    if pid == 0
    then (do raise e_invalid_task; pure lf_error)
    else (do task ← os_task_from_pid pid; os_task_release fuel task)

unfoldable pub systick_exception : (fuel : ℕ) → Cmd (Unit {0})
unfolding os_task_next
systick_exception fuel = os_task_next fuel

-- os_scheduler_init up to the first run of the system task, whose entry is `kernel`
unfoldable pub os_scheduler_init : (task_at stack_at finished kernel : ℕ) → Cmd (Unit {0})
unfolding os_task_create os_task_add set_next
os_scheduler_init task_at stack_at finished kernel = do
  (λ s. done tt (record s { next_pid = 0; head = 0; count = 0 }))
  task ← os_task_create task_at stack_at finished kernel 0 0 512
  os_task_add task
  (λ s. done tt (record s { current = task; head = task }))
  set_next task task
