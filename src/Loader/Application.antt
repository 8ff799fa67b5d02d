-- ===== src/Loader/Application.antt =====
-- os_load_application and os_app_exit of os/src/loader.c, over the schedule of `Scheduler`.
use flipper.Prelude.{ℕ, ◌+◌, ◌*◌, ◌%◌, ◌^◌, [], ◌∷◌, ◌++◌, if◌then◌else◌, ◌==◌}
use flipper.Prelude.Outcome.{done, pure, ◌>>=◌, ◌>>◌}
use flipper.Error.{lf_success, lf_error, e_null}
use flipper.Loader.{header_bytes}
use flipper.Scheduler.{Cmd, freed, os_task_create, os_task_add, os_task_next}

-- The application starts at its entry times the size of the header. `exit` is the address of os_app_exit, and the
-- other numbers are as for os_task_create. The schedule changes as its functions do.
unfoldable pub os_load_application :
    (fuel task_at stack_at finished exit : ℕ) → (header entry : ℕ) → Cmd ℕ
os_load_application fuel task_at stack_at finished exit header entry = do
  task ←
      os_task_create task_at stack_at finished ((header + header_bytes * entry) % 2 ^ 32) exit
        header 1024
  if task == 0
      then (do (λ s. done tt (record s { err = e_null })); pure lf_error)
      else (do os_task_add task; os_task_next fuel; pure lf_success)

pub os_app_exit : (header : ℕ) → Cmd (Unit {0})
os_app_exit header s = done tt (record s { log = s.log ++ freed header ∷ [] })
