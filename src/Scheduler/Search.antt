-- ===== src/Scheduler/Search.antt =====
-- os/arch/armv7/scheduler.c: the searches of os_task_next and os_task_from_pid along the tasks.
use flipper.Prelude.{
  ℕ, ◌≡◌, refl, sym, ap, ◌∙◌, ◌≢◌, List, [], ◌∷◌, Option, none, some, length, arith, ◌==◌,
  if◌then◌else◌, Bool-cases, inl, inr,
}
use flipper.Prelude.Outcome.{done}
use flipper.Scheduler.{Task, Schedule, search_pid, os_task_from_pid}
use flipper.Scheduler.Ring.{first, IsLinked, IsRing, load-done}

-- the first of the tasks with the number, 0 for none
unfoldable pub with_pid : (ℕ → Option Task) → (pid : ℕ) → List ℕ → ℕ
with_pid tasks pid [] = 0
with_pid tasks pid (p ∷ ps) = elim (tasks p) [
  | none ↦ 0
  | some t ↦ if pid == t.pid then p else with_pid tasks pid ps
]

search_pid-with_pid :
    (s : Schedule) (stop pid : ℕ) (ps : List ℕ)
    → IsLinked s.tasks stop ps
    → search_pid (length ps) pid (first stop ps) s ≡ done (with_pid s.tasks pid ps) s
unfolding search_pid with_pid
search_pid-with_pid s stop pid [] ln = refl
search_pid-with_pid s stop pid (p ∷ ps) (ne, (t, e, n), out, rest) =
    elim (Bool-cases (pid == t.pid)) [
      | inl found ↦ rw (load-done s p t ne e, e, found, with_pid) refl
      | inr other ↦
          rw (load-done s p t ne e, e, other, n, with_pid) (search_pid-with_pid s stop pid ps rest)
    ]

-- On a ring, os_task_from_pid ends and gives the first task of the ring with the number, from the head on, or
-- NULL where there is none; it changes nothing.
pub os_task_from_pid-with_pid :
    (s : Schedule) (ps : List ℕ) (pid : ℕ)
    → IsRing s ps
    → os_task_from_pid pid s ≡ done (with_pid s.tasks pid (s.head ∷ ps)) s
unfolding os_task_from_pid
os_task_from_pid-with_pid s ps pid ring =
    ap (λ n. search_pid n pid s.head s) ring.counted
    ∙ search_pid-with_pid s s.head pid (s.head ∷ ps) ring.linked

-- The task that is found on a chain is there, and has the number.
pub with_pid-at :
    (tasks : ℕ → Option Task) (stop pid p : ℕ) (ps : List ℕ)
    → IsLinked tasks stop ps
    → with_pid tasks pid ps ≡ p
    → p ≢ 0
    → (t : Task) × (tasks p ≡ some t) × (t.pid ≡ pid)
unfolding with_pid
with_pid-at tasks stop pid p [] ln found ne = absurd (ne (sym found))
with_pid-at tasks stop pid p (q ∷ ps) (nq, (t, e, n), out, rest) found ne =
    elim (Bool-cases (pid == t.pid)) [
      | inl same ↦
          let this : with_pid tasks pid (q ∷ ps) ≡ q = rw (e, same, with_pid) refl in
          let here : q ≡ p = sym this ∙ found in (t, ap tasks (sym here) ∙ e, ground arith)
      | inr other ↦
          let this : with_pid tasks pid (q ∷ ps) ≡ with_pid tasks pid ps =
            rw (e, other, with_pid) refl in
          with_pid-at tasks stop pid p ps rest (sym this ∙ found) ne
    ]
