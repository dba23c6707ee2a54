-- ===== src/Pool/Draining/Ends.antt =====
-- A `ThreadPool` left to itself runs all its tasks, whatever the order of the steps.
use cpp_concurrency_toolbox.Base.{ℕ, suc, ◌+◌, ◌≤◌, ◌≡◌, ◌⊎◌, refl, arith, ap, ◌∙◌}
use cpp_concurrency_toolbox.Pool.{
  Destructor, Pool, worker_count, Work, lock, relock, find_idle, find_stop, find_task, sleep, leave,
  take_task, finish, Enqueue, pack, push, throw, unlock, notify, notify_nobody, work, enqueue,
  destroy, Destroy, Reach, begun, then_step, then_spurious, wake_up, begin, request_stop,
  all_stopped, notify_all, join,
}
use cpp_concurrency_toolbox.Pool.Facts.{is_idle, is_alive}
use cpp_concurrency_toolbox.Pool.Safety.{Reach-Inv, worker_count-positive}
use cpp_concurrency_toolbox.Pool.Draining.{
  Progress, by_worker, by_call, Run, then_progress, Progress-Step,
}
use cpp_concurrency_toolbox.Pool.Draining
use cpp_concurrency_toolbox.Pool.Draining.Weight.{weight, Quiet, Progress-weight, in_call-lt}
use cpp_concurrency_toolbox.Pool.Draining.Owners.{Reach-Owned, Enqueue-Quiet, Work-clients}
use cpp_concurrency_toolbox.Pool.Draining.Enabled.{Drained, Drained-or_moves}

module _ {T : Type 0} where
  Work-destructor : (i : ℕ) {s t : Pool T} → Work s i t → t.destructor ≡ s.destructor
  Work-destructor i (lock at_i free) = refl
  Work-destructor i (relock at_i free) = refl
  Work-destructor i (find_idle at_i runs_on bare) = refl
  Work-destructor i (find_stop at_i asked) = refl
  Work-destructor i (find_task at_i there) = refl
  Work-destructor i (sleep at_i) = refl
  Work-destructor i (leave at_i asked bare) = refl
  Work-destructor i (take_task task rest at_i front) = refl
  Work-destructor i (finish number task at_i) = refl

  same-Quiet : (bound : ℕ) (s t : Pool T) → t.clients ≡ s.clients → Quiet bound s → Quiet bound t
  same-Quiet bound s t same quiet j past = ap (λ f. is_idle (f j)) same ∙ quiet j past

module _ {T : Type 0} {n : ℕ} where
  Enqueue-destructor : (j : ℕ) {s t : Pool T} → Enqueue n s j t → t.destructor ≡ s.destructor
  Enqueue-destructor j (pack task at_j alive) = refl
  Enqueue-destructor j (lock task at_j free) = refl
  Enqueue-destructor j (push task at_j) = refl
  Enqueue-destructor j (throw task at_j) = refl
  Enqueue-destructor j (unlock at_j) = refl
  Enqueue-destructor j (notify i below at_j at_i) = refl
  Enqueue-destructor j (notify_nobody at_j nobody) = refl

  Destroy-clients : {s t : Pool T} → Destroy n s t → t.clients ≡ s.clients
  Destroy-clients (begin at_alive idle) = refl
  Destroy-clients (request_stop i at_i below) = refl
  Destroy-clients (all_stopped at_n) = refl
  Destroy-clients (notify_all at_waking) = refl
  Destroy-clients (join at_join all_exited) = refl

  Progress-destructor : {s t : Pool T} → Progress n s t → t.destructor ≡ s.destructor
  Progress-destructor (by_worker i below st) = Work-destructor i st
  Progress-destructor (by_call j busy st) = Enqueue-destructor j st

  Progress-Quiet : (bound : ℕ) {s t : Pool T} → Quiet bound s → Progress n s t → Quiet bound t
  Progress-Quiet bound {s} {t} quiet (by_worker i below st) =
      same-Quiet bound s t (Work-clients i st) quiet
  Progress-Quiet bound {s} quiet (by_call j busy st) =
      Enqueue-Quiet j (in_call-lt n bound s quiet j busy) st quiet

  -- Only finitely many threads are in `enqueue` at a time.
  Reach-Quiet : {s : Pool T} → Reach n s → (bound : ℕ) × Quiet bound s
  Reach-Quiet begun = (0, λ j past. refl)
  Reach-Quiet (then_step {s} {t} r (work i below st)) =
      let (bound, quiet) = Reach-Quiet r in (bound, same-Quiet bound s t (Work-clients i st) quiet)
  Reach-Quiet (then_step {s} {t} r (destroy st)) =
      let (bound, quiet) = Reach-Quiet r in (bound, same-Quiet bound s t (Destroy-clients st) quiet)
  Reach-Quiet (then_step r (enqueue j st)) =
      let (bound, quiet) = Reach-Quiet r in
      (bound + suc j, Enqueue-Quiet j (omega arith) st (λ a past. quiet a (omega arith)))
  Reach-Quiet (then_spurious r (wake_up i below at_i)) = Reach-Quiet r

  -- What a run keeps.
  kept_by-Run :
      (bound : ℕ) {s : Pool T}
      → Reach n s
      → Quiet bound s
      → (k : ℕ) {t : Pool T} → Run n s k t
      → Reach n t
        × Quiet bound t
        × (t.destructor ≡ s.destructor)
        × (weight n bound t + k ≤ weight n bound s)
  kept_by-Run bound r quiet k Draining.begun = (r, quiet, refl, omega arith)
  kept_by-Run bound r quiet k (then_progress {k = k'} {t = t} run st) =
      let (reached, calm, same, less) = kept_by-Run bound r quiet k' run in
      (
        then_step reached (Progress-Step st),
        Progress-Quiet bound calm st,
        Progress-destructor st ∙ same,
        omega (arith, less, Progress-weight n bound t calm st),
      )

-- The pool runs every task, in every order of the steps: from any state that the threads can reach
-- before the destructor has begun, there is a bound on the number of steps that the workers and the open
-- calls of `enqueue` can take, as long as no new call begins, no destructor, and no wait ends without
-- cause; and after any such steps, a further one can be taken, or the queue is empty, no call is open
-- and every task that was ever pushed has been run exactly once.
pub pool_drains :
    {T : Type 0} (threads : ℕ) {s : Pool T}
    → Reach (worker_count threads) s
    → s.destructor ≡ Destructor.alive
    → (bound : ℕ) × ((k : ℕ) (t : Pool T)
        → Run (worker_count threads) s k t
        → (k ≤ bound) × (Drained t ⊎ ((u : Pool T) × Progress (worker_count threads) t u)))
pool_drains threads {s} r alive =
    let (size, quiet) = Reach-Quiet r in
    (
      weight (worker_count threads) size s,
      λ k t run.
          let (reached, calm, same, less) = kept_by-Run size r quiet k run in
          (
            omega (arith, less),
            Drained-or_moves (Reach-Inv (worker_count-positive threads) reached)
                (Reach-Owned reached) size calm (ap is_alive (same ∙ alive)),
          ),
    )
