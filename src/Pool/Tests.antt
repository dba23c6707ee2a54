-- ===== src/Pool/Tests.antt =====
-- `ThreadPool` at concrete inputs: one worker, and one task.
use cpp_concurrency_toolbox.Base.{
  ℕ, ◌≤◌, ◌<◌, ◌≡◌, ◌⊎◌, refl, true, false, some, List, [], ◌∷◌, ◌++◌, length, get_elem?, arith,
}
use cpp_concurrency_toolbox.Pool.{
  Worker, Client, Destructor, Pool, start, worker_count, Work, Enqueue, Destroy, Step, work,
  enqueue, destroy, Reach, begun, then_step,
}
use cpp_concurrency_toolbox.Pool
use cpp_concurrency_toolbox.Pool.Facts.{inside, inside_client}
use cpp_concurrency_toolbox.Pool.Safety.{destroyed-drained, runs_once, guarded_queue}
use cpp_concurrency_toolbox.Pool.Draining.{Progress, Run}
use cpp_concurrency_toolbox.Pool.Draining.Enabled.{Drained}
use cpp_concurrency_toolbox.Pool.Draining.Ends.{pool_drains}
use cpp_concurrency_toolbox.Pool.Hang.{Later, destructor_can_hang}

at_least_one : (worker_count 0 ≡ 1) × (worker_count 3 ≡ 3)
unfolding worker_count
at_least_one = (refl, refl)

-- A client has pushed the task 7, and holds the mutex.
abbrev queued : (s : Pool ℕ) × Reach (worker_count 1) s
queued = (
  _,
  then_step
      (then_step (then_step begun (enqueue 0 (Pool.pack 7 refl refl)))
        (enqueue 0 (Pool.Enqueue.lock 7 refl refl)))
      (enqueue 0 (Pool.push 7 refl)),
)

-- The worker runs the task.
abbrev busy : (s : Pool ℕ) × Reach (worker_count 1) s
unfolding worker_count
busy = (
  _,
  then_step
      (then_step
        (then_step
          (then_step (then_step queued.1 (enqueue 0 (Pool.unlock refl)))
            (enqueue 0 (Pool.notify_nobody refl (λ i below e. absurd (cc)))))
          (work 0 (omega arith) (Pool.Work.lock refl refl)))
        (work 0 (omega arith) (Pool.find_task refl (λ e. absurd (cc)))))
      (work 0 (omega arith) (Pool.take_task 7 [] refl refl)),
)

-- The task has ended, and the worker has gone to sleep.
abbrev resting : (s : Pool ℕ) × Reach (worker_count 1) s
unfolding worker_count
resting = (
  _,
  then_step
      (then_step
        (then_step (then_step busy.1 (work 0 (omega arith) (Pool.finish 0 7 refl)))
          (work 0 (omega arith) (Pool.Work.lock refl refl)))
        (work 0 (omega arith) (Pool.find_idle refl refl refl)))
      (work 0 (omega arith) (Pool.sleep refl)),
)

abbrev woken_up : (s : Pool ℕ) × Reach (worker_count 1) s
unfolding worker_count
woken_up = (
  _,
  then_step
      (then_step
        (then_step (then_step resting.1 (destroy (Pool.begin refl (λ j. ground arith))))
          (destroy (Pool.request_stop 0 refl (omega arith))))
        (destroy (Pool.all_stopped refl)))
      (destroy (Pool.notify_all refl)),
)

abbrev over : (s : Pool ℕ) × Reach (worker_count 1) s
unfolding worker_count
over = (
  _,
  then_step
      (then_step
        (then_step (then_step woken_up.1 (work 0 (omega arith) (Pool.relock refl refl)))
          (work 0 (omega arith) (Pool.find_stop refl refl)))
        (work 0 (omega arith) (Pool.leave refl refl refl)))
      (destroy (Pool.join refl (λ i below. ground arith))),
)

destroyed-drained_example :
    (over.0.tasks ≡ [])
    × (over.0.started ≡ over.0.log)
    × ((k : ℕ) → k < length over.0.log → over.0.finished k ≡ 1)
unfolding over
destroyed-drained_example = destroyed-drained 1 over.1 refl

runs_once_example :
    (busy.0.log ≡ busy.0.started ++ busy.0.tasks)
    × ((i k : ℕ) (task : ℕ)
        → busy.0.workers i ≡ Worker.running k task
        → (get_elem? busy.0.log k ≡ some task)
          × (busy.0.finished k ≡ 0)
          × ((j : ℕ) (other : ℕ) → busy.0.workers j ≡ Worker.running k other → j ≡ i))
    × ((k : ℕ) → busy.0.finished k ≤ 1)
runs_once_example = runs_once 1 busy.1

guarded_queue_example :
    ((i j : ℕ) → inside (queued.0.workers i) ≡ true → inside (queued.0.workers j) ≡ true → i ≡ j)
    × ((i j : ℕ)
        → inside_client (queued.0.clients i) ≡ true
        → inside_client (queued.0.clients j) ≡ true
        → i ≡ j)
    × ((i j : ℕ) → inside (queued.0.workers i) ≡ true → inside_client (queued.0.clients j) ≡ false)
    × ((i : ℕ)
        → queued.0.workers i ≡ Worker.passed
        → ((task : ℕ) × (rest : List ℕ) × (queued.0.tasks ≡ task ∷ rest))
          ⊎ ((queued.0.tasks ≡ []) × (queued.0.stop i ≡ true)))
guarded_queue_example = guarded_queue 1 queued.1

pool_drains_example :
    (bound : ℕ) × ((k : ℕ) (t : Pool ℕ)
      → Run (worker_count 1) queued.0 k t
      → (k ≤ bound) × (Drained t ⊎ ((u : Pool ℕ) × Progress (worker_count 1) t u)))
pool_drains_example = pool_drains 1 queued.1 refl

second-lt : 1 < worker_count 2
unfolding worker_count
second-lt = omega arith

destructor_can_hang_example :
    (s : Pool ℕ) × Reach (worker_count 2) s
    × ((t : Pool ℕ)
        → Later (worker_count 2) s t
        → (t.workers 1 ≡ Worker.asleep) × (t.destructor ≡ Destructor.joining))
destructor_can_hang_example = destructor_can_hang ℕ 2 1 second-lt
