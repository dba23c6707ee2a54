-- ===== src/Pool/Safety.antt =====
-- What holds of `ThreadPool` in every state that its threads can reach, spurious wake-ups included.
use cpp_concurrency_toolbox.Base.{
  ℕ, ◌≤◌, ◌<◌, ◌≡◌, ◌≢◌, ◌⊎◌, inl, inr, refl, true, false, some, List, [], ◌∷◌, ◌++◌, length,
  get_elem?, arith, Bool-cases, ap, sym, ◌∙◌, subst, append_nil, get_elem?-append, lt_of_get_elem?,
  ltb,
}
use cpp_concurrency_toolbox.Pool.{
  Worker, Destructor, Pool, start, Step, work, enqueue, destroy, wake_up, Reach, begun, then_step,
  then_spurious, worker_count,
}
use cpp_concurrency_toolbox.Pool.Facts.{
  inside, inside_client, job, has_exited, WorkerOk, Served, Attended, Inv,
}
use cpp_concurrency_toolbox.Pool.Moves.{Work-Inv, spurious-Inv}
use cpp_concurrency_toolbox.Pool.Calls.{Enqueue-Inv}
use cpp_concurrency_toolbox.Pool.Ending.{Destroy-Inv}

module _ {T : Type 0} {n : ℕ} where
  start-Inv : 1 ≤ n → Inv n (start {T = T})
  start-Inv positive = record {
    some_worker = positive;
    worker_owns = λ i e. absurd (cc);
    client_owns = λ j e. absurd (cc);
    worker_ok = λ i. tt;
    in_order = refl;
    unique = λ i j k x y. absurd (cc);
    unstarted = λ k le. refl;
    served = λ k lt. absurd (omega arith);
    stops = λ i e. absurd (cc);
    no_client = λ e j. refl;
    attended = λ waiting. absurd (waiting refl);
    joined = λ e. absurd (cc);
  }

  Step-Inv : {s t : Pool T} → Inv n s → Step n s t → Inv n t
  Step-Inv inv (work i below st) = Work-Inv inv i below st
  Step-Inv inv (enqueue j st) = Enqueue-Inv inv j st
  Step-Inv inv (destroy st) = Destroy-Inv inv st

  pub Reach-Inv : {s : Pool T} → 1 ≤ n → Reach n s → Inv n s
  Reach-Inv positive begun = start-Inv positive
  Reach-Inv positive (then_step r st) = Step-Inv (Reach-Inv positive r) st
  Reach-Inv positive (then_spurious r (wake_up i below at_i)) =
      spurious-Inv (Reach-Inv positive r) i below at_i

pub worker_count-positive : (threads : ℕ) → 1 ≤ worker_count threads
unfolding worker_count
worker_count-positive threads = ground arith

module _ {T : Type 0} (threads : ℕ) {s : Pool T} (r : Reach (worker_count threads) s) where
  inv : Inv (worker_count threads) s
  inv = Reach-Inv (worker_count-positive threads) r

  ok_at : (i : ℕ) {w : Worker T} → s.workers i ≡ w → WorkerOk s i w
  ok_at i e = subst (WorkerOk s i) e (inv.worker_ok i)

  exited_at : (w : Worker T) → has_exited w ≡ true → w ≡ Worker.exited
  exited_at Worker.exited e = refl
  exited_at Worker.ready e = absurd (cc)
  exited_at Worker.locked e = absurd (cc)
  exited_at Worker.blocking e = absurd (cc)
  exited_at Worker.asleep e = absurd (cc)
  exited_at Worker.woken e = absurd (cc)
  exited_at Worker.passed e = absurd (cc)
  exited_at (Worker.running k task) e = absurd (cc)

  -- When the destructor has joined the workers, no task is left in the queue, the tasks were taken in
  -- the order in which they were pushed, and each task that was ever pushed has been run to its end
  -- exactly once. That holds in every interleaving of the workers, any number of threads in
  -- `enqueue`, and the destructor.
  pub destroyed-drained :
      s.destructor ≡ Destructor.destroyed
      → (s.tasks ≡ []) × (s.started ≡ s.log) × ((k : ℕ) → k < length s.log → s.finished k ≡ 1)
  destroyed-drained over = (empty, same, λ k below. once k (inv.served k (rw same below)))
    where
      gone : (i : ℕ) → i < worker_count threads → s.workers i ≡ Worker.exited
      gone i below = exited_at (s.workers i) (inv.joined over i below)

      empty : s.tasks ≡ []
      empty = (ok_at 0 (gone 0 (worker_count-positive threads))).0

      same : s.started ≡ s.log
      same = sym (inv.in_order ∙ ap (λ t. s.started ++ t) empty ∙ append_nil s.started)

      once : (k : ℕ) → Served s (worker_count threads) k → s.finished k ≡ 1
      once k (inl done) = done
      once k (inr (z, (i, below, runs))) = absurd (ground (arith, gone i below))

  -- Tasks are handed out in the order in which they were pushed and each is run at most once: what
  -- was pushed is what was taken followed by what is still queued; a task that a worker runs is the
  -- one that was pushed under its number, has not been run before, and is run by no other worker; and
  -- no task has been run more than once.
  pub runs_once :
      (s.log ≡ s.started ++ s.tasks)
      × ((i k : ℕ) (task : T)
          → s.workers i ≡ Worker.running k task
          → (get_elem? s.log k ≡ some task)
            × (s.finished k ≡ 0)
            × ((j : ℕ) (other : T) → s.workers j ≡ Worker.running k other → j ≡ i))
      × ((k : ℕ) → s.finished k ≤ 1)
  runs_once = (
    inv.in_order,
    λ i k task runs. (
      rw inv.in_order (
          get_elem?-append s.started s.tasks k (lt_of_get_elem? s.started k (ok_at i runs).0)
          ∙ (ok_at i runs).0),
      (ok_at i runs).1,
      λ j other also. inv.unique j i k (ap job also) (ap job runs),
    ),
    λ k. elim (Bool-cases (ltb k (length s.started))) [
      | inl below ↦ at_most k (inv.served k (ground arith))
      | inr above ↦ omega (arith, inv.unstarted k (ground arith))
    ],
  )
    where
      at_most : (k : ℕ) → Served s (worker_count threads) k → s.finished k ≤ 1
      at_most k (inl done) = omega arith
      at_most k (inr (z, runner)) = omega arith

  -- At most one thread at a time is between taking `queue_mutex` and giving it back, and a worker that
  -- has passed the predicate of its wait never takes the front of an empty queue: either there is a
  -- task, or it has been asked to stop and returns.
  pub guarded_queue :
      ((i j : ℕ) → inside (s.workers i) ≡ true → inside (s.workers j) ≡ true → i ≡ j)
      × ((i j : ℕ)
          → inside_client (s.clients i) ≡ true
          → inside_client (s.clients j) ≡ true
          → i ≡ j)
      × ((i j : ℕ) → inside (s.workers i) ≡ true → inside_client (s.clients j) ≡ false)
      × ((i : ℕ)
          → s.workers i ≡ Worker.passed
          → ((task : T) × (rest : List T) × (s.tasks ≡ task ∷ rest))
            ⊎ ((s.tasks ≡ []) × (s.stop i ≡ true)))
  guarded_queue = (
    λ i j x y. ground (arith, inv.worker_owns i x, inv.worker_owns j y),
    λ i j x y. ground (arith, inv.client_owns i x, inv.client_owns j y),
    λ i j x. elim (Bool-cases (inside_client (s.clients j))) [
      | inl y ↦ absurd (ground (arith, inv.worker_owns i x, inv.client_owns j y))
      | inr y ↦ y
    ],
    λ i at_i. front i s.tasks refl at_i,
  )
    where
      front :
          (i : ℕ) (tasks : List T)
          → s.tasks ≡ tasks
          → s.workers i ≡ Worker.passed
          → ((task : T) × (rest : List T) × (s.tasks ≡ task ∷ rest))
            ⊎ ((s.tasks ≡ []) × (s.stop i ≡ true))
      front i [] e at_i = inr (e, ok_at i at_i e)
      front i (task ∷ rest) e at_i = inl (task, rest, e)

  -- No wake-up is lost in `enqueue`: while a task is queued, some worker is neither asleep nor gone,
  -- and so will look for it, or a thread in `enqueue` has pushed and has yet to notify.
  tasks-Attended : s.tasks ≢ [] → Attended s (worker_count threads)
  tasks-Attended waiting = inv.attended waiting
