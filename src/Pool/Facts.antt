-- ===== src/Pool/Facts.antt =====
-- The invariant of the threads of `ThreadPool`: who holds the mutex, what a worker knows after the
-- predicate, and which worker runs which task.
use cpp_concurrency_toolbox.Base.{
  ℕ, ◌≤◌, ◌<◌, ◌≡◌, ◌≢◌, ◌⊎◌, Bool, true, false, Option, none, some, [], ◌++◌, length, get_elem?,
}
use cpp_concurrency_toolbox.Pool.{worker, client, Worker, Client, Destructor, Pool}

module _ {T : Type 0} where
  -- Between taking the mutex and giving it back.
  abbrev pub inside : Worker T → Bool
  inside Worker.locked = true
  inside Worker.blocking = true
  inside Worker.passed = true
  inside _ = false

  abbrev pub inside_client : Client T → Bool
  inside_client (Client.holding task) = true
  inside_client Client.pushed = true
  inside_client _ = false

  -- The number of the task that a worker runs.
  abbrev pub job : Worker T → Option ℕ
  job (Worker.running number task) = some number
  job _ = none

  abbrev pub has_exited : Worker T → Bool
  has_exited Worker.exited = true
  has_exited _ = false

  -- A worker that may sleep on although there is a task.
  abbrev pub dormant : Worker T → Bool
  dormant Worker.asleep = true
  dormant Worker.exited = true
  dormant _ = false

  -- A client that will still notify a worker.
  abbrev pub will_notify : Client T → Bool
  will_notify Client.pushed = true
  will_notify Client.notifying = true
  will_notify _ = false

  abbrev pub is_idle : Client T → Bool
  is_idle Client.idle = true
  is_idle _ = false

abbrev pub is_alive : Destructor → Bool
is_alive Destructor.alive = true
is_alive _ = false

module _ {T : Type 0} (s : Pool T) where
  -- What worker `i` knows where it stands.
  abbrev pub WorkerOk : ℕ → Worker T → Type 0
  WorkerOk i Worker.blocking = s.tasks ≡ []
  WorkerOk i Worker.passed = s.tasks ≡ [] → s.stop i ≡ true
  WorkerOk i (Worker.running number task) =
      (get_elem? s.started number ≡ some task) × (s.finished number ≡ 0)
  WorkerOk i Worker.exited = (s.tasks ≡ []) × (is_alive s.destructor ≡ false)
  WorkerOk i _ = Unit

  -- Task `k` has been run once, or a worker runs it.
  abbrev pub Served : ℕ → ℕ → Type 0
  Served n k =
      (s.finished k ≡ 1) ⊎ ((s.finished k ≡ 0) × ((i : ℕ) × (i < n) × (job (s.workers i) ≡ some k)))

  -- A task in the queue has a worker that will look for it, or a client that will wake one.
  abbrev pub Attended : ℕ → Type 0
  Attended n =
      ((i : ℕ) × (i < n) × (dormant (s.workers i) ≡ false))
      ⊎ ((j : ℕ) × (will_notify (s.clients j) ≡ true))

pub record Inv {T : Type 0} (n : ℕ) (s : Pool T) : Type 0 where
  pub some_worker : 1 ≤ n
  pub worker_owns : (i : ℕ) → inside (s.workers i) ≡ true → s.mutex ≡ some (worker i)
  pub client_owns : (j : ℕ) → inside_client (s.clients j) ≡ true → s.mutex ≡ some (client j)
  pub worker_ok : (i : ℕ) → WorkerOk s i (s.workers i)
  pub in_order : s.log ≡ s.started ++ s.tasks
  pub unique : (i j k : ℕ) → job (s.workers i) ≡ some k → job (s.workers j) ≡ some k → i ≡ j
  pub unstarted : (k : ℕ) → length s.started ≤ k → s.finished k ≡ 0
  pub served : (k : ℕ) → k < length s.started → Served s n k
  pub stops : (i : ℕ) → s.stop i ≡ true → is_alive s.destructor ≡ false
  pub no_client : is_alive s.destructor ≡ false → (j : ℕ) → is_idle (s.clients j) ≡ true
  pub attended : s.tasks ≢ [] → Attended s n
  pub joined :
      s.destructor ≡ Destructor.destroyed → (i : ℕ) → i < n → has_exited (s.workers i) ≡ true
