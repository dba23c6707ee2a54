-- ===== src/Pool.antt =====
-- include/ThreadPool.h: `ThreadPool`, as the steps of its workers, of the threads that call `enqueue`,
-- and of the destructor. A mutex has an owner; a worker that waits on the condition variable is
-- `asleep` until it is notified.
mod Facts
mod Moves
mod Calls
mod Ending
pub mod Safety
mod Hang
mod Draining
mod Tests
use cpp_concurrency_toolbox.Base.{
  ℕ, suc, ◌+◌, ◌<◌, ◌≡◌, ◌≢◌, Bool, true, false, Option, none, some, List, [], ◌∷◌, ◌++◌, length,
  ◌==◌, if◌then◌else◌, update,
}

-- Who holds `queue_mutex`.
pub data Owner : Type 0 where
  worker client : ℕ → Owner

-- Where a worker stands in its loop. `number` counts the tasks that were taken before.
pub data Worker (T : Type 0) : Type 0 where
  ready : Worker T  -- before the lock
  locked : Worker T  -- before the predicate of the wait
  blocking : Worker T  -- the predicate was false, and the wait has not begun
  asleep : Worker T
  woken : Worker T  -- before the lock is taken again
  passed : Worker T  -- the predicate was true
  running : (number : ℕ) (task : T) → Worker T
  exited : Worker T

-- Where a thread stands in `enqueue`.
pub data Client (T : Type 0) : Type 0 where
  idle : Client T
  packed : (task : T) → Client T  -- before the lock
  holding : (task : T) → Client T
  pushed : Client T  -- before the lock is released
  notifying : Client T

-- Where the destructor stands. `stopping i`: workers below `i` have been asked to stop.
pub data Destructor : Type 0 where
  alive : Destructor
  stopping : ℕ → Destructor
  waking : Destructor  -- before `notify_all`
  joining : Destructor
  destroyed : Destructor

-- `log` is the history of the tasks that were pushed, `started` of those that were taken, and
-- `finished k` how often the task of number `k` has run to its end.
pub record Pool (T : Type 0) : Type 0 where
  pub tasks : List T
  pub mutex : Option Owner
  pub stop : ℕ → Bool
  pub workers : ℕ → Worker T
  pub clients : ℕ → Client T
  pub destructor : Destructor
  pub log : List T
  pub started : List T
  pub finished : ℕ → ℕ

-- The constructor starts at least one worker.
pub worker_count : ℕ → ℕ
worker_count threads = if threads == 0 then 1 else threads

module _ {T : Type 0} where
  abbrev pub start : Pool T
  start = record {
    tasks = [];
    mutex = none;
    stop = λ _. false;
    workers = λ _. Worker.ready;
    clients = λ _. Client.idle;
    destructor = Destructor.alive;
    log = [];
    started = [];
    finished = λ _. 0;
  }

  -- `notify_all`, as one worker sees it.
  abbrev pub wake : Worker T → Worker T
  wake Worker.asleep = Worker.woken
  wake w = w

  abbrev pub set_worker : Pool T → ℕ → Worker T → Pool T
  set_worker s i w = record s { workers = update s.workers i w }

  abbrev pub set_client : Pool T → ℕ → Client T → Pool T
  set_client s i c = record s { clients = update s.clients i c }

-- A step of worker `i`.
pub data Work {T : Type 0} (s : Pool T) (i : ℕ) : Pool T → Type 0 where
  lock :
      s.workers i ≡ Worker.ready
      → s.mutex ≡ none
      → Work s i (record (set_worker s i Worker.locked) { mutex = some (worker i) })
  relock :
      s.workers i ≡ Worker.woken
      → s.mutex ≡ none
      → Work s i (record (set_worker s i Worker.locked) { mutex = some (worker i) })
  find_idle :
      s.workers i ≡ Worker.locked
      → s.stop i ≡ false
      → s.tasks ≡ []
      → Work s i (set_worker s i Worker.blocking)
  find_stop :
      s.workers i ≡ Worker.locked → s.stop i ≡ true → Work s i (set_worker s i Worker.passed)
  find_task : s.workers i ≡ Worker.locked → s.tasks ≢ [] → Work s i (set_worker s i Worker.passed)
  -- The wait releases the mutex and begins in one step.
  sleep :
      s.workers i ≡ Worker.blocking
      → Work s i (record (set_worker s i Worker.asleep) { mutex = none })
  leave :
      s.workers i ≡ Worker.passed
      → s.stop i ≡ true
      → s.tasks ≡ []
      → Work s i (record (set_worker s i Worker.exited) { mutex = none })
  take_task :
      (task : T) (rest : List T)
      → s.workers i ≡ Worker.passed
      → s.tasks ≡ task ∷ rest
      → Work s i (record (set_worker s i (Worker.running (length s.started) task)) {
        mutex = none;
        tasks = rest;
        started = s.started ++ (task ∷ []);
      })
  -- The task returns, or it throws and the worker catches what it throws.
  finish :
      (number : ℕ) (task : T)
      → s.workers i ≡ Worker.running number task
      → Work s i (record (set_worker s i Worker.ready) {
        finished = update s.finished number (suc (s.finished number));
      })

-- A step of client `j`, in a pool of `n` workers.
pub data Enqueue {T : Type 0} (n : ℕ) (s : Pool T) (j : ℕ) : Pool T → Type 0 where
  -- A caller may not enqueue once the destructor has begun.
  pack :
      (task : T)
      → s.clients j ≡ Client.idle
      → s.destructor ≡ Destructor.alive
      → Enqueue n s j (set_client s j (Client.packed task))
  lock :
      (task : T)
      → s.clients j ≡ Client.packed task
      → s.mutex ≡ none
      → Enqueue n s j (record (set_client s j (Client.holding task)) { mutex = some (client j) })
  push :
      (task : T)
      → s.clients j ≡ Client.holding task
      → Enqueue n s j (record (set_client s j Client.pushed) {
        tasks = s.tasks ++ (task ∷ []);
        log = s.log ++ (task ∷ []);
      })
  -- The queue of tasks cannot grow: the mutex is given back, and the exception leaves `enqueue`.
  throw :
      (task : T)
      → s.clients j ≡ Client.holding task
      → Enqueue n s j (record (set_client s j Client.idle) { mutex = none })
  unlock :
      s.clients j ≡ Client.pushed
      → Enqueue n s j (record (set_client s j Client.notifying) { mutex = none })
  -- `notify_one` wakes a worker that is asleep, if there is one.
  notify :
      (i : ℕ)
      → i < n
      → s.clients j ≡ Client.notifying
      → s.workers i ≡ Worker.asleep
      → Enqueue n s j (set_worker (set_client s j Client.idle) i Worker.woken)
  notify_nobody :
      s.clients j ≡ Client.notifying
      → ((i : ℕ) → i < n → s.workers i ≢ Worker.asleep)
      → Enqueue n s j (set_client s j Client.idle)

-- A step of the destructor, and of the members' destructors after it.
pub data Destroy {T : Type 0} (n : ℕ) (s : Pool T) : Pool T → Type 0 where
  begin :
      s.destructor ≡ Destructor.alive
      → ((j : ℕ) → s.clients j ≡ Client.idle)
      → Destroy n s (record s { destructor = Destructor.stopping 0 })
  request_stop :
      (i : ℕ)
      → s.destructor ≡ Destructor.stopping i
      → i < n
      → Destroy n s
          (record s { destructor = Destructor.stopping (suc i); stop = update s.stop i true })
  all_stopped :
      s.destructor ≡ Destructor.stopping n
      → Destroy n s (record s { destructor = Destructor.waking })
  notify_all :
      s.destructor ≡ Destructor.waking
      → Destroy n s
          (record s { destructor = Destructor.joining; workers = λ i. wake (s.workers i) })
  join :
      s.destructor ≡ Destructor.joining
      → ((i : ℕ) → i < n → s.workers i ≡ Worker.exited)
      → Destroy n s (record s { destructor = Destructor.destroyed })

pub data Step {T : Type 0} (n : ℕ) (s : Pool T) : Pool T → Type 0 where
  work : (i : ℕ) {t : Pool T} → i < n → Work s i t → Step n s t
  enqueue : (j : ℕ) {t : Pool T} → Enqueue n s j t → Step n s t
  destroy : {t : Pool T} → Destroy n s t → Step n s t

-- A wait may also end without cause.
pub data Spurious {T : Type 0} (n : ℕ) (s : Pool T) : Pool T → Type 0 where
  wake_up :
      (i : ℕ) → i < n → s.workers i ≡ Worker.asleep → Spurious n s (set_worker s i Worker.woken)

-- The pools that the threads can reach, in any interleaving.
pub data Reach {T : Type 0} (n : ℕ) : Pool T → Type 0 where
  begun : Reach n start
  then_step : {s t : Pool T} → Reach n s → Step n s t → Reach n t
  then_spurious : {s t : Pool T} → Reach n s → Spurious n s t → Reach n t
