-- ===== src/Pool/Hang.antt =====
-- A run of `ThreadPool` in which the destructor waits for ever: it asks for the stop and notifies
-- without `queue_mutex`, while a worker has tested the predicate and does not wait yet.
use cpp_concurrency_toolbox.Base.{
  ℕ, zero, suc, ◌≤◌, ◌<◌, ◌≡◌, refl, Bool, true, false, none, some, arith, update,
}
use cpp_concurrency_toolbox.Pool.{
  worker, Worker, Client, Destructor, Pool, start, set_worker, worker_count, Work, lock, relock,
  find_idle, find_stop, find_task, sleep, leave, take_task, finish, Enqueue, pack, push, throw,
  unlock, notify, notify_nobody, Destroy, begin, request_stop, all_stopped, notify_all, join, Step,
  wake, work, enqueue, destroy, Reach, begun, then_step,
}

-- The pools that come after one, without a spurious wake-up.
pub data Later {T : Type 0} (n : ℕ) (s : Pool T) : Pool T → Type 0 where
  now : Later n s s
  next : {t u : Pool T} → Later n s t → Step n t u → Later n s u

-- The stop requests that have been made before worker `i`'s.
abbrev asked : ℕ → ℕ → Bool
asked zero = λ _. false
asked (suc i) = update (asked i) i true

-- Worker `i` is asleep, and the destructor is past its `notify_all`.
record Stuck {T : Type 0} (i : ℕ) (s : Pool T) : Type 0 where
  waits : s.destructor ≡ Destructor.joining
  sleeps : s.workers i ≡ Worker.asleep
  no_call : (j : ℕ) → s.clients j ≡ Client.idle

module _ (T : Type 0) (n i : ℕ) (below : i < n) where
  -- Worker `i` has found the queue empty and no stop request, and holds the mutex.
  abbrev blocked : Pool T
  blocked = record (set_worker (set_worker start i Worker.locked) i Worker.blocking) {
    mutex = some (worker i);
  }

  abbrev stopped : ℕ → Pool T
  stopped j = record blocked { destructor = Destructor.stopping j; stop = asked j }

  stopped-Reach : (j : ℕ) → j ≤ n → Reach n (stopped j)
  stopped-Reach zero le =
      then_step
        (then_step (then_step begun (work i below (lock refl refl)))
          (work i below (find_idle (ground arith) refl refl)))
        (destroy (begin refl (λ j. refl)))
  stopped-Reach (suc j) le =
      then_step (stopped-Reach j (omega arith)) (destroy (request_stop j refl (omega arith)))

  abbrev notified : Pool T
  notified = record blocked {
    destructor = Destructor.joining;
    stop = asked n;
    workers = λ j. wake (blocked.workers j);
  }

  abbrev stuck : Pool T
  stuck = record (set_worker notified i Worker.asleep) { mutex = none }

  stuck-Reach : Reach n stuck
  stuck-Reach =
      then_step
        (then_step (then_step (stopped-Reach n (omega arith)) (destroy (all_stopped refl)))
          (destroy (notify_all refl)))
        (work i below (sleep (ground arith)))

  stuck-Stuck : Stuck i stuck
  stuck-Stuck = record { waits = refl; sleeps = ground arith; no_call = λ j. refl }

module _ {T : Type 0} {n i : ℕ} {s : Pool T} (below : i < n) (stuck : Stuck i s) where
  open stuck use {waits, sleeps, no_call}

  Work-Stuck : (j : ℕ) {t : Pool T} → Work s j t → Stuck i t
  Work-Stuck j (lock at_j free) = record { waits = waits; sleeps = ground arith; no_call = no_call }
  Work-Stuck j (relock at_j free) = record {
    waits = waits;
    sleeps = ground arith;
    no_call = no_call;
  }
  Work-Stuck j (find_idle at_j runs_on bare) = record {
    waits = waits;
    sleeps = ground arith;
    no_call = no_call;
  }
  Work-Stuck j (find_stop at_j asked) = record {
    waits = waits;
    sleeps = ground arith;
    no_call = no_call;
  }
  Work-Stuck j (find_task at_j there) = record {
    waits = waits;
    sleeps = ground arith;
    no_call = no_call;
  }
  Work-Stuck j (sleep at_j) = record { waits = waits; sleeps = ground arith; no_call = no_call }
  Work-Stuck j (leave at_j asked bare) = record {
    waits = waits;
    sleeps = ground arith;
    no_call = no_call;
  }
  Work-Stuck j (take_task task rest at_j front) = record {
    waits = waits;
    sleeps = ground arith;
    no_call = no_call;
  }
  Work-Stuck j (finish number task at_j) = record {
    waits = waits;
    sleeps = ground arith;
    no_call = no_call;
  }

  Enqueue-Stuck : (j : ℕ) {t : Pool T} → Enqueue n s j t → Stuck i t
  Enqueue-Stuck j (pack task at_j alive) = absurd (cc)
  Enqueue-Stuck j (lock task at_j free) = absurd (cc (no_call j))
  Enqueue-Stuck j (push task at_j) = absurd (cc (no_call j))
  Enqueue-Stuck j (throw task at_j) = absurd (cc (no_call j))
  Enqueue-Stuck j (unlock at_j) = absurd (cc (no_call j))
  Enqueue-Stuck j (notify w w_below at_j at_w) = absurd (cc (no_call j))
  Enqueue-Stuck j (notify_nobody at_j nobody) = absurd (cc (no_call j))

  Destroy-Stuck : {t : Pool T} → Destroy n s t → Stuck i t
  Destroy-Stuck (begin at_alive idle) = absurd (cc)
  Destroy-Stuck (request_stop j at_j under) = absurd (cc)
  Destroy-Stuck (all_stopped at_n) = absurd (cc)
  Destroy-Stuck (notify_all at_waking) = absurd (cc)
  Destroy-Stuck (join at_join all) = absurd (cc (all i below))

  Step-Stuck : {t : Pool T} → Step n s t → Stuck i t
  Step-Stuck (work j under st) = Work-Stuck j st
  Step-Stuck (enqueue j st) = Enqueue-Stuck j st
  Step-Stuck (destroy st) = Destroy-Stuck st

module _ {T : Type 0} {n i : ℕ} {s : Pool T} (below : i < n) where
  Later-Stuck : {t : Pool T} → Stuck i s → Later n s t → Stuck i t
  Later-Stuck first now = first
  Later-Stuck first (next l st) = Step-Stuck below (Later-Stuck first l) st

-- The destructor can wait for ever. For each worker of a pool there is a state that the threads can
-- reach in which the destructor has asked for the stop, has notified and joins, and from which, as
-- long as no wait ends without cause, the worker stays asleep and the destructor never gets past the
-- join.
pub destructor_can_hang :
    (T : Type 0) (threads i : ℕ)
    → i < worker_count threads
    → (s : Pool T) × Reach (worker_count threads) s
      × ((t : Pool T)
          → Later (worker_count threads) s t
          → (t.workers i ≡ Worker.asleep) × (t.destructor ≡ Destructor.joining))
destructor_can_hang T threads i below = (
  stuck T n i below,
  stuck-Reach T n i below,
  λ t l. let still = Later-Stuck below (stuck-Stuck T n i below) l in (still.sleeps, still.waits),
)
  where
    n : ℕ
    n = worker_count threads
