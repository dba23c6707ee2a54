-- ===== src/Pool/Draining/Owners.antt =====
-- Who holds the mutex of `ThreadPool` is between taking it and giving it back, and only finitely many
-- threads are in `enqueue` at a time.
use cpp_concurrency_toolbox.Base.{ℕ, ◌<◌, ◌≡◌, refl, true, some, arith, ◌∙◌}
use cpp_concurrency_toolbox.Pool.{
  worker, client, Pool, Work, lock, relock, find_idle, find_stop, find_task, sleep, leave,
  take_task, finish, Enqueue, pack, push, throw, unlock, notify, notify_nobody, Destroy, begin,
  request_stop, all_stopped, notify_all, join, Step, work, enqueue, destroy, Spurious, wake_up,
  Reach, begun, then_step, then_spurious,
}
use cpp_concurrency_toolbox.Pool.Facts.{inside, inside_client}
use cpp_concurrency_toolbox.Pool.Ending.{inside-wake}
use cpp_concurrency_toolbox.Pool.Draining.Weight.{Quiet}

pub record Owned {T : Type 0} (n : ℕ) (s : Pool T) : Type 0 where
  pub worker_inside : (i : ℕ) → s.mutex ≡ some (worker i) → (i < n) × (inside (s.workers i) ≡ true)
  pub client_inside : (j : ℕ) → s.mutex ≡ some (client j) → inside_client (s.clients j) ≡ true

module _ {T : Type 0} {n : ℕ} {s : Pool T} (old : Owned n s) where
  Work-Owned : (i : ℕ) {t : Pool T} → i < n → Work s i t → Owned n t
  Work-Owned i below (lock at_i free) = record {
    worker_inside = λ a e. (ground arith, ground arith);
    client_inside = λ j e. absurd (cc);
  }
  Work-Owned i below (relock at_i free) = record {
    worker_inside = λ a e. (ground arith, ground arith);
    client_inside = λ j e. absurd (cc);
  }
  Work-Owned i below (find_idle at_i runs_on bare) = record {
    worker_inside = λ a e. ground (arith, old.worker_inside a);
    client_inside = λ j e. ground (arith, old.client_inside j);
  }
  Work-Owned i below (find_stop at_i asked) = record {
    worker_inside = λ a e. ground (arith, old.worker_inside a);
    client_inside = λ j e. ground (arith, old.client_inside j);
  }
  Work-Owned i below (find_task at_i there) = record {
    worker_inside = λ a e. ground (arith, old.worker_inside a);
    client_inside = λ j e. ground (arith, old.client_inside j);
  }
  Work-Owned i below (sleep at_i) = record {
    worker_inside = λ a e. absurd (cc);
    client_inside = λ j e. absurd (cc);
  }
  Work-Owned i below (leave at_i asked bare) = record {
    worker_inside = λ a e. absurd (cc);
    client_inside = λ j e. absurd (cc);
  }
  Work-Owned i below (take_task task rest at_i front) = record {
    worker_inside = λ a e. absurd (cc);
    client_inside = λ j e. absurd (cc);
  }
  Work-Owned i below (finish number task at_i) = record {
    worker_inside = λ a e. ground (arith, old.worker_inside a);
    client_inside = λ j e. ground (arith, old.client_inside j);
  }

  Enqueue-Owned : (j : ℕ) {t : Pool T} → Enqueue n s j t → Owned n t
  Enqueue-Owned j (pack task at_j alive) = record {
    worker_inside = old.worker_inside;
    client_inside = λ a e. ground (arith, old.client_inside a);
  }
  Enqueue-Owned j (lock task at_j free) = record {
    worker_inside = λ a e. absurd (cc);
    client_inside = λ a e. ground arith;
  }
  Enqueue-Owned j (push task at_j) = record {
    worker_inside = old.worker_inside;
    client_inside = λ a e. ground (arith, old.client_inside a);
  }
  Enqueue-Owned j (throw task at_j) = record {
    worker_inside = λ a e. absurd (cc);
    client_inside = λ a e. absurd (cc);
  }
  Enqueue-Owned j (unlock at_j) = record {
    worker_inside = λ a e. absurd (cc);
    client_inside = λ a e. absurd (cc);
  }
  Enqueue-Owned j (notify i below at_j at_i) = record {
    worker_inside = λ a e. ground (arith, old.worker_inside a);
    client_inside = λ a e. ground (arith, old.client_inside a);
  }
  Enqueue-Owned j (notify_nobody at_j nobody) = record {
    worker_inside = old.worker_inside;
    client_inside = λ a e. ground (arith, old.client_inside a);
  }

  Destroy-Owned : {t : Pool T} → Destroy n s t → Owned n t
  Destroy-Owned (begin at_alive idle) = record {
    worker_inside = old.worker_inside;
    client_inside = old.client_inside;
  }
  Destroy-Owned (request_stop i at_i below) = record {
    worker_inside = old.worker_inside;
    client_inside = old.client_inside;
  }
  Destroy-Owned (all_stopped at_n) = record {
    worker_inside = old.worker_inside;
    client_inside = old.client_inside;
  }
  Destroy-Owned (notify_all at_waking) = record {
    worker_inside =
        λ i e. ((old.worker_inside i e).0, inside-wake (s.workers i) ∙ (old.worker_inside i e).1);
    client_inside = old.client_inside;
  }
  Destroy-Owned (join at_join all_exited) = record {
    worker_inside = old.worker_inside;
    client_inside = old.client_inside;
  }

  pub Step-Owned : {t : Pool T} → Step n s t → Owned n t
  Step-Owned (work i below st) = Work-Owned i below st
  Step-Owned (enqueue j st) = Enqueue-Owned j st
  Step-Owned (destroy st) = Destroy-Owned st

  Spurious-Owned : {t : Pool T} → Spurious n s t → Owned n t
  Spurious-Owned (wake_up i below at_i) = record {
    worker_inside = λ a e. ground (arith, old.worker_inside a);
    client_inside = old.client_inside;
  }

module _ {T : Type 0} {n : ℕ} where
  pub Reach-Owned : {s : Pool T} → Reach n s → Owned n s
  Reach-Owned begun = record {
    worker_inside = λ i e. absurd (cc);
    client_inside = λ j e. absurd (cc);
  }
  Reach-Owned (then_step r st) = Step-Owned (Reach-Owned r) st
  Reach-Owned (then_spurious r st) = Spurious-Owned (Reach-Owned r) st

  pub Enqueue-Quiet :
      {bound : ℕ} (j : ℕ) {s t : Pool T}
      → j < bound
      → Enqueue n s j t
      → Quiet bound s
      → Quiet bound t
  Enqueue-Quiet j below (pack task at_j alive) quiet a past = ground (arith, quiet a)
  Enqueue-Quiet j below (lock task at_j free) quiet a past = ground (arith, quiet a)
  Enqueue-Quiet j below (push task at_j) quiet a past = ground (arith, quiet a)
  Enqueue-Quiet j below (throw task at_j) quiet a past = ground (arith, quiet a)
  Enqueue-Quiet j below (unlock at_j) quiet a past = ground (arith, quiet a)
  Enqueue-Quiet j below (notify i i_below at_j at_i) quiet a past = ground (arith, quiet a)
  Enqueue-Quiet j below (notify_nobody at_j nobody) quiet a past = ground (arith, quiet a)

module _ {T : Type 0} where
  pub Work-clients : (i : ℕ) {s t : Pool T} → Work s i t → t.clients ≡ s.clients
  Work-clients i (lock at_i free) = refl
  Work-clients i (relock at_i free) = refl
  Work-clients i (find_idle at_i runs_on bare) = refl
  Work-clients i (find_stop at_i asked) = refl
  Work-clients i (find_task at_i there) = refl
  Work-clients i (sleep at_i) = refl
  Work-clients i (leave at_i asked bare) = refl
  Work-clients i (take_task task rest at_i front) = refl
  Work-clients i (finish number task at_i) = refl
