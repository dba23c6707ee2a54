-- ===== src/Pool/Draining.antt =====
-- `ThreadPool` left to itself: the steps that end what has begun, with no new call of `enqueue`, no
-- destructor and no wait that ends without cause.
mod Weight
mod Owners
pub mod Enabled
pub mod Ends
use cpp_concurrency_toolbox.Base.{ℕ, zero, suc, ◌<◌, ◌≡◌, ◌≢◌}
use cpp_concurrency_toolbox.Pool.{Client, Pool, Work, Enqueue, Step, work, enqueue}

pub data Progress {T : Type 0} (n : ℕ) (s : Pool T) : Pool T → Type 0 where
  by_worker : (i : ℕ) {t : Pool T} → i < n → Work s i t → Progress n s t
  by_call : (j : ℕ) {t : Pool T} → s.clients j ≢ Client.idle → Enqueue n s j t → Progress n s t

-- A run of some number of such steps.
pub data Run {T : Type 0} (n : ℕ) (s : Pool T) : ℕ → Pool T → Type 0 where
  begun : Run n s 0 s
  then_progress : {k : ℕ} {t u : Pool T} → Run n s k t → Progress n t u → Run n s (suc k) u

pub Progress-Step : {T : Type 0} {n : ℕ} {s t : Pool T} → Progress n s t → Step n s t
Progress-Step (by_worker i below st) = work i below st
Progress-Step (by_call j busy st) = enqueue j st
