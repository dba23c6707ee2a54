-- ===== src/Pool/Draining/Enabled.antt =====
-- A `ThreadPool` whose destructor has not begun takes a further step, or it has run every task.
use cpp_concurrency_toolbox.Base.{
  ℕ, zero, suc, ◌<◌, ◌≡◌, ◌⊎◌, inl, inr, refl, Bool, true, false, Option, none, some, List, [], ◌∷◌,
  ◌++◌, length, arith, ◌==◌, Bool-cases, ap, sym, ◌∙◌, append_nil, ltb,
}
use cpp_concurrency_toolbox.Pool.{
  Owner, worker, client, Worker, Client, Pool, Work, relock, find_idle, find_stop, find_task, sleep,
  leave, take_task, finish, Enqueue, push, unlock, notify,
}
use cpp_concurrency_toolbox.Pool.Facts.{inside, inside_client, job, is_alive, WorkerOk, Served, Inv}
use cpp_concurrency_toolbox.Pool.Draining.{Progress, by_worker, by_call}
use cpp_concurrency_toolbox.Pool.Draining.Weight.{Quiet, idle_of}
use cpp_concurrency_toolbox.Pool.Draining.Owners.{Owned}

search :
    (f : ℕ → Bool) (n : ℕ) → ((i : ℕ) × (i < n) × (f i ≡ true)) ⊎ ((i : ℕ) → i < n → f i ≡ false)
search f zero = inr (λ i below. absurd (omega arith))
search f (suc n) = elim (search f n) [
  | inl (i, below, e) ↦ inl (i, omega arith, e)
  | inr nowhere ↦ elim (Bool-cases (f n)) [
    | inl here ↦ inl (n, omega arith, here)
    | inr nor_here ↦ inr (λ i below. elim (Bool-cases (i == n)) [
      | inl last ↦ ap f {x = i} {y = n} (ground arith) ∙ nor_here
      | inr earlier ↦ nowhere i (ground arith)
    ])
  ]
]

-- Every task that was pushed has been run exactly once, and no call of `enqueue` is open.
abbrev pub Drained : {T : Type 0} → Pool T → Type 0
Drained s =
    (s.tasks ≡ [])
    × ((j : ℕ) → s.clients j ≡ Client.idle)
    × ((k : ℕ) → k < length s.log → s.finished k ≡ 1)

module _ {T : Type 0} where
  -- A worker that can move once the mutex is free.
  abbrev movable : Worker T → Bool
  movable Worker.ready = true
  movable Worker.woken = true
  movable (Worker.running number task) = true
  movable _ = false

  abbrev in_call : Client T → Bool
  in_call Client.idle = false
  in_call _ = true

  idle_of_in_call : (c : Client T) → in_call c ≡ false → c ≡ Client.idle
  idle_of_in_call Client.idle e = refl
  idle_of_in_call (Client.packed task) e = absurd (cc)
  idle_of_in_call (Client.holding task) e = absurd (cc)
  idle_of_in_call Client.pushed e = absurd (cc)
  idle_of_in_call Client.notifying e = absurd (cc)

module _ {T : Type 0} {n : ℕ} {s : Pool T} (inv : Inv n s) (owned : Owned n s) where
  abbrev Moves : Type 0
  Moves = (u : Pool T) × Progress n s u

  move_inside :
      (i : ℕ) (w : Worker T) → i < n → s.workers i ≡ w → inside w ≡ true → WorkerOk s i w → Moves
  move_inside i Worker.locked below at_i e ok = elim (Bool-cases (s.stop i)) [
    | inl asked ↦ (_, by_worker i below (find_stop at_i asked))
    | inr runs_on ↦ by_tasks s.tasks refl runs_on
  ]
    where
      by_tasks : (tasks : List T) → s.tasks ≡ tasks → s.stop i ≡ false → Moves
      by_tasks [] bare runs_on = (_, by_worker i below (find_idle at_i runs_on bare))
      by_tasks (task ∷ rest) front runs_on =
          (_, by_worker i below (find_task at_i (λ bare. absurd (cc))))
  move_inside i Worker.blocking below at_i e ok = (_, by_worker i below (sleep at_i))
  move_inside i Worker.passed below at_i e ok = by_tasks s.tasks refl
    where
      by_tasks : (tasks : List T) → s.tasks ≡ tasks → Moves
      by_tasks [] bare = (_, by_worker i below (leave at_i (ok bare) bare))
      by_tasks (task ∷ rest) front = (_, by_worker i below (take_task task rest at_i front))
  move_inside i Worker.ready below at_i e ok = absurd (cc)
  move_inside i Worker.asleep below at_i e ok = absurd (cc)
  move_inside i Worker.woken below at_i e ok = absurd (cc)
  move_inside i Worker.exited below at_i e ok = absurd (cc)
  move_inside i (Worker.running number task) below at_i e ok = absurd (cc)

  call_inside : (j : ℕ) (c : Client T) → s.clients j ≡ c → inside_client c ≡ true → Moves
  call_inside j (Client.holding task) at_j e = (_, by_call j (λ idle. absurd (cc)) (push task at_j))
  call_inside j Client.pushed at_j e = (_, by_call j (λ idle. absurd (cc)) (unlock at_j))
  call_inside j Client.idle at_j e = absurd (cc)
  call_inside j (Client.packed task) at_j e = absurd (cc)
  call_inside j Client.notifying at_j e = absurd (cc)

  module _ (free : s.mutex ≡ none) where
    move_free : (i : ℕ) (w : Worker T) → i < n → s.workers i ≡ w → movable w ≡ true → Moves
    move_free i Worker.ready below at_i e = (_, by_worker i below (Work.lock at_i free))
    move_free i Worker.woken below at_i e = (_, by_worker i below (relock at_i free))
    move_free i (Worker.running number task) below at_i e =
        (_, by_worker i below (finish number task at_i))
    move_free i Worker.locked below at_i e = absurd (cc)
    move_free i Worker.blocking below at_i e = absurd (cc)
    move_free i Worker.asleep below at_i e = absurd (cc)
    move_free i Worker.passed below at_i e = absurd (cc)
    move_free i Worker.exited below at_i e = absurd (cc)

    -- Before the destructor, a worker that cannot move is asleep.
    rests :
        (i : ℕ) (w : Worker T)
        → is_alive s.destructor ≡ true
        → movable w ≡ false
        → (inside w ≡ true → s.mutex ≡ some (worker i))
        → WorkerOk s i w
        → w ≡ Worker.asleep
    rests i Worker.asleep alive still owns ok = refl
    rests i Worker.exited alive still owns ok = absurd (ground (arith, ok.1))
    rests i Worker.locked alive still owns ok = absurd (cc (owns refl))
    rests i Worker.blocking alive still owns ok = absurd (cc (owns refl))
    rests i Worker.passed alive still owns ok = absurd (cc (owns refl))
    rests i Worker.ready alive still owns ok = absurd (cc)
    rests i Worker.woken alive still owns ok = absurd (cc)
    rests i (Worker.running number task) alive still owns ok = absurd (cc)

    call_free :
        (j : ℕ) (c : Client T)
        → s.clients j ≡ c
        → s.workers 0 ≡ Worker.asleep
        → in_call c ≡ true
        → (inside_client c ≡ true → s.mutex ≡ some (client j))
        → Moves
    call_free j (Client.packed task) at_j sleeps e owns =
        (_, by_call j (λ idle. absurd (cc)) (Enqueue.lock task at_j free))
    call_free j Client.notifying at_j sleeps e owns =
        (_, by_call j (λ idle. absurd (cc)) (notify 0 inv.some_worker at_j sleeps))
    call_free j (Client.holding task) at_j sleeps e owns = absurd (cc (owns refl))
    call_free j Client.pushed at_j sleeps e owns = absurd (cc (owns refl))
    call_free j Client.idle at_j sleeps e owns = absurd (cc)

  module _ (alive : is_alive s.destructor ≡ true)
      (asleep : (i : ℕ) → i < n → s.workers i ≡ Worker.asleep)
      (idle : (j : ℕ) → s.clients j ≡ Client.idle) where
    none_queued : (tasks : List T) → s.tasks ≡ tasks → s.tasks ≡ []
    none_queued [] e = e
    none_queued (task ∷ rest) e = elim (inv.attended (λ bare. absurd (cc))) [
      | inl (i, below, up) ↦ absurd (cc (asleep i below))
      | inr (j, theirs) ↦ absurd (cc (idle j))
    ]

    at_rest-Drained : Drained s
    at_rest-Drained =
        let bare = none_queued s.tasks refl in
        (bare, idle, λ k below. once k (inv.served k (rw (taken bare) below)))
      where
        taken : s.tasks ≡ [] → s.started ≡ s.log
        taken bare = sym (inv.in_order ∙ ap (λ t. s.started ++ t) bare ∙ append_nil s.started)

        once : (k : ℕ) → Served s n k → s.finished k ≡ 1
        once k (inl done) = done
        once k (inr (z, (i, below, runs))) = absurd (cc (ap job (asleep i below)))

  pub Drained-or_moves :
      (bound : ℕ) → Quiet bound s → is_alive s.destructor ≡ true → Drained s ⊎ Moves
  Drained-or_moves bound quiet alive = by_mutex s.mutex refl
    where
      all_idle :
          ((j : ℕ) → j < bound → in_call (s.clients j) ≡ false)
          → (j : ℕ) → s.clients j ≡ Client.idle
      all_idle nowhere j = elim (Bool-cases (ltb j bound)) [
        | inl below ↦ idle_of_in_call (s.clients j) (nowhere j (ground arith))
        | inr past ↦ idle_of (s.clients j) (quiet j (ground arith))
      ]

      with_sleepers :
          s.mutex ≡ none → ((i : ℕ) → i < n → s.workers i ≡ Worker.asleep) → Drained s ⊎ Moves
      with_sleepers free asleep = elim (search (λ j. in_call (s.clients j)) bound) [
        | inl (j, below, e) ↦
            inr
              (call_free free j (s.clients j) refl (asleep 0 inv.some_worker) e (inv.client_owns j))
        | inr nowhere ↦ inl (at_rest-Drained alive asleep (all_idle nowhere))
      ]

      by_mutex : (m : Option Owner) → s.mutex ≡ m → Drained s ⊎ Moves
      by_mutex (some (worker i)) e =
          let (below, within) = owned.worker_inside i e in
          inr (move_inside i (s.workers i) below refl within (inv.worker_ok i))
      by_mutex (some (client j)) e =
          inr (call_inside j (s.clients j) refl (owned.client_inside j e))
      by_mutex none free = elim (search (λ i. movable (s.workers i)) n) [
        | inl (i, below, e) ↦ inr (move_free free i (s.workers i) below refl e)
        | inr still ↦ with_sleepers free (λ i below.
            rests free i (s.workers i) alive (still i below) (inv.worker_owns i) (inv.worker_ok i))
      ]
