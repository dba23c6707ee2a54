-- ===== src/Pool/Moves.antt =====
-- A step of a worker of `ThreadPool` keeps the invariant.
use cpp_concurrency_toolbox.Base.{
  ℕ, suc, ◌<◌, ◌≡◌, ◌≢◌, ◌⊎◌, inl, inr, refl, true, false, Option, none, some, List, [], ◌∷◌, ◌++◌,
  length, arith, update, ◌==◌, Bool-cases, length-snoc, append_snoc, get_elem?-snoc,
  get_elem?-append, lt_of_get_elem?, subst, ap, sym, ◌∙◌,
}
use cpp_concurrency_toolbox.Pool.{
  Owner, worker, Worker, Pool, set_worker, Work, lock, relock, find_idle, find_stop, find_task,
  sleep, leave, take_task, finish,
}
use cpp_concurrency_toolbox.Pool.Facts.{
  inside, inside_client, job, has_exited, dormant, WorkerOk, Inv,
}

module _ {T : Type 0} {n : ℕ} {s : Pool T} (inv : Inv n s) where
  -- Whoever else is inside finds that the mutex is neither free nor worker `i`'s.
  pub alone :
      (i : ℕ)
      → (s.mutex ≡ none) ⊎ (s.mutex ≡ some (worker i))
      → ((j : ℕ) → (i == j) ≡ false → inside (s.workers j) ≡ false)
        × ((j : ℕ) → inside_client (s.clients j) ≡ false)
  alone i free = (
    λ j other. ground (arith, inv.worker_owns j, Bool-cases (inside (s.workers j))),
    λ j. ground (arith, inv.client_owns j, Bool-cases (inside_client (s.clients j))),
  )

  module _ (i : ℕ) (below : i < n) (m : Option Owner) (w : Worker T)
      (free : (s.mutex ≡ none) ⊎ (s.mutex ≡ some (worker i)))
      (owns : inside w ≡ true → m ≡ some (worker i)) (before : job (s.workers i) ≡ none)
      (after : job w ≡ none) (ok : WorkerOk s i w) (awake : s.tasks ≢ [] → dormant w ≡ false)
      (stays : has_exited (s.workers i) ≡ false) where
    -- A worker takes the mutex, keeps it or gives it back, and runs no task before or after.
    pub turn-Inv : Inv n (record (set_worker s i w) { mutex = m })
    turn-Inv = record {
      some_worker = inv.some_worker;
      worker_owns = λ j. elim (Bool-cases (i == j)) [
        | inl same ↦ ground arith
        | inr other ↦ ground (arith, (alone i free).0 j)
      ];
      client_owns = λ j. ground (arith, (alone i free).1 j);
      worker_ok = λ j. elim (Bool-cases (i == j)) [
        | inl same ↦ rw same (ground (arith))
        | inr other ↦ rw other (inv.worker_ok j)
      ];
      in_order = inv.in_order;
      unique = λ a b k x y. ground (arith, inv.unique a b k);
      unstarted = inv.unstarted;
      served = λ k lt. elim (inv.served k lt) [
        | inl done ↦ inl done
        | inr (z, (a, a_below, runs)) ↦ inr (z, (a, a_below, ground arith))
      ];
      stops = inv.stops;
      no_client = inv.no_client;
      attended = λ waiting. inl (i, below, ground (arith, awake waiting));
      joined = λ e j under. ground (arith, inv.joined e j, inv.joined e i below);
    }

  -- A worker takes the first task.
  module _ (i : ℕ) (below : i < n) (task : T) (rest : List T) (at_i : s.workers i ≡ Worker.passed)
      (front : s.tasks ≡ task ∷ rest) where
    abbrev taken : Pool T
    taken = record (set_worker s i (Worker.running (length s.started) task)) {
      mutex = none;
      tasks = rest;
      started = s.started ++ (task ∷ []);
    }

    taken-Ok : (j : ℕ) (w : Worker T) → inside w ≡ false → WorkerOk s j w → WorkerOk taken j w
    taken-Ok j (Worker.running number other) out (at_number, fresh) = (
      get_elem?-append s.started (task ∷ []) number (lt_of_get_elem? s.started number at_number)
          ∙ at_number,
      fresh,
    )
    taken-Ok j Worker.exited out (empty, over) = absurd (cc)
    taken-Ok j Worker.blocking out ok = absurd (cc)
    taken-Ok j Worker.passed out ok = absurd (cc)
    taken-Ok j Worker.ready out ok = tt
    taken-Ok j Worker.locked out ok = tt
    taken-Ok j Worker.asleep out ok = tt
    taken-Ok j Worker.woken out ok = tt

    mine : s.mutex ≡ some (worker i)
    mine = inv.worker_owns i (ap inside at_i)

    -- The number of a task that is run is one that was given.
    job-lt : (j k : ℕ) → job (s.workers j) ≡ some k → k < length s.started
    job-lt j k runs = runner (s.workers j) (inv.worker_ok j) runs
      where
        runner : (w : Worker T) → WorkerOk s j w → job w ≡ some k → k < length s.started
        runner (Worker.running number other) ok e =
            ground (arith, lt_of_get_elem? s.started number ok.0)
        runner _ ok e = absurd (cc)

    pub taken-Inv : Inv n taken
    taken-Inv = record {
      some_worker = inv.some_worker;
      worker_owns = λ j. elim (Bool-cases (i == j)) [
        | inl same ↦ ground arith
        | inr other ↦ ground (arith, (alone i (inr mine)).0 j)
      ];
      client_owns = λ j. ground (arith, (alone i (inr mine)).1 j);
      worker_ok = λ j. elim (Bool-cases (i == j)) [
        | inl same ↦
            rw same (get_elem?-snoc s.started task, inv.unstarted (length s.started) (omega arith))
        | inr other ↦
            rw other (taken-Ok j (s.workers j) ((alone i (inr mine)).0 j other) (inv.worker_ok j))
      ];
      in_order =
          inv.in_order ∙ ap (λ t. s.started ++ t) front ∙ sym (append_snoc s.started rest task);
      unique = λ a b k x y. ground (arith, inv.unique a b k, job-lt a k, job-lt b k);
      unstarted = λ k le. inv.unstarted k (omega (arith, length-snoc s.started task));
      served = λ k lt. elim (Bool-cases (k == length s.started)) [
        | inl new ↦ inr (inv.unstarted k (ground arith), (i, below, ground arith))
        | inr old ↦ elim (inv.served k (ground (arith, length-snoc s.started task))) [
          | inl done ↦ inl done
          | inr (z, (a, a_below, runs)) ↦ inr (z, (a, a_below, ground arith))
        ]
      ];
      stops = inv.stops;
      no_client = inv.no_client;
      attended = λ waiting. inl (i, below, ground arith);
      joined = λ e j under. ground (arith, inv.joined e j, inv.joined e i below);
    }

  -- The task of a worker ends.
  module _ (i : ℕ) (below : i < n) (number : ℕ) (task : T)
      (at_i : s.workers i ≡ Worker.running number task) where
    abbrev finished_pool : Pool T
    finished_pool = record (set_worker s i Worker.ready) {
      finished = update s.finished number (suc (s.finished number));
    }

    mine_job : job (s.workers i) ≡ some number
    mine_job = ap job at_i

    mine_ok : WorkerOk s i (Worker.running number task)
    mine_ok = subst (WorkerOk s i) at_i (inv.worker_ok i)

    finished-Ok :
        (j : ℕ) (w : Worker T) → job w ≢ some number → WorkerOk s j w → WorkerOk finished_pool j w
    finished-Ok j (Worker.running other_number other) differs (at_number, fresh) =
        (at_number, ground (arith))
    finished-Ok j Worker.exited differs ok = ok
    finished-Ok j Worker.blocking differs ok = ok
    finished-Ok j Worker.passed differs ok = ok
    finished-Ok j Worker.ready differs ok = tt
    finished-Ok j Worker.locked differs ok = tt
    finished-Ok j Worker.asleep differs ok = tt
    finished-Ok j Worker.woken differs ok = tt

    pub finished-Inv : Inv n finished_pool
    finished-Inv = record {
      some_worker = inv.some_worker;
      worker_owns = λ j. elim (Bool-cases (i == j)) [
        | inl same ↦ ground arith
        | inr other ↦ ground (arith, inv.worker_owns j)
      ];
      client_owns = inv.client_owns;
      worker_ok = λ j. elim (Bool-cases (i == j)) [
        | inl same ↦ rw same tt
        | inr other ↦ rw other (
            finished-Ok j (s.workers j) (λ e. ground (arith, inv.unique i j number mine_job e))
              (inv.worker_ok j))
      ];
      in_order = inv.in_order;
      unique = λ a b k x y. ground (arith, inv.unique a b k);
      unstarted =
          λ k le. ground (arith, inv.unstarted k, lt_of_get_elem? s.started number mine_ok.0);
      served = λ k lt. elim (Bool-cases (number == k)) [
        | inl same ↦ inl (ground (arith, mine_ok.1))
        | inr other ↦ elim (inv.served k lt) [
          | inl done ↦ inl (ground arith)
          | inr (z, (a, a_below, runs)) ↦ inr (ground arith, (a, a_below, ground arith))
        ]
      ];
      stops = inv.stops;
      no_client = inv.no_client;
      attended = λ waiting. inl (i, below, ground arith);
      joined = λ e j under. ground (arith, inv.joined e j, inv.joined e i below);
    }

  locked_owns : (i : ℕ) → s.workers i ≡ Worker.locked → s.mutex ≡ some (worker i)
  locked_owns i at_i = inv.worker_owns i (ap inside at_i)

  pub Work-Inv : (i : ℕ) {t : Pool T} → i < n → Work s i t → Inv n t
  Work-Inv i below (lock at_i free) =
      turn-Inv i below (some (worker i)) Worker.locked (inl free) (λ e. refl) (ap job at_i) refl tt
        (λ waiting. refl) (ap has_exited at_i)
  Work-Inv i below (relock at_i free) =
      turn-Inv i below (some (worker i)) Worker.locked (inl free) (λ e. refl) (ap job at_i) refl tt
        (λ waiting. refl) (ap has_exited at_i)
  Work-Inv i below (find_idle at_i runs_on bare) =
      turn-Inv i below s.mutex Worker.blocking (inr (locked_owns i at_i)) (λ e. locked_owns i at_i)
        (ap job at_i) refl bare (λ waiting. refl) (ap has_exited at_i)
  Work-Inv i below (find_stop at_i asked) =
      turn-Inv i below s.mutex Worker.passed (inr (locked_owns i at_i)) (λ e. locked_owns i at_i)
        (ap job at_i) refl (λ bare. asked) (λ waiting. refl) (ap has_exited at_i)
  Work-Inv i below (find_task at_i there) =
      turn-Inv i below s.mutex Worker.passed (inr (locked_owns i at_i)) (λ e. locked_owns i at_i)
        (ap job at_i) refl (λ bare. absurd (there bare)) (λ waiting. refl) (ap has_exited at_i)
  Work-Inv i below (sleep at_i) =
      turn-Inv i below none Worker.asleep (inr (inv.worker_owns i (ap inside at_i)))
        (λ e. absurd (cc)) (ap job at_i) refl tt
        (λ waiting. absurd (waiting (subst (WorkerOk s i) at_i (inv.worker_ok i))))
        (ap has_exited at_i)
  Work-Inv i below (leave at_i asked bare) =
      turn-Inv i below none Worker.exited (inr (inv.worker_owns i (ap inside at_i)))
        (λ e. absurd (cc)) (ap job at_i) refl (bare, inv.stops i asked)
        (λ waiting. absurd (waiting bare)) (ap has_exited at_i)
  Work-Inv i below (take_task task rest at_i front) = taken-Inv i below task rest at_i front
  Work-Inv i below (finish number task at_i) = finished-Inv i below number task at_i

  pub spurious-Inv :
      (i : ℕ) → i < n → s.workers i ≡ Worker.asleep → Inv n (set_worker s i Worker.woken)
  spurious-Inv i below at_i = record {
    some_worker = inv.some_worker;
    worker_owns = λ j. ground (arith, inv.worker_owns j);
    client_owns = inv.client_owns;
    worker_ok = λ j. elim (Bool-cases (i == j)) [
      | inl same ↦ rw same tt
      | inr other ↦ rw other (inv.worker_ok j)
    ];
    in_order = inv.in_order;
    unique = λ a b k x y. ground (arith, inv.unique a b k);
    unstarted = inv.unstarted;
    served = λ k lt. elim (inv.served k lt) [
      | inl done ↦ inl done
      | inr (z, (a, a_below, runs)) ↦ inr (z, (a, a_below, ground arith))
    ];
    stops = inv.stops;
    no_client = inv.no_client;
    attended = λ waiting. inl (i, below, ground arith);
    joined = λ e j under. ground (arith, inv.joined e j);
  }
