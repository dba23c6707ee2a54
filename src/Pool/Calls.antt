-- ===== src/Pool/Calls.antt =====
-- A step of a thread in `enqueue`, and one of the destructor, keeps the invariant of `ThreadPool`.
use cpp_concurrency_toolbox.Base.{
  ℕ, ◌<◌, ◌≡◌, ◌≢◌, ◌⊎◌, inl, inr, refl, true, false, Option, none, some, [], ◌∷◌, ◌++◌, arith,
  ◌==◌, Bool-cases, append_assoc, ap, ◌∙◌,
}
use cpp_concurrency_toolbox.Pool.{
  Owner, client, Worker, Client, Pool, set_worker, set_client, Enqueue, pack, lock, push, throw,
  unlock, notify, notify_nobody,
}
use cpp_concurrency_toolbox.Pool.Facts.{
  inside, inside_client, dormant, will_notify, is_idle, is_alive, WorkerOk, Attended, Inv,
}

module _ {T : Type 0} {n : ℕ} {s : Pool T} (inv : Inv n s) where
  alive_of_call : (j : ℕ) → is_idle (s.clients j) ≡ false → is_alive s.destructor ≡ true
  alive_of_call j busy = elim (Bool-cases (is_alive s.destructor)) [
    | inl alive ↦ alive
    | inr over ↦ absurd (ground (arith, inv.no_client over j))
  ]

  alone_client :
      (i : ℕ)
      → (s.mutex ≡ none) ⊎ (s.mutex ≡ some (client i))
      → ((j : ℕ) → inside (s.workers j) ≡ false)
        × ((j : ℕ) → (i == j) ≡ false → inside_client (s.clients j) ≡ false)
  alone_client i free = (
    λ j. ground (arith, inv.worker_owns j, Bool-cases (inside (s.workers j))),
    λ j other. ground (arith, inv.client_owns j, Bool-cases (inside_client (s.clients j))),
  )

  module _ (i : ℕ) (m : Option Owner) (c : Client T) (alive : is_alive s.destructor ≡ true)
      (free : (m ≡ s.mutex) ⊎ ((s.mutex ≡ none) ⊎ (s.mutex ≡ some (client i))))
      (owns : inside_client c ≡ true → m ≡ some (client i))
      (attended : s.tasks ≢ [] → Attended (set_client s i c) n) where
    -- A client takes the mutex, keeps it or gives it back, and pushes nothing.
    pub call-Inv : Inv n (record (set_client s i c) { mutex = m })
    call-Inv = record {
      some_worker = inv.some_worker;
      worker_owns = λ j. elim free [
        | inl same ↦ ground (arith, inv.worker_owns j)
        | inr theirs ↦ ground (arith, (alone_client i theirs).0 j)
      ];
      client_owns = λ j. elim (Bool-cases (i == j)) [
        | inl same ↦ ground arith
        | inr other ↦ elim free [
          | inl same ↦ ground (arith, inv.client_owns j)
          | inr theirs ↦ ground (arith, (alone_client i theirs).1 j)
        ]
      ];
      worker_ok = inv.worker_ok;
      in_order = inv.in_order;
      unique = inv.unique;
      unstarted = inv.unstarted;
      served = inv.served;
      stops = inv.stops;
      no_client = λ over. absurd (cc);
      attended = attended;
      joined = λ e. absurd (ground arith);
    }

  module _ (i : ℕ) (task : T) (at_i : s.clients i ≡ Client.holding task) where
    abbrev pushed_pool : Pool T
    pushed_pool = record (set_client s i Client.pushed) {
      tasks = s.tasks ++ (task ∷ []);
      log = s.log ++ (task ∷ []);
    }

    alive : is_alive s.destructor ≡ true
    alive = alive_of_call i (ap is_idle at_i)

    mine : s.mutex ≡ some (client i)
    mine = inv.client_owns i (ap inside_client at_i)

    pushed-Ok :
        (j : ℕ) (w : Worker T) → inside w ≡ false → WorkerOk s j w → WorkerOk pushed_pool j w
    pushed-Ok j (Worker.running number other) out ok = ok
    pushed-Ok j Worker.exited out ok = absurd (ground (arith, alive))
    pushed-Ok j Worker.blocking out ok = absurd (cc)
    pushed-Ok j Worker.passed out ok = absurd (cc)
    pushed-Ok j Worker.ready out ok = tt
    pushed-Ok j Worker.locked out ok = tt
    pushed-Ok j Worker.asleep out ok = tt
    pushed-Ok j Worker.woken out ok = tt

    pushed-Inv : Inv n pushed_pool
    pushed-Inv = record {
      some_worker = inv.some_worker;
      worker_owns = inv.worker_owns;
      client_owns = λ j. elim (Bool-cases (i == j)) [
        | inl same ↦ ground (arith, mine)
        | inr other ↦ ground (arith, inv.client_owns j)
      ];
      worker_ok =
          λ j. pushed-Ok j (s.workers j) ((alone_client i (inr mine)).0 j) (inv.worker_ok j);
      in_order =
          ap (λ t. t ++ (task ∷ [])) inv.in_order ∙ append_assoc s.started s.tasks (task ∷ []);
      unique = inv.unique;
      unstarted = inv.unstarted;
      served = inv.served;
      stops = inv.stops;
      no_client = λ over. absurd (ground (arith, alive));
      attended = λ waiting. inr (i, ground arith);
      joined = λ e. absurd (ground (arith, alive));
    }

  module _ (j i : ℕ) (below : i < n) (at_j : s.clients j ≡ Client.notifying)
      (at_i : s.workers i ≡ Worker.asleep) where
    abbrev notified : Pool T
    notified = set_worker (set_client s j Client.idle) i Worker.woken

    notified-Inv : Inv n notified
    notified-Inv = record {
      some_worker = inv.some_worker;
      worker_owns = λ a. ground (arith, inv.worker_owns a);
      client_owns = λ a. ground (arith, inv.client_owns a);
      worker_ok = λ a. elim (Bool-cases (i == a)) [
        | inl same ↦ rw same tt
        | inr other ↦ rw other (inv.worker_ok a)
      ];
      in_order = inv.in_order;
      unique = λ a b k x y. ground (arith, inv.unique a b k);
      unstarted = inv.unstarted;
      served = λ k lt. elim (inv.served k lt) [
        | inl done ↦ inl done
        | inr (z, (a, a_below, runs)) ↦ inr (z, (a, a_below, ground arith))
      ];
      stops = inv.stops;
      no_client = λ over a. ground (arith, inv.no_client over a);
      attended = λ waiting. inl (i, below, ground arith);
      joined = λ e a under. ground (arith, inv.joined e a);
    }

  -- With no worker asleep, and none that has left, the first worker is awake.
  first_awake :
      (j : ℕ)
      → s.clients j ≡ Client.notifying
      → ((i : ℕ) → i < n → s.workers i ≢ Worker.asleep)
      → dormant (s.workers 0) ≡ false
  first_awake j at_j nobody = awake (s.workers 0) (nobody 0 inv.some_worker) (inv.worker_ok 0)
    where
      awake : (w : Worker T) → w ≢ Worker.asleep → WorkerOk s 0 w → dormant w ≡ false
      awake Worker.exited up ok = absurd (ground (arith, alive_of_call j (ap is_idle at_j)))
      awake Worker.asleep up ok = absurd (up refl)
      awake (Worker.running k task) up ok = refl
      awake Worker.ready up ok = refl
      awake Worker.locked up ok = refl
      awake Worker.blocking up ok = refl
      awake Worker.passed up ok = refl
      awake Worker.woken up ok = refl

  -- A client that has not pushed leaves the tasks attended.
  still-Attended :
      (i : ℕ) (c : Client T)
      → will_notify (s.clients i) ≡ will_notify c
      → s.tasks ≢ []
      → Attended (set_client s i c) n
  still-Attended i c same waiting = elim (inv.attended waiting) [
    | inl there ↦ inl there
    | inr (j, busy) ↦ inr (j, ground arith)
  ]

  pub Enqueue-Inv : (i : ℕ) {t : Pool T} → Enqueue n s i t → Inv n t
  Enqueue-Inv i (pack task at_i alive) =
      call-Inv i s.mutex (Client.packed task) (ap is_alive alive) (inl refl) (λ e. absurd (cc))
        (still-Attended i (Client.packed task) (ap will_notify at_i))
  Enqueue-Inv i (lock task at_i free) =
      call-Inv i (some (client i)) (Client.holding task) (alive_of_call i (ap is_idle at_i))
        (inr (inl free)) (λ e. refl) (still-Attended i (Client.holding task) (ap will_notify at_i))
  Enqueue-Inv i (push task at_i) = pushed-Inv i task at_i
  Enqueue-Inv i (throw task at_i) =
      call-Inv i none Client.idle (alive_of_call i (ap is_idle at_i))
        (inr (inr (inv.client_owns i (ap inside_client at_i)))) (λ e. absurd (cc))
        (still-Attended i Client.idle (ap will_notify at_i))
  Enqueue-Inv i (unlock at_i) =
      call-Inv i none Client.notifying (alive_of_call i (ap is_idle at_i))
        (inr (inr (inv.client_owns i (ap inside_client at_i)))) (λ e. absurd (cc))
        (still-Attended i Client.notifying (ap will_notify at_i))
  Enqueue-Inv i (notify w below at_i at_w) = notified-Inv i w below at_i at_w
  Enqueue-Inv i (notify_nobody at_i nobody) =
      call-Inv i s.mutex Client.idle (alive_of_call i (ap is_idle at_i)) (inl refl)
        (λ e. absurd (cc)) (λ waiting. inl (0, inv.some_worker, first_awake i at_i nobody))
