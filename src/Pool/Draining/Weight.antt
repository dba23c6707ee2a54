-- ===== src/Pool/Draining/Weight.antt =====
-- A number that every step of a `ThreadPool` left to itself makes smaller.
use cpp_concurrency_toolbox.Base.{
  ℕ, leb, zero, suc, ◌+◌, ◌*◌, ◌≤◌, ◌<◌, ◌≡◌, ◌≢◌, inl, inr, refl, true, false, length, arith, ◌==◌,
  Bool-cases, length-snoc, update, ap, ◌∙◌,
}
use cpp_concurrency_toolbox.Pool.{
  Worker, Client, Pool, Work, lock, relock, find_idle, find_stop, find_task, sleep, leave,
  take_task, finish, Enqueue, pack, push, throw, unlock, notify, notify_nobody,
}
use cpp_concurrency_toolbox.Pool.Facts.{is_idle}
use cpp_concurrency_toolbox.Pool.Draining.{Progress, by_worker, by_call}

abbrev pub total : (ℕ → ℕ) → ℕ → ℕ
total f zero = 0
total f (suc n) = total f n + f n

total-same : (f g : ℕ → ℕ) (n : ℕ) → ((j : ℕ) → j < n → f j ≡ g j) → total f n ≡ total g n
total-same f g zero same = refl
total-same f g (suc n) same =
    omega (arith, total-same f g n (λ j below. same j (omega arith)), same n (omega arith))

-- One term changes.
total-change :
    (f g : ℕ → ℕ) (n i : ℕ)
    → i < n
    → ((j : ℕ) → (i == j) ≡ false → f j ≡ g j)
    → total f n + g i ≡ total g n + f i
total-change f g zero i below others = absurd (omega arith)
total-change f g (suc n) i below others = elim (Bool-cases (i == n)) [
  | inl last ↦ omega (
    arith,
    total-same f g n (λ j below'. others j (ground arith)),
    ap f {x = i} {y = n} (ground arith),
    ap g {x = i} {y = n} (ground arith),
  )
  | inr earlier ↦ omega (arith, total-change f g n i (ground arith) others, others n earlier)
]

update-same : {X : Type 0} (f : ℕ → X) (i : ℕ) (x : X) → update f i x i ≡ x
update-same f i x = ground arith

module _ {T : Type 0} where
  abbrev pub worker_weight : Worker T → ℕ
  worker_weight Worker.ready = 3
  worker_weight Worker.locked = 2
  worker_weight Worker.blocking = 1
  worker_weight Worker.asleep = 0
  worker_weight Worker.woken = 3
  worker_weight Worker.passed = 1
  worker_weight (Worker.running number task) = 4
  worker_weight Worker.exited = 0

  abbrev pub client_weight : Client T → ℕ
  client_weight Client.idle = 0
  client_weight (Client.packed task) = 11
  client_weight (Client.holding task) = 10
  client_weight Client.pushed = 5
  client_weight Client.notifying = 4

  -- For `n` workers and the clients below `bound`.
  abbrev pub weight : (n bound : ℕ) → Pool T → ℕ
  weight n bound s =
      total (λ i. worker_weight (s.workers i)) n
      + total (λ j. client_weight (s.clients j)) bound
      + 4 * length s.tasks

  -- No client from `bound` on is in a call.
  abbrev pub Quiet : ℕ → Pool T → Type 0
  Quiet bound s = (j : ℕ) → bound ≤ j → is_idle (s.clients j) ≡ true

  pub idle_of : (c : Client T) → is_idle c ≡ true → c ≡ Client.idle
  idle_of Client.idle e = refl
  idle_of (Client.packed task) e = absurd (cc)
  idle_of (Client.holding task) e = absurd (cc)
  idle_of Client.pushed e = absurd (cc)
  idle_of Client.notifying e = absurd (cc)

  module _ (n bound : ℕ) (s : Pool T) where
    worker-weight :
        (i : ℕ) (w : Worker T)
        → i < n
        → total (λ j. worker_weight (update s.workers i w j)) n + worker_weight (s.workers i)
          ≡ total (λ j. worker_weight (s.workers j)) n + worker_weight w
    worker-weight i w below =
        total-change (λ j. worker_weight (update s.workers i w j))
          (λ j. worker_weight (s.workers j)) n i below (λ j other. rw other refl)
        ∙ ap (λ v. total (λ j. worker_weight (s.workers j)) n + worker_weight v)
            (update-same s.workers i w)

    client-weight :
        (i : ℕ) (c : Client T)
        → i < bound
        → total (λ j. client_weight (update s.clients i c j)) bound + client_weight (s.clients i)
          ≡ total (λ j. client_weight (s.clients j)) bound + client_weight c
    client-weight i c below =
        total-change (λ j. client_weight (update s.clients i c j))
          (λ j. client_weight (s.clients j)) bound i below (λ j other. rw other refl)
        ∙ ap (λ d. total (λ j. client_weight (s.clients j)) bound + client_weight d)
            (update-same s.clients i c)

    Work-weight : (i : ℕ) {t : Pool T} → i < n → Work s i t → weight n bound t < weight n bound s
    Work-weight i below (lock at_i free) =
        omega (arith, worker-weight i Worker.locked below, ap worker_weight at_i)
    Work-weight i below (relock at_i free) =
        omega (arith, worker-weight i Worker.locked below, ap worker_weight at_i)
    Work-weight i below (find_idle at_i runs_on bare) =
        omega (arith, worker-weight i Worker.blocking below, ap worker_weight at_i)
    Work-weight i below (find_stop at_i asked) =
        omega (arith, worker-weight i Worker.passed below, ap worker_weight at_i)
    Work-weight i below (find_task at_i there) =
        omega (arith, worker-weight i Worker.passed below, ap worker_weight at_i)
    Work-weight i below (sleep at_i) =
        omega (arith, worker-weight i Worker.asleep below, ap worker_weight at_i)
    Work-weight i below (leave at_i asked bare) =
        omega (arith, worker-weight i Worker.exited below, ap worker_weight at_i)
    Work-weight i below (take_task task rest at_i front) = omega (
      arith,
      worker-weight i (Worker.running (length s.started) task) below,
      ap worker_weight at_i,
      ap length front,
    )
    Work-weight i below (finish number task at_i) =
        omega (arith, worker-weight i Worker.ready below, ap worker_weight at_i)

    Enqueue-weight :
        (j : ℕ) {t : Pool T}
        → j < bound
        → s.clients j ≢ Client.idle
        → Enqueue n s j t
        → weight n bound t < weight n bound s
    Enqueue-weight j below busy (pack task at_j alive) = absurd (busy at_j)
    Enqueue-weight j below busy (lock task at_j free) =
        omega (arith, client-weight j (Client.holding task) below, ap client_weight at_j)
    Enqueue-weight j below busy (push task at_j) = omega (
      arith,
      client-weight j Client.pushed below,
      ap client_weight at_j,
      length-snoc s.tasks task,
    )
    Enqueue-weight j below busy (throw task at_j) =
        omega (arith, client-weight j Client.idle below, ap client_weight at_j)
    Enqueue-weight j below busy (unlock at_j) =
        omega (arith, client-weight j Client.notifying below, ap client_weight at_j)
    Enqueue-weight j below busy (notify i i_below at_j at_i) = omega (
      arith,
      client-weight j Client.idle below,
      ap client_weight at_j,
      worker-weight i Worker.woken i_below,
      ap worker_weight at_i,
    )
    Enqueue-weight j below busy (notify_nobody at_j nobody) =
        omega (arith, client-weight j Client.idle below, ap client_weight at_j)

    pub in_call-lt : Quiet bound s → (j : ℕ) → s.clients j ≢ Client.idle → j < bound
    in_call-lt quiet j busy = elim (Bool-cases (leb bound j)) [
      | inl past ↦ absurd (busy (idle_of (s.clients j) (quiet j (ground arith))))
      | inr below ↦ ground arith
    ]

    pub Progress-weight :
        {t : Pool T} → Quiet bound s → Progress n s t → weight n bound t < weight n bound s
    Progress-weight quiet (by_worker i below st) = Work-weight i below st
    Progress-weight quiet (by_call j busy st) = Enqueue-weight j (in_call-lt quiet j busy) busy st
