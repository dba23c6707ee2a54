-- ===== src/Pool/Ending.antt =====
-- A step of the destructor keeps the invariant of `ThreadPool`.
use cpp_concurrency_toolbox.Base.{
  ℕ, suc, ◌<◌, ◌≡◌, inl, inr, refl, Bool, true, false, arith, update, ap, sym, ◌∙◌,
}
use cpp_concurrency_toolbox.Pool.{
  Worker, Destructor, Pool, wake, Destroy, begin, request_stop, all_stopped, notify_all, join,
}
use cpp_concurrency_toolbox.Pool.Facts.{
  inside, job, has_exited, dormant, is_idle, is_alive, WorkerOk, Inv,
}

module _ {T : Type 0} where
  pub inside-wake : (w : Worker T) → inside (wake w) ≡ inside w
  inside-wake Worker.asleep = refl
  inside-wake Worker.ready = refl
  inside-wake Worker.locked = refl
  inside-wake Worker.blocking = refl
  inside-wake Worker.woken = refl
  inside-wake Worker.passed = refl
  inside-wake (Worker.running k task) = refl
  inside-wake Worker.exited = refl

  job-wake : (w : Worker T) → job (wake w) ≡ job w
  job-wake Worker.asleep = refl
  job-wake Worker.ready = refl
  job-wake Worker.locked = refl
  job-wake Worker.blocking = refl
  job-wake Worker.woken = refl
  job-wake Worker.passed = refl
  job-wake (Worker.running k task) = refl
  job-wake Worker.exited = refl

  dormant-wake : (w : Worker T) → dormant w ≡ false → dormant (wake w) ≡ false
  dormant-wake Worker.asleep e = refl
  dormant-wake Worker.ready e = refl
  dormant-wake Worker.locked e = refl
  dormant-wake Worker.blocking e = refl
  dormant-wake Worker.woken e = refl
  dormant-wake Worker.passed e = refl
  dormant-wake (Worker.running k task) e = refl
  dormant-wake Worker.exited e = e

module _ {T : Type 0} {n : ℕ} {s : Pool T} (inv : Inv n s) (d : Destructor)
    (over : is_alive d ≡ false) (idle : (j : ℕ) → is_idle (s.clients j) ≡ true) where
  module _ (stop : ℕ → Bool) (more : (i : ℕ) → s.stop i ≡ true → stop i ≡ true)
      (joined : d ≡ Destructor.destroyed → (i : ℕ) → i < n → has_exited (s.workers i) ≡ true) where
    abbrev ended : Pool T
    ended = record s { destructor = d; stop = stop }

    ended-Ok : (i : ℕ) (w : Worker T) → WorkerOk s i w → WorkerOk ended i w
    ended-Ok i Worker.passed ok = λ bare. more i (ok bare)
    ended-Ok i Worker.exited ok = (ok.0, over)
    ended-Ok i Worker.blocking ok = ok
    ended-Ok i (Worker.running k task) ok = ok
    ended-Ok i Worker.ready ok = tt
    ended-Ok i Worker.locked ok = tt
    ended-Ok i Worker.asleep ok = tt
    ended-Ok i Worker.woken ok = tt

    ended-Inv : Inv n ended
    ended-Inv = record {
      some_worker = inv.some_worker;
      worker_owns = inv.worker_owns;
      client_owns = inv.client_owns;
      worker_ok = λ i. ended-Ok i (s.workers i) (inv.worker_ok i);
      in_order = inv.in_order;
      unique = inv.unique;
      unstarted = inv.unstarted;
      served = inv.served;
      stops = λ i e. over;
      no_client = λ e. idle;
      attended = inv.attended;
      joined = joined;
    }

  module _ (unjoined : d ≡ Destructor.joining) where
    abbrev woken_pool : Pool T
    woken_pool = record s { destructor = d; workers = λ i. wake (s.workers i) }

    woken-Ok : (i : ℕ) (w : Worker T) → WorkerOk s i w → WorkerOk woken_pool i (wake w)
    woken-Ok i Worker.passed ok = ok
    woken-Ok i Worker.exited ok = (ok.0, over)
    woken-Ok i Worker.blocking ok = ok
    woken-Ok i (Worker.running k task) ok = ok
    woken-Ok i Worker.ready ok = tt
    woken-Ok i Worker.locked ok = tt
    woken-Ok i Worker.asleep ok = tt
    woken-Ok i Worker.woken ok = tt

    woken-Inv : Inv n woken_pool
    woken-Inv = record {
      some_worker = inv.some_worker;
      worker_owns = λ i e. inv.worker_owns i (sym (inside-wake (s.workers i)) ∙ e);
      client_owns = inv.client_owns;
      worker_ok = λ i. woken-Ok i (s.workers i) (inv.worker_ok i);
      in_order = inv.in_order;
      unique = λ a b k x y.
          inv.unique a b k (sym (job-wake (s.workers a)) ∙ x) (sym (job-wake (s.workers b)) ∙ y);
      unstarted = inv.unstarted;
      served = λ k lt. elim (inv.served k lt) [
        | inl done ↦ inl done
        | inr (z, (a, a_below, runs)) ↦ inr (z, (a, a_below, job-wake (s.workers a) ∙ runs))
      ];
      stops = λ i e. over;
      no_client = λ e. idle;
      attended = λ waiting. elim (inv.attended waiting) [
        | inl (i, below, up) ↦ inl (i, below, dormant-wake (s.workers i) up)
        | inr there ↦ inr there
      ];
      joined = λ e. absurd (cc);
    }

module _ {T : Type 0} {n : ℕ} {s : Pool T} (inv : Inv n s) where
  pub Destroy-Inv : {t : Pool T} → Destroy n s t → Inv n t
  Destroy-Inv (begin at_alive idle) =
      ended-Inv inv (Destructor.stopping 0) refl (λ j. ap is_idle (idle j)) s.stop (λ i e. e)
        (λ e. absurd (cc))
  Destroy-Inv (request_stop i at_i below) =
      ended-Inv inv (Destructor.stopping (suc i)) refl (inv.no_client (ap is_alive at_i))
        (update s.stop i true) (λ j e. ground arith) (λ e. absurd (cc))
  Destroy-Inv (all_stopped at_n) =
      ended-Inv inv Destructor.waking refl (inv.no_client (ap is_alive at_n)) s.stop (λ i e. e)
        (λ e. absurd (cc))
  Destroy-Inv (notify_all at_waking) =
      woken-Inv inv Destructor.joining refl (inv.no_client (ap is_alive at_waking)) refl
  Destroy-Inv (join at_join all_exited) =
      ended-Inv inv Destructor.destroyed refl (inv.no_client (ap is_alive at_join)) s.stop
        (λ i e. e) (λ e i below. ap has_exited (all_exited i below))
