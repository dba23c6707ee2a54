-- ===== src/Fifo/Client.antt =====
-- A client of any bounded queue: a sequence of calls returns what the specification returns.
use cpp_concurrency_toolbox.Base.{ℕ, ◌≡◌, refl, Option, none, some, List, [], ◌∷◌, ap₂}
use cpp_concurrency_toolbox.Fifo.{Op, Reply, Bounded, Returns, poll, replies}

module _ {A Q : Type 0} {limit : ℕ} (impl : Bounded A Q limit) where
  open impl use {try_emplace, try_pop, Holds, emplace_refines, pop_refines}

  -- The calls in order, with what each returns; a call that does not return ends the run.
  unfoldable pub run : Q → List (Op A) → List (Reply A)
  run q [] = []
  run q (Op.emplace a ∷ ops) = let (done, r) = try_emplace q a in Reply.emplaced done ∷ run r ops
  run q (Op.pop ∷ ops) = elim (try_pop q) [ none ↦ [] | some (a, r) ↦ Reply.popped a ∷ run r ops ]

  pub run_refines :
      (ops : List (Op A)) (q : Q) (xs : List A) → Holds q xs → run q ops ≡ replies limit xs ops
  unfolding run replies
  run_refines [] q xs h = refl
  run_refines (Op.emplace a ∷ ops) q xs h =
      let (same, held) = emplace_refines q xs a h in
      ap₂ (λ r rest. Reply.emplaced r ∷ rest) same (run_refines ops _ _ held)
  run_refines (Op.pop ∷ ops) q xs h =
      after_pop (try_pop q) refl (pop_refines q xs h) (run_refines ops)
    where
      after_pop :
          (r : Option (Option A × Q))
          → try_pop q ≡ r
          → Returns Holds (poll xs) r
          → ((q' : Q) (ys : List A) → Holds q' ys → run q' ops ≡ replies limit ys ops)
          → run q (Op.pop ∷ ops) ≡ replies limit xs (Op.pop ∷ ops)
      after_pop none e answer rest = absurd answer
      after_pop (some (a, q')) e answer rest =
          rw (e, run)
            (ap₂ (λ b tail. Reply.popped b ∷ tail) answer.0 (rest q' (poll xs).1 answer.1))
