-- ===== src/Fifo.antt =====
-- What the queues of include/SPSCLockFreeQueue.h and include/SPMCLockFreeQueue.h promise to one
-- caller: a bounded first-in, first-out queue. The interface `Bounded` is what an implementation
-- proves, and `run_refines` is what a client gets from it.
pub mod Client
use cpp_concurrency_toolbox.Base.{
  ℕ, ◌≡◌, Bool, true, false, Option, none, some, List, [], ◌∷◌, ◌++◌, length, ◌==◌, if◌then◌else◌,
}

pub data Op (A : Type 0) : Type 0 where
  emplace : A → Op A
  pop : Op A

pub data Reply (A : Type 0) : Type 0 where
  emplaced : Bool → Reply A
  popped : Option A → Reply A

module _ {A : Type 0} where
  -- Oldest element first; an element that does not fit is refused.
  unfoldable pub offer : ℕ → List A → A → Bool × List A
  offer limit xs a = if length xs == limit then (false, xs) else (true, xs ++ (a ∷ []))

  unfoldable pub poll : List A → Option A × List A
  poll [] = (none, [])
  poll (x ∷ xs) = (some x, xs)

  unfoldable pub replies : ℕ → List A → List (Op A) → List (Reply A)
  replies limit xs [] = []
  replies limit xs (Op.emplace a ∷ ops) =
      let (done, ys) = offer limit xs a in Reply.emplaced done ∷ replies limit ys ops
  replies limit xs (Op.pop ∷ ops) = let (a, ys) = poll xs in Reply.popped a ∷ replies limit ys ops

-- A call of `try_pop` returns, with the answer and what is left of the specification.
abbrev pub Returns :
    {A Q : Type 0} → (Q → List A → Type 0) → Option A × List A → Option (Option A × Q) → Type 0
Returns Holds answer none = ⊥
Returns Holds answer (some (a, q)) = (a ≡ answer.0) × Holds q answer.1

-- An implementation `Q` of the queue of at most `limit` elements. `Holds q xs`: `q` stands for `xs`.
-- A `try_pop` of `none` is one that does not return.
pub record Bounded (A Q : Type 0) (limit : ℕ) : Type 1 where
  pub try_emplace : Q → A → Bool × Q
  pub try_pop : Q → Option (Option A × Q)
  pub Holds : Q → List A → Type 0
  pub emplace_refines :
      (q : Q) (xs : List A) (a : A)
      → Holds q xs
      → ((try_emplace q a).0 ≡ (offer limit xs a).0)
        × Holds (try_emplace q a).1 (offer limit xs a).1
  pub pop_refines : (q : Q) (xs : List A) → Holds q xs → Returns Holds (poll xs) (try_pop q)
