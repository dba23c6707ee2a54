-- ===== src/Spmc/Safety.antt =====
-- What holds of `SPMCQueue` in every state that its producer and its consumers can reach, while the
-- positions in use stay below `2 ^ 63`: that is for the first 2 ^ 63 - capacity elements.
use native.Mathlib.Nat.{one-le-pow}
use cpp_concurrency_toolbox.Base.{
  ℕ, ◌+◌, ◌^◌, ◌≤◌, ◌<◌, ◌≡◌, ◌⊎◌, inl, inr, refl, none, some, List, [], ◌∷◌, length, get_elem?,
  get_elem?-some, arith, ok, subst, sym, ◌∙◌, ap, length-append, mod_lap,
}
use cpp_concurrency_toolbox.Spmc.{Queue, new, slot_of, size_approx}
use cpp_concurrency_toolbox.Spmc.Steps.{
  Producer, Consumer, Produce, System, Step, by_producer, by_consumer, start, Reach, begun,
  then_step, load_tail, load_seq, refuse, wait, build, throw, store_seq, store_tail,
}
use cpp_concurrency_toolbox.Spmc.Facts.{holds, lead, lag, ProducerFresh, ConsumerFresh, Inv}
use cpp_concurrency_toolbox.Spmc.Claim.{slot_of-mod}
use cpp_concurrency_toolbox.Spmc.Start.{fresh-Inv, new-Made}
use cpp_concurrency_toolbox.Spmc.ByProducer.{Produce-Inv}
use cpp_concurrency_toolbox.Spmc.ByConsumer.{Consume-Inv}

module _ {A : Type 0} where
  -- The history only grows.
  pub Produce-log :
      {m m' : Queue A} {log log' : List A} {p p' : Producer A}
      → Produce m log p m' log' p'
      → length log ≤ length log'
  Produce-log {log} (store_seq {a}) = omega (arith, length-append log (a ∷ []))
  Produce-log (load_tail a) = omega arith
  Produce-log load_seq = omega arith
  Produce-log (refuse ne) = omega arith
  Produce-log (wait ne) = omega arith
  Produce-log (build e) = omega arith
  Produce-log (throw e) = omega arith
  Produce-log store_tail = omega arith

  abbrev pub InvOf : ℕ → System A → Type 0
  InvOf k s = Inv k s.mem s.producer s.consumers s.log s.handed

  Step-Inv :
      {k : ℕ} {s t : System A}
      → length t.log + 2 ^ k < 2 ^ 63
      → Step s t
      → (length s.log + 2 ^ k < 2 ^ 63 → InvOf k s)
      → InvOf k t
  Step-Inv few (by_producer st) inv = Produce-Inv few st (inv (omega (arith, Produce-log st)))
  Step-Inv few (by_consumer i st) inv = Consume-Inv few (inv few) i refl st

  Reach-Inv :
      {k : ℕ} {m : Queue A} {s : System A}
      → InvOf k (start m)
      → length s.log + 2 ^ k < 2 ^ 63
      → Reach m s
      → InvOf k s
  Reach-Inv first few begun = first
  Reach-Inv first few (then_step r st) = Step-Inv few st (λ fewer. Reach-Inv first fewer r)

  -- The invariant of a constructed queue, with the exponent of its capacity.
  pub new-Inv :
      (requested : ℕ) {m : Queue A} {s : System A}
      → new requested ≡ ok m
      → length s.log + m.capacity < 2 ^ 63
      → Reach m s
      → (k : ℕ) × (m.capacity ≡ 2 ^ k) × InvOf k s
  new-Inv requested {m} {s} made few r =
      let (k, two, small, reaches, least, e) = new-Made A requested made in
      (
        k,
        ap (λ q. q.capacity) e,
        Reach-Inv (subst (λ q. InvOf k (start q)) (sym e) (fresh-Inv A k two small))
            (omega (arith, ap (λ (q : Queue A). q.capacity) e)) r,
      )

  -- Exactly once, for a position below the head: either the element published there has been handed
  -- out once and nothing else has been, or nothing has and one consumer is about to hand it out.
  abbrev pub Settled : System A → ℕ → Type 0
  Settled s p =
      ((a : A) × (s.handed p ≡ a ∷ []) × (get_elem? s.log p ≡ some a))
      ⊎ ((s.handed p ≡ []) × ((i : ℕ) × (holds (s.consumers i) ≡ some p)))

  -- From the head on nothing is handed out, and what is published stands in its slot.
  abbrev pub Waiting : System A → ℕ → Type 0
  Waiting s p =
      (s.handed p ≡ [])
      × (p < length s.log → (s.mem.slots (slot_of s.mem p)).storage ≡ get_elem? s.log p)

  settle :
      {k : ℕ} {s : System A} (p : ℕ) (out : List A)
      → InvOf k s
      → p < s.mem.head
      → s.handed p ≡ out
      → Settled s p
  settle p [] inv below e = inr (e, inv.ledger.kept p below e)
  settle p (a ∷ rest) inv below e =
      let (lone, at_p) = inv.ledger.once p a rest e in inl (a, e ∙ ap (λ l. a ∷ l) lone, at_p)

  -- In every interleaving of the producer and any number of consumers of a queue that the
  -- constructor made, with fewer than 2 ^ 63 - capacity elements published: an element below the head
  -- has been handed out exactly once, or exactly one consumer has claimed it and is about to hand it
  -- out; the elements from the head on are in their slots and have not been handed out; and the
  -- head is never past what is published.
  pub exactly_once :
      (requested : ℕ) {m : Queue A} {s : System A}
      → new requested ≡ ok m
      → length s.log + m.capacity < 2 ^ 63
      → Reach m s
      → (s.mem.head ≤ length s.log)
        × ((p : ℕ) → p < s.mem.head → Settled s p)
        × ((p : ℕ) → s.mem.head ≤ p → Waiting s p)
        × ((i j p : ℕ) → holds (s.consumers i) ≡ some p → holds (s.consumers j) ≡ some p → i ≡ j)
  exactly_once requested {s = s} made few r =
      let (k, size, inv) = new-Inv requested made few r in
      (
        inv.slots.order,
        λ p below. settle p (s.handed p) inv below refl,
        λ p above. (
          inv.ledger.unclaimed p above,
          λ published.
              ap (λ i. (s.mem.slots i).storage) (slot_of-mod inv p)
              ∙ inv.slots.live p above published,
        ),
        inv.ledger.unique,
      )

  -- No object is read before it is there, and none is overwritten: with fewer than 2 ^ 63 - capacity
  -- elements published, the slot that a consumer has claimed holds the object published at its
  -- position, and the slot in which the producer is about to build is raw memory.
  pub no_dead_object :
      (requested : ℕ) {m : Queue A} {s : System A}
      → new requested ≡ ok m
      → length s.log + m.capacity < 2 ^ 63
      → Reach m s
      → ((i h : ℕ)
          → s.consumers i ≡ Consumer.claimed h
          → (a : A) × ((s.mem.slots (slot_of s.mem h)).storage ≡ some a)
            × (get_elem? s.log h ≡ some a))
        × ((t seq : ℕ) (a : A)
            → s.producer ≡ Producer.loaded_seq t seq a
            → seq ≡ t
            → (s.mem.slots (slot_of s.mem t)).storage ≡ none)
  no_dead_object requested {s = s} made few r =
      let (k, size, inv) = new-Inv requested made few r in
      (λ i h e. claimed_object inv i h e, λ t seq a e same. raw inv t seq a e same)
    where
      claimed_object :
          {k : ℕ}
          → InvOf k s
          → (i h : ℕ) → s.consumers i ≡ Consumer.claimed h
          → (a : A) × ((s.mem.slots (slot_of s.mem h)).storage ≡ some a)
            × (get_elem? s.log h ≡ some a)
      claimed_object {k} inv i h e =
          let (below, taken, published) =
            subst (ConsumerFresh k s.mem s.log) e (inv.consumers_fresh i) in
          let (a, there) = get_elem?-some s.log h (omega (arith, inv.slots.order)) in
          (a, ap (λ j. (s.mem.slots j).storage) (slot_of-mod inv h) ∙ published ∙ there, there)

      raw :
          {k : ℕ}
          → InvOf k s
          → (t seq : ℕ) (a : A) → s.producer ≡ Producer.loaded_seq t seq a
          → seq ≡ t
          → (s.mem.slots (slot_of s.mem t)).storage ≡ none
      raw {k} inv t seq a e same =
          let (next, free) = subst (ProducerFresh k s.mem s.log) e inv.producer_fresh in
          ap (λ j. (s.mem.slots j).storage) (slot_of-mod inv t)
          ∙ inv.slots.vacant t (omega (arith, ap lead e)) (omega (arith, one-le-pow k 2))
              (free same)

  -- The queue is bounded, and `size_approx` agrees: with fewer than 2 ^ 63 - capacity elements
  -- published, the elements from the head on are at most as many as the slots, and while the producer
  -- is between calls `size_approx` is their number.
  pub bounded_size :
      (requested : ℕ) {m : Queue A} {s : System A}
      → new requested ≡ ok m
      → length s.log + m.capacity < 2 ^ 63
      → Reach m s
      → (length s.log ≤ s.mem.head + m.capacity)
        × (s.producer ≡ Producer.idle → s.mem.head + size_approx s.mem s.mem ≡ length s.log)
  unfolding size_approx
  bounded_size requested {m} {s = s} made few r =
      let (k, size, inv) = new-Inv requested made few r in
      (size_le inv size, λ e. omega (arith, ap lag e, inv.tail_at, inv.slots.order))
    where
      -- Otherwise one slot would have the sequence numbers of two positions.
      size_le : {k : ℕ} → InvOf k s → m.capacity ≡ 2 ^ k → length s.log ≤ s.mem.head + m.capacity
      size_le {k} inv size = ground (
        arith,
        inv.slots.available s.mem.head,
        inv.slots.available (s.mem.head + 2 ^ k),
        mod_lap (2 ^ k) s.mem.head,
        one-le-pow k 2,
      )
