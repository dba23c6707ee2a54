-- ===== src/Base/Lists.antt =====
-- Lists measured and indexed by native numbers, under the library's names.
use Prim.Native.Nat.{ℕ, zero, suc, ◌+◌, ◌<◌, ◌≤◌}
use mathlib.Core.Path.{◌≡◌, refl, ap, ◌∙◌}
use mathlib.Core.List.{List, [], ◌∷◌, ◌++◌, map}
use mathlib.Core.Option.{Option, none, some}
use mathlib.Core.Logic.{◌⊎◌, inl, inr}
use native.Mathlib.Omega.{arith}

module _ {ℓ} {A : Type ℓ} where
  abbrev pub length : List A → ℕ
  length [] = 0
  length (x ∷ xs) = suc (length xs)

  abbrev pub get_elem? : List A → ℕ → Option A
  get_elem? [] i = none
  get_elem? (x ∷ xs) zero = some x
  get_elem? (x ∷ xs) (suc i) = get_elem? xs i

  abbrev pub take : ℕ → List A → List A
  take zero xs = []
  take (suc n) [] = []
  take (suc n) (x ∷ xs) = x ∷ take n xs

  pub length-append : (xs ys : List A) → length (xs ++ ys) ≡ length xs + length ys
  length-append [] ys = omega arith
  length-append (x ∷ xs) ys = omega (arith, length-append xs ys)

  pub length-snoc : (xs : List A) (a : A) → length (xs ++ (a ∷ [])) ≡ suc (length xs)
  length-snoc xs a = omega (arith, length-append xs (a ∷ []))

  -- An element that is there stays there when the list grows at its end.
  pub get_elem?-append :
      (xs ys : List A) (i : ℕ) → i < length xs → get_elem? (xs ++ ys) i ≡ get_elem? xs i
  get_elem?-append [] ys i h = absurd (omega arith)
  get_elem?-append (x ∷ xs) ys zero h = refl
  get_elem?-append (x ∷ xs) ys (suc i) h = get_elem?-append xs ys i (omega arith)

  pub get_elem?-snoc : (xs : List A) (a : A) → get_elem? (xs ++ (a ∷ [])) (length xs) ≡ some a
  get_elem?-snoc [] a = refl
  get_elem?-snoc (x ∷ xs) a = get_elem?-snoc xs a

  pub get_elem?-none : (xs : List A) (i : ℕ) → length xs ≤ i → get_elem? xs i ≡ none
  get_elem?-none [] i h = refl
  get_elem?-none (x ∷ xs) zero h = absurd (omega arith)
  get_elem?-none (x ∷ xs) (suc i) h = get_elem?-none xs i (omega arith)

  pub lt_of_get_elem? : (xs : List A) (i : ℕ) {a : A} → get_elem? xs i ≡ some a → i < length xs
  lt_of_get_elem? [] i h = absurd (cc)
  lt_of_get_elem? (x ∷ xs) zero h = omega arith
  lt_of_get_elem? (x ∷ xs) (suc i) h = omega (arith, lt_of_get_elem? xs i h)

  -- A prefix grows by the next element.
  pub take-suc :
      (n : ℕ) (xs : List A) {a : A}
      → get_elem? xs n ≡ some a
      → take (suc n) xs ≡ take n xs ++ (a ∷ [])
  take-suc n [] h = absurd (cc)
  take-suc zero (x ∷ xs) h = ground arith
  take-suc (suc n) (x ∷ xs) h = ap (λ t. x ∷ t) (take-suc n xs h)

  pub take-append : (n : ℕ) (xs ys : List A) → n ≤ length xs → take n (xs ++ ys) ≡ take n xs
  take-append zero xs ys h = refl
  take-append (suc n) [] ys h = absurd (omega arith)
  take-append (suc n) (x ∷ xs) ys h = ap (λ t. x ∷ t) (take-append n xs ys (omega arith))

  -- What stands in a list that has grown by one element.
  pub snoc-cases :
      (xs : List A) (a : A) (i : ℕ) {b : A}
      → get_elem? (xs ++ (a ∷ [])) i ≡ some b
      → ((i < length xs) × (get_elem? xs i ≡ some b)) ⊎ ((i ≡ length xs) × (a ≡ b))
  snoc-cases [] a zero h = inr (refl, cc)
  snoc-cases [] a (suc i) h = absurd (cc)
  snoc-cases (x ∷ xs) a zero h = inl (omega arith, h)
  snoc-cases (x ∷ xs) a (suc i) h = elim (snoc-cases xs a i h) [
    | inl (lt, e) ↦ inl (omega arith, e)
    | inr (at_end, e) ↦ inr (omega arith, e)
  ]

  pub get_elem?-some : (xs : List A) (i : ℕ) → i < length xs → (a : A) × (get_elem? xs i ≡ some a)
  get_elem?-some [] i h = absurd (omega arith)
  get_elem?-some (x ∷ xs) zero h = (x, refl)
  get_elem?-some (x ∷ xs) (suc i) h = get_elem?-some xs i (omega arith)

  pub eq-nil_of_length : (xs : List A) → length xs ≡ 0 → xs ≡ []
  eq-nil_of_length [] h = refl
  eq-nil_of_length (x ∷ xs) h = absurd (omega arith)

  pub append_snoc : (xs ys : List A) (a : A) → (xs ++ (a ∷ [])) ++ ys ≡ xs ++ (a ∷ ys)
  append_snoc [] ys a = refl
  append_snoc (x ∷ xs) ys a = ap (λ t. x ∷ t) (append_snoc xs ys a)

  pub append_nil : (xs : List A) → xs ++ [] ≡ xs
  append_nil [] = refl
  append_nil (x ∷ xs) = ap (λ t. x ∷ t) (append_nil xs)

  pub append_assoc : (xs ys zs : List A) → (xs ++ ys) ++ zs ≡ xs ++ (ys ++ zs)
  append_assoc [] ys zs = refl
  append_assoc (x ∷ xs) ys zs = ap (λ t. x ∷ t) (append_assoc xs ys zs)

  pub get_elem?-after :
      (xs ys : List A) (i : ℕ) → get_elem? (xs ++ ys) (length xs + i) ≡ get_elem? ys i
  get_elem?-after [] ys i = ap (get_elem? ys) {y = i} (omega arith)
  get_elem?-after (x ∷ xs) ys i =
      ap (get_elem? (x ∷ (xs ++ ys))) {y = suc (length xs + i)} (omega arith)
      ∙ get_elem?-after xs ys i

module _ {ℓ} {A B : Type ℓ} (f : A → B) where
  pub length-map : (xs : List A) → length (map f xs) ≡ length xs
  length-map [] = refl
  length-map (x ∷ xs) = ap suc (length-map xs)

  pub get_elem?-map :
      (xs : List A) (i : ℕ) {a : A} → get_elem? xs i ≡ some a → get_elem? (map f xs) i ≡ some (f a)
  get_elem?-map [] i h = absurd (cc)
  get_elem?-map (x ∷ xs) zero h = ap (λ o. elim o [ none ↦ none | some t ↦ some (f t) ]) h
  get_elem?-map (x ∷ xs) (suc i) h = get_elem?-map xs i h

  pub map-append : (xs ys : List A) → map f (xs ++ ys) ≡ map f xs ++ map f ys
  map-append [] ys = refl
  map-append (x ∷ xs) ys = ap (λ t. f x ∷ t) (map-append xs ys)
