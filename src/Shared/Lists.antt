-- ===== src/Shared/Lists.antt =====
-- Lists measured by native numbers, and the JavaScript `Map` as an association list.
use Prim.Native.Nat.{ℕ, zero, suc}
use mathlib.Core.Path.{◌≡◌, refl}
use mathlib.Core.Bool.{Bool, true, false, not, ◌&&◌, ◌||◌}
use mathlib.Core.Option.{Option, none, some}
use mathlib.Core.List.{List, [], ◌∷◌}
use native.Mathlib.Omega.{arith}
use launch_proof.Shared.Tests.{if◌then◌else◌}
use launch_proof.Shared.Equality.{Eq, ◌==◌}

module _ {ℓ} {A : Type ℓ} where
  abbrev pub length : List A → ℕ
  length [] = 0
  length (x ∷ xs) = suc (length xs)

  abbrev pub take : ℕ → List A → List A
  take zero xs = []
  take (suc n) [] = []
  take (suc n) (x ∷ xs) = x ∷ take n xs

  -- `Array.prototype.filter`
  abbrev pub filter : (A → Bool) → List A → List A
  filter p [] = []
  filter p (x ∷ xs) = let rest = filter p xs in if p x then x ∷ rest else rest

  -- `Array.prototype.find`
  abbrev pub find : (A → Bool) → List A → Option A
  find p [] = none
  find p (x ∷ xs) = let rest = find p xs in if p x then some x else rest

  abbrev pub all : (A → Bool) → List A → Bool
  all p [] = true
  all p (x ∷ xs) = p x && all p xs

-- A JavaScript `Map`: entries in the order of first insertion, keys pairwise different.
module _ {ℓ} {K V : Type ℓ} ⦃e : Eq K⦄ where
  unfoldable pub lookup : K → List (K × V) → Option V
  lookup key [] = none
  lookup key ((own, value) ∷ rest) = if own == key then some value else lookup key rest

  unfoldable pub insert : K → V → List (K × V) → List (K × V)
  insert key new [] = (key, new) ∷ []
  insert key new ((own, value) ∷ rest) =
      if own == key then (own, new) ∷ rest else (own, value) ∷ insert key new rest

  pub lookup-insert :
      (key other : K) (new : V) (entries : List (K × V))
      → lookup other (insert key new entries)
        ≡ (if key == other then some new else lookup other entries)
  unfolding lookup insert
  lookup-insert key other new [] = refl
  lookup-insert key other new ((own, value) ∷ rest) = ground (
    arith,
    lookup-insert key other new rest,
    e.beq_iff key other,
    e.beq_iff own other,
    e.beq_iff own key,
  )

module _ {ℓ} {A : Type ℓ} ⦃e : Eq A⦄ where
  -- `[...new Set(xs)]`: each value once, where it came first.
  unfoldable pub unique : List A → List A
  unique [] = []
  unique (x ∷ xs) = x ∷ filter (λ y. not (y == x)) (unique xs)

  pub unique-eq_nil : (xs : List A) → unique xs ≡ [] → xs ≡ []
  unfolding unique
  unique-eq_nil [] h = refl
  unique-eq_nil (x ∷ xs) h = absurd (cc)

  abbrev pub contains : A → List A → Bool
  contains a [] = false
  contains a (x ∷ xs) = (x == a) || contains a xs

  -- No value stands twice.
  abbrev pub IsUnique : List A → Type 0
  IsUnique [] = Unit
  IsUnique (x ∷ xs) = (contains x xs ≡ false) × IsUnique xs

  contains-filter :
      (p : A → Bool) (a : A) (xs : List A)
      → contains a (filter p xs) ≡ true
      → (p a ≡ true) × (contains a xs ≡ true)
  contains-filter p a [] h = absurd (cc)
  contains-filter p a (x ∷ xs) h = ground (arith, contains-filter p a xs, e.beq_iff x a)

  filter-contains :
      (p : A → Bool) (a : A) (xs : List A)
      → p a ≡ true
      → contains a xs ≡ true
      → contains a (filter p xs) ≡ true
  filter-contains p a [] h k = absurd (cc)
  filter-contains p a (x ∷ xs) h k = ground (arith, filter-contains p a xs, e.beq_iff x a)

  IsUnique-filter : (p : A → Bool) (xs : List A) → IsUnique xs → IsUnique (filter p xs)
  IsUnique-filter p [] h = tt
  IsUnique-filter p (x ∷ xs) h = ground (arith, IsUnique-filter p xs h.1, contains-filter p x xs)

  pub unique-IsUnique : (xs : List A) → IsUnique (unique xs)
  unfolding unique
  unique-IsUnique [] = tt
  unique-IsUnique (x ∷ xs) = (
    ground (arith, contains-filter (λ y. not (y == x)) x (unique xs), e.beq_iff x x),
    IsUnique-filter (λ y. not (y == x)) (unique xs) (unique-IsUnique xs),
  )

  -- The set has the values of the list.
  pub contains-unique : (a : A) (xs : List A) → contains a xs ≡ true → contains a (unique xs) ≡ true
  unfolding unique
  contains-unique a [] h = h
  contains-unique a (x ∷ xs) h = ground (
    arith,
    contains-unique a xs,
    filter-contains (λ y. not (y == x)) a (unique xs),
    e.beq_iff x a,
    e.beq_iff a x,
  )
