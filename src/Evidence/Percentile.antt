-- ===== src/Evidence/Percentile.antt =====
-- The observed 95th percentile of backend/src/evidence/validate.ts.
use launch_proof.Shared.{
  ℕ, zero, suc, ◌+◌, ◌-◌, ◌*◌, ◌/◌, ◌≤◌, ◌<◌, Bool, length, leb, ltb, if◌then◌else◌, ◌≡◌, refl, ap,
  ◌∙◌, List, [], ◌∷◌, arith,
}
use launch_proof.Evidence.Recompute.{sorted, insert_sorted, observed_p95, nth_or_zero}

-- How many values pass a test.
abbrev pub count : (ℕ → Bool) → List ℕ → ℕ
count p [] = 0
count p (x ∷ xs) = let rest = count p xs in if p x then suc rest else rest

count-insert_sorted :
    (p : ℕ → Bool) (x : ℕ) (xs : List ℕ) → count p (insert_sorted x xs) ≡ count p (x ∷ xs)
count-insert_sorted p x [] = refl
count-insert_sorted p x (y ∷ ys) = ground (arith, count-insert_sorted p x ys)

count-sorted : (p : ℕ → Bool) (xs : List ℕ) → count p (sorted xs) ≡ count p xs
unfolding sorted
count-sorted p [] = refl
count-sorted p (x ∷ xs) = ground (arith, count-insert_sorted p x (sorted xs), count-sorted p xs)

length-insert_sorted : (x : ℕ) (xs : List ℕ) → length (insert_sorted x xs) ≡ suc (length xs)
length-insert_sorted x [] = refl
length-insert_sorted x (y ∷ ys) = ground (arith, length-insert_sorted x ys)

length-sorted : (xs : List ℕ) → length (sorted xs) ≡ length xs
unfolding sorted
length-sorted [] = refl
length-sorted (x ∷ xs) = length-insert_sorted x (sorted xs) ∙ ap suc (length-sorted xs)

-- No value of the list is below.
abbrev IsBelow : ℕ → List ℕ → Type 0
IsBelow x [] = Unit
IsBelow x (y ∷ ys) = (x ≤ y) × IsBelow x ys

abbrev IsAscending : List ℕ → Type 0
IsAscending [] = Unit
IsAscending (x ∷ xs) = IsBelow x xs × IsAscending xs

IsBelow-insert_sorted :
    (b x : ℕ) (xs : List ℕ) → b ≤ x → IsBelow b xs → IsBelow b (insert_sorted x xs)
IsBelow-insert_sorted b x [] h k = (h, tt)
IsBelow-insert_sorted b x (y ∷ ys) h k = ground (arith, IsBelow-insert_sorted b x ys h k.1)

IsBelow-trans : (a b : ℕ) (xs : List ℕ) → a ≤ b → IsBelow b xs → IsBelow a xs
IsBelow-trans a b [] h k = tt
IsBelow-trans a b (x ∷ xs) h k = (omega arith, IsBelow-trans a b xs h k.1)

IsAscending-insert_sorted :
    (x : ℕ) (xs : List ℕ) → IsAscending xs → IsAscending (insert_sorted x xs)
IsAscending-insert_sorted x [] h = (tt, tt)
IsAscending-insert_sorted x (y ∷ ys) h =
    ground (
      arith,
      IsAscending-insert_sorted x ys h.1,
      IsBelow-insert_sorted y x ys,
      IsBelow-trans x y ys,
    )

IsAscending-sorted : (xs : List ℕ) → IsAscending (sorted xs)
unfolding sorted
IsAscending-sorted [] = tt
IsAscending-sorted (x ∷ xs) = IsAscending-insert_sorted x (sorted xs) (IsAscending-sorted xs)

count_below : (b v : ℕ) (xs : List ℕ) → v ≤ b → IsBelow b xs → count (λ x. ltb x v) xs ≡ 0
count_below b v [] h k = refl
count_below b v (x ∷ xs) h k = ground (arith, count_below b v xs h k.1)

IsBelow-nth : (b n : ℕ) (xs : List ℕ) → n < length xs → IsBelow b xs → b ≤ nth_or_zero n xs
IsBelow-nth b n [] h k = absurd (omega arith)
IsBelow-nth b zero (x ∷ xs) h k = k.0
IsBelow-nth b (suc n) (x ∷ xs) h k = IsBelow-nth b n xs (omega arith) k.1

-- In an ascending list more than n values are at most the one at n, and at most n are less.
enough_at :
    (n : ℕ) (xs : List ℕ)
    → n < length xs
    → IsAscending xs
    → suc n ≤ count (λ x. leb x (nth_or_zero n xs)) xs
enough_at n [] h k = absurd (omega arith)
enough_at zero (x ∷ xs) h k = ground arith
enough_at (suc n) (x ∷ xs) h k =
    ground (arith, enough_at n xs (omega arith) k.1, IsBelow-nth x n xs (omega arith) k.0)

few_below :
    (n : ℕ) (xs : List ℕ)
    → n < length xs
    → IsAscending xs
    → count (λ x. ltb x (nth_or_zero n xs)) xs ≤ n
few_below n [] h k = absurd (omega arith)
few_below zero (x ∷ xs) h k = ground (arith, count_below x x xs (omega arith) k.0)
few_below (suc n) (x ∷ xs) h k = ground (arith, few_below n xs (omega arith) k.1)

rank_bounds :
    (m : ℕ)
    → let k = (19 * suc m + 19) / 20 - 1 in
      (k < suc m) × (19 * suc m ≤ 20 * suc k) × (20 * k < 19 * suc m)
rank_bounds m = (omega arith, omega arith, omega arith)

-- At least 95 of a hundred of the values are at most the observed p95, and fewer than that are
-- below it.
pub observed_p95-IsPercentile :
    (x : ℕ) (xs : List ℕ)
    → let p = observed_p95 (x ∷ xs) in
      (19 * length (x ∷ xs) ≤ 20 * count (λ v. leb v p) (x ∷ xs))
      × (20 * count (λ v. ltb v p) (x ∷ xs) < 19 * length (x ∷ xs))
unfolding observed_p95
observed_p95-IsPercentile x xs =
    let values = x ∷ xs in
    let k = (19 * length values + 19) / 20 - 1 in
    let p = nth_or_zero k (sorted values) in
    let (inside, below, above) = rank_bounds (length xs) in
    let within = length-sorted values in
    let enough = enough_at k (sorted values) (omega arith) (IsAscending-sorted values) in
    let few = few_below k (sorted values) (omega arith) (IsAscending-sorted values) in
    let counted = count-sorted (λ v. leb v p) values in
    let counted_below = count-sorted (λ v. ltb v p) values in (omega arith, omega arith)
