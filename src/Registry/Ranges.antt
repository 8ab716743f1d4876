-- ===== src/Registry/Ranges.antt =====
-- The search for a block by its time ends at the first one, and the ranges of blocks that are asked
-- for cover each block once, in backend/src/chain/registry.ts.
use launch_proof.Shared.{
  ◌≢◌, Bool-cases, inl, inr, ℕ, zero, suc, ◌+◌, ◌-◌, ◌/◌, ◌≤◌, ◌<◌, ltb, leb, Bool, true, false,
  ◌&&◌, List, [], ◌∷◌, ◌≡◌, refl, ◌∙◌, arith, if◌then◌else◌,
}
use launch_proof.Registry.Client.{fails, Answer, answer}
use launch_proof.Registry.Search.{
  search_fails, search_unfinished, Search, at_block, search, first_block_at_or_after, ranges_from,
  block_ranges,
}

-- A block between the bounds such that all blocks before it are earlier, and it and all blocks after
-- it are not.
abbrev pub IsFirst : (ℕ → ℕ) → ℕ → ℕ → ℕ → ℕ → Type 0
IsFirst time timestamp low high b =
    (low ≤ b)
    × (b ≤ high)
    × ((n : ℕ) → low ≤ n → n < b → time n < timestamp)
    × ((n : ℕ) → b ≤ n → n < high → timestamp ≤ time n)

module _ (time : ℕ → ℕ) (ascends : (m n : ℕ) → m ≤ n → time m ≤ time n) (timestamp : ℕ)
    (bottom top : ℕ) where
  below : (m n : ℕ) → ltb (time m) timestamp ≡ true → n ≤ m → time n < timestamp
  below m n h k = let a = ascends n m k in ground arith

  above : (m n : ℕ) → ltb (time m) timestamp ≡ false → m ≤ n → timestamp ≤ time n
  above m n h k = let a = ascends m n k in ground arith

  abbrev middle : ℕ → ℕ → ℕ
  middle low high = low + (high - low) / 2

  search_done :
      (fuel low high : ℕ)
      → ltb low high ≡ false
      → search (λ n. answer (time n)) timestamp fuel low high ≡ at_block low
  unfolding search
  search_done zero low high h = rw (h, search) refl
  search_done (suc fuel) low high h = rw (h, search) refl

  search_right :
      (fuel low high : ℕ)
      → ltb low high ≡ true
      → ltb (time (middle low high)) timestamp ≡ true
      → search (λ n. answer (time n)) timestamp (suc fuel) low high
        ≡ search (λ n. answer (time n)) timestamp fuel (middle low high + 1) high
  unfolding search
  search_right fuel low high h k = rw (h, k, search) refl

  search_left :
      (fuel low high : ℕ)
      → ltb low high ≡ true
      → ltb (time (middle low high)) timestamp ≡ false
      → search (λ n. answer (time n)) timestamp (suc fuel) low high
        ≡ search (λ n. answer (time n)) timestamp fuel low (middle low high)
  unfolding search
  search_left fuel low high h k = rw (h, k, search) refl

  -- All blocks below `low` are earlier, and none from `high` on is.
  abbrev IsBracket : ℕ → ℕ → Type 0
  IsBracket low high =
      ((n : ℕ) → n < low → bottom ≤ n → time n < timestamp)
      × ((n : ℕ) → high ≤ n → n < top → timestamp ≤ time n)

  search-IsFirst :
      (fuel low high : ℕ)
      → bottom ≤ low
      → low ≤ high
      → high ≤ top
      → high ≤ low + fuel
      → IsBracket low high
      → (b : ℕ) × (search (λ n. answer (time n)) timestamp fuel low high ≡ at_block b)
        × IsFirst time timestamp bottom top b
  search-IsFirst zero low high g h t k (before, after) = (
    low,
    search_done zero low high (ground arith),
    (g, omega arith, (λ n m l. before n l m), (λ n m l. after n (omega arith) l)),
  )
  search-IsFirst (suc fuel) low high g h t k (before, after) = elim (Bool-cases (ltb low high)) [
    | inr e ↦ (
      low,
      search_done (suc fuel) low high e,
      (g, omega arith, (λ n m l. before n l m), (λ n m l. after n (ground arith) l)),
    )
    | inl e ↦ elim (Bool-cases (ltb (time (middle low high)) timestamp)) [
      | inl early ↦
          let (b, found, first) =
            search-IsFirst fuel (middle low high + 1) high (omega arith) (ground arith) t
              (ground arith) ((λ n m l. below (middle low high) n early (omega arith)), after) in
          (b, search_right fuel low high e early ∙ found, first)
      | inr late ↦
          let (b, found, first) =
            search-IsFirst fuel low (middle low high) g (omega arith) (omega arith) (ground arith)
              (before, (λ n m l. above (middle low high) n late m)) in
          (b, search_left fuel low high e late ∙ found, first)
    ]
  ]

module _ (time : ℕ → ℕ) (ascends : (m n : ℕ) → m ≤ n → time m ≤ time n) (timestamp : ℕ) where
  -- When the chain answers and block times never decrease, the search from the deployment on ends at
  -- the first block whose time is not before the timestamp, or one after the latest block.
  pub first_block_at_or_after-IsFirst :
      (deployment latest : ℕ)
      → deployment ≤ latest + 1
      → (b : ℕ) × (first_block_at_or_after (λ n. answer (time n)) timestamp deployment latest
          ≡ at_block b)
        × IsFirst time timestamp deployment (latest + 1) b
  unfolding first_block_at_or_after
  first_block_at_or_after-IsFirst deployment latest h =
      search-IsFirst time ascends timestamp deployment (latest + 1) (latest + 1 - deployment)
        deployment (latest + 1) (omega arith) h (omega arith) (omega arith)
        ((λ n m l. absurd (omega arith)), (λ n m l. absurd (omega arith)))

-- How many of the ranges contain a block.
abbrev pub times_covered : ℕ → List (ℕ × ℕ) → ℕ
times_covered b [] = 0
times_covered b ((first, last) ∷ rest) =
    let others = times_covered b rest in if leb first b && leb b last then suc others else others

abbrev pub one_if : Bool → ℕ
one_if true = 1
one_if false = 0

ranges_from-covers :
    (fuel start last b : ℕ)
    → last < start + fuel
    → times_covered b (ranges_from fuel 100 start last) ≡ one_if (leb start b && leb b last)
unfolding ranges_from
ranges_from-covers zero start last b h = ground arith
ranges_from-covers (suc fuel) start last b h =
    ground (arith, ranges_from-covers fuel (start + 100) last b (omega arith))

-- Every block from the first to the last stands in exactly one of the ranges, and no other block does.
pub block_ranges-covers :
    (first last b : ℕ)
    → times_covered b (block_ranges first last) ≡ one_if (leb first b && leb b last)
unfolding block_ranges
block_ranges-covers first last b = ranges_from-covers (last + 1 - first) first last b (omega arith)

module _ (block_time : ℕ → Answer ℕ) (timestamp : ℕ) where
  branch :
      (c : Bool) (right left : Search)
      → right ≢ search_unfinished
      → left ≢ search_unfinished
      → (elim c [ true ↦ right | false ↦ left ]) ≢ search_unfinished
  branch true right left h k = h
  branch false right left h k = k

  turn-finishes :
      (low : ℕ) (continues : Bool) (a : Answer ℕ) (right left : Search)
      → (continues ≡ true → right ≢ search_unfinished)
      → (continues ≡ true → left ≢ search_unfinished)
      → (elim continues [
        | false ↦ at_block low
        | true ↦ elim a [
          | fails e ↦ search_fails e
          | answer t ↦ elim (ltb t timestamp) [ true ↦ right | false ↦ left ]
        ]
      ])
        ≢ search_unfinished
  turn-finishes low false a right left h k = λ e. absurd (cc)
  turn-finishes low true (fails x) right left h k = λ e. absurd (cc)
  turn-finishes low true (answer t) right left h k =
      branch (ltb t timestamp) right left (h refl) (k refl)

  at_end :
      (c : Bool) (low : ℕ)
      → c ≡ false
      → (elim c [ true ↦ search_unfinished | false ↦ at_block low ]) ≢ search_unfinished
  at_end false low h = λ e. absurd (cc)
  at_end true low h = absurd (cc)

  search-finishes :
      (fuel low high : ℕ)
      → high ≤ low + fuel
      → search block_time timestamp fuel low high ≢ search_unfinished
  unfolding search
  search-finishes zero low high h = at_end (ltb low high) low (ground arith)
  search-finishes (suc fuel) low high h =
      let mid = low + (high - low) / 2 in
      turn-finishes low (ltb low high) (block_time mid)
        (search block_time timestamp fuel (mid + 1) high) (search block_time timestamp fuel low mid)
        (λ c. search-finishes fuel (mid + 1) high (ground arith))
        (λ c. search-finishes fuel low mid (ground arith))

  -- Whatever the chain answers, the search for a block never runs out of fuel.
  first_block_at_or_after-finishes :
      (deployment latest : ℕ)
      → first_block_at_or_after block_time timestamp deployment latest ≢ search_unfinished
  unfolding first_block_at_or_after
  first_block_at_or_after-finishes deployment latest =
      search-finishes (latest + 1 - deployment) deployment (latest + 1) (omega arith)
