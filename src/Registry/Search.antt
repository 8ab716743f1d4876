-- ===== src/Registry/Search.antt =====
-- `firstBlockAtOrAfter` and the ranges of `getLogsChunked` in backend/src/chain/registry.ts. Block
-- numbers and times are unsigned integers without a bound.
use launch_proof.Shared.{
  ℕ, zero, suc, ◌+◌, ◌-◌, ◌/◌, ltb, leb, true, false, List, [], ◌∷◌, if◌then◌else◌,
}
use launch_proof.Registry.Client.{Answer, answer, fails, Client}

-- How a search ends: at a block, by an error of the client, or with no fuel left.
pub data Search : Type 0 where
  at_block : ℕ → Search
  search_fails : launch_proof.Registry.Client.RpcError → Search
  search_unfinished : Search

module _ (block_time : ℕ → Answer ℕ) (timestamp : ℕ) where
  unfoldable pub search : ℕ → ℕ → ℕ → Search
  search zero low high = elim (ltb low high) [ true ↦ search_unfinished | false ↦ at_block low ]
  search (suc fuel) low high = elim (ltb low high) [
    | false ↦ at_block low
    | true ↦ elim (block_time (low + (high - low) / 2)) [
      | fails e ↦ search_fails e
      | answer t ↦ elim (ltb t timestamp) [
        | true ↦ search fuel (low + (high - low) / 2 + 1) high
        | false ↦ search fuel low (low + (high - low) / 2)
      ]
    ]
  ]

  -- Each turn halves the distance at least by one, so that the distance is fuel enough.
  unfoldable pub first_block_at_or_after : ℕ → ℕ → Search
  unfolding search
  first_block_at_or_after deployment latest =
      search (latest + 1 - deployment) deployment (latest + 1)

-- The ranges of `chunk` blocks from `start` to `last`; each turn goes on by a block or more.
unfoldable pub ranges_from : ℕ → ℕ → ℕ → ℕ → List (ℕ × ℕ)
ranges_from zero chunk start last = []
ranges_from (suc fuel) chunk start last = elim (leb start last) [
  | false ↦ []
  | true ↦
      (start, if ltb last (start + chunk - 1) then last else start + chunk - 1)
      ∷ ranges_from fuel chunk (start + chunk) last
]

-- `getLogsChunked` asks for these ranges.
unfoldable pub block_ranges : ℕ → ℕ → List (ℕ × ℕ)
unfolding ranges_from
block_ranges first last = ranges_from (last + 1 - first) 100 first last
