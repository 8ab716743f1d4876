-- ===== src/Registry/Logs.antt =====
-- The logs of a run in backend/src/chain/registry.ts: of the receipt of a known transaction, or of the
-- blocks of the time when the run was anchored.
use launch_proof.Shared.{
  ℕ, ◌+◌, ◌-◌, Bool, false, not, ◌&&◌, ◌==◌, nat_eq, list_eq, ltb, Text, Option, none, some, List,
  [], filter, if◌then◌else◌,
}
use launch_proof.Evidence.Payments.{same_lower}
use launch_proof.Registry.Client.{
  Answer, answer, fails, ◌>>=◌, PublishedArgs, ChainLog, Receipt, Client, RegistryConfig,
}
use launch_proof.Registry.Search.{
  Search, at_block, search_fails, search_unfinished, first_block_at_or_after,
}
use launch_proof.Registry.Match.{is_bytes32_exact}

abbrev pub is_run : Text → Option PublishedArgs → Bool
is_run run_id none = false
is_run run_id (some args) = same_lower args.run_id run_id

-- The block of a search; the search has fuel enough.
abbrev pub search_answer : Search → Answer ℕ
search_answer (at_block b) = answer b
search_answer (search_fails e) = fails e
search_answer search_unfinished = answer 0

module _ (config : RegistryConfig) (client : Client) where
  abbrev pub receipt_logs : Text → Text → Receipt → Answer (List ChainLog)
  receipt_logs address run_id receipt = answer (
      if receipt.success
      then filter (λ l. same_lower l.address address && is_run run_id l.published) receipt.logs
      else [])

  unfoldable pub logs_from_receipt : Text → Text → Text → Answer (List ChainLog)
  logs_from_receipt address transaction run_id =
      client.get_receipt transaction >>= receipt_logs address run_id

  abbrev pub first_block : ℕ → ℕ → Answer ℕ
  first_block timestamp latest =
      search_answer
        (first_block_at_or_after client.get_block_time timestamp config.deployment_block latest)

  abbrev pub logs_up_to : Text → ℕ → ℕ → ℕ → Answer (List ChainLog)
  logs_up_to run_id latest start after =
      client.get_logs run_id start (if ltb latest after then latest else after - 1)

  abbrev pub logs_at_start : Text → ℕ → ℕ → ℕ → ℕ → Answer (List ChainLog)
  logs_at_start run_id anchored_at latest start time =
      if not (time == anchored_at)
      then answer []
      else first_block (anchored_at + 1) latest >>= logs_up_to run_id latest start

  abbrev pub logs_from_start : Text → ℕ → ℕ → ℕ → Answer (List ChainLog)
  logs_from_start run_id anchored_at latest start =
      if ltb latest start
      then answer []
      else client.get_block_time start >>= logs_at_start run_id anchored_at latest start

  unfoldable pub logs_at_anchored_timestamp : Text → ℕ → Answer (List ChainLog)
  unfolding first_block_at_or_after
  logs_at_anchored_timestamp run_id anchored_at =
      client.get_block_number
      >>= (λ latest. first_block anchored_at latest >>= logs_from_start run_id anchored_at latest)

  abbrev pub found_logs : Text → Text → Option Text → ℕ → Answer (List ChainLog)
  found_logs address run_id none anchored_at = logs_at_anchored_timestamp run_id anchored_at
  found_logs address run_id (some hint) anchored_at =
      if is_bytes32_exact hint
      then logs_from_receipt address hint run_id
      else logs_at_anchored_timestamp run_id anchored_at
