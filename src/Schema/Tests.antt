-- ===== src/Schema/Tests.antt =====
-- The claims of a Launch Contract at concrete inputs.
use launch_proof.Shared.{refl, true, false, text, [], ◌∷◌, ◌≡◌, to_lower_case, trim}
use launch_proof.Schema.SafeUse.{safe_use_claims_valid}
use launch_proof.Patterns.{found_from, replace_from, ends}

safe_claims :
    safe_use_claims_valid (text "read-only synthetic data, no credentials, no side effects" ∷ [])
    ≡ true
unfolding safe_use_claims_valid text to_lower_case trim found_from replace_from ends
safe_claims = refl

claims_of_writes :
    safe_use_claims_valid (
      text "Read only sample,  no account or cookies"
      ∷ text "no tool writes; it deletes a row"
      ∷ [])
    ≡ false
unfolding safe_use_claims_valid text to_lower_case trim found_from replace_from ends
claims_of_writes = refl
