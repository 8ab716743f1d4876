-- ===== src/Evidence/Policy.antt =====
-- What backend/src/evidence/validate.ts takes from elsewhere: the configuration, and the canonical
-- JSON, the hashes, the accounts and the URLs of the libraries.
use launch_proof.Shared.{ℕ, Text, Option, List}
use launch_proof.Domain.Json.{Fields}
use launch_proof.Domain.Contract.{LaunchContract}
use launch_proof.Domain.Types.{FieldComparison}
use launch_proof.PassportGate.Platform.{Url}

-- The part of `Config` that is read. `fixtures` has the URL and the address of each fixture.
pub record EvidenceConfig : Type 0 where
  pub network : Text
  pub usdt0_address : Text
  pub usdt0_decimals : ℕ
  pub payout_address : Option Text
  pub target_payer_private_key : Option Text
  pub fixtures : List (Option Text × Option Text)

pub record Libraries : Type 0 where
  -- `url.origin`
  pub origin : Url → Text
  -- `hashJcs`
  pub hash_manifest : LaunchContract → Text
  pub hash_schema : Fields → Text
  -- `toJcs`
  pub jcs_inputs : List Fields → Text
  pub jcs_comparisons : List FieldComparison → Text
  -- `privateKeyToAccount(key).address`, with `none` for a throw
  pub account_of : Text → Option Text
