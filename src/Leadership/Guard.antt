-- ===== src/Leadership/Guard.antt =====
-- The guards of backend/src/leadership/leader.ts that never change, and the choice of a guard at start.
use launch_proof.Shared.{Bool, true, false, Text, text, truthy, Option, none, some}
use launch_proof.Leadership.Coordinator.{Phase, disabled, leader}

-- The two constant guards; `coordinated` is a new `LeaderCoordinator` over this database.
pub data Guard : Type 0 where
  always_leader read_only_guard : Guard
  coordinated : Text → Guard

pub data BackendMode : Type 0 where
  writer read_only : BackendMode

pub data NodeEnv : Type 0 where
  development test_env production : NodeEnv

-- `none` is the error that the URL is missing.
unfoldable pub create_runtime_leadership : BackendMode → NodeEnv → Option Text → Option Guard
create_runtime_leadership read_only env url = some read_only_guard
create_runtime_leadership writer production url = elim (truthy url) [
  | none ↦ none
  | some u ↦ some (coordinated u)
]
create_runtime_leadership writer _ url = some always_leader

-- The phase, the fence and the abort signal of a constant guard, and what `assertLeader` resolves to;
-- `none` is a rejection.
pub record Standing : Type 0 where
  pub phase : Phase
  pub fence : Option Text
  pub aborted : Bool
  pub asserts : Option Text

abbrev pub always_standing : Standing
always_standing = record {
  phase = leader;
  fence = some (text "local-single-process");
  aborted = false;
  asserts = some (text "local-single-process");
}

abbrev pub read_only_standing : Standing
read_only_standing = record { phase = disabled; fence = none; aborted = true; asserts = none }
