-- ===== src/Evidence/Fixtures.antt =====
-- `configuredFixtureMatch` of backend/src/evidence/validate.ts.
use launch_proof.Shared.{
  Bool, true, false, ◌||◌, Text, truthy, Option, some, List, [], ◌∷◌, ◌≡◌, arith,
}
use launch_proof.PassportGate.Platform.{Platform}
use launch_proof.Evidence.Policy.{EvidenceConfig}
use launch_proof.Evidence.Payments.{same_lower, fixture_loop, configured_fixture_match}

abbrev pub is_provider : Text → Option Text → Option Text → Bool
is_provider provider (some u) (some a) = same_lower a provider
is_provider provider _ _ = false

-- A fixture that has a URL is signed by this provider.
abbrev pub is_fixture_provider : Text → List (Option Text × Option Text) → Bool
is_fixture_provider provider [] = false
is_fixture_provider provider ((url, address) ∷ rest) =
    is_provider provider (truthy url) (truthy address) || is_fixture_provider provider rest

some-inj : {a b : Bool} → some a ≡ some b → a ≡ b
some-inj h = cc

module _ (platform : Platform) where
  loop_matched :
      (target provider : Text) (fixtures : List (Option Text × Option Text)) (m r : Bool)
      → fixture_loop platform target provider fixtures m ≡ some r
      → r ≡ (m || is_fixture_provider provider fixtures)
  loop_matched target provider [] m r h = ground arith
  loop_matched target provider ((url, address) ∷ rest) m r h =
      ground
        (arith, loop_matched target provider rest m r, loop_matched target provider rest true r)

  -- The match of a fixture, when it is computed without an error, does not depend on the target: it
  -- says whether a configured fixture with a URL has the address of the provider.
  pub configured_fixture_match-some :
      (config : EvidenceConfig) (target provider : Text) (r : Bool)
      → configured_fixture_match platform config target provider ≡ some r
      → r ≡ is_fixture_provider provider config.fixtures
  unfolding configured_fixture_match
  configured_fixture_match-some config target provider r h =
      loop_matched target provider config.fixtures false r h
