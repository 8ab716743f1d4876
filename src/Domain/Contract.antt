-- ===== src/Domain/Contract.antt =====
-- The parsed Launch Contract of backend/src/launch-contract/schema.ts.
use launch_proof.Shared.{ℕ, Bool, Text, Option, List}
use launch_proof.Domain.Json.{Json, Fields}

pub data Rule : Type 0 where
  equals gte lte : Rule

pub record Assertion : Type 0 where
  pub path : Text
  pub rule : Rule
  pub value : Json

pub data PaymentMode : Type 0 where
  none x402_optional : PaymentMode

pub record PaymentTerms : Type 0 where
  pub network : Text
  pub asset : Text
  pub amount : Text
  pub recipient : Text
  pub resource_url : Text

pub record ChallengeProfile : Type 0 where
  pub name : Text
  pub tool : Text
  pub input_field : Text
  pub output_fields : List Text
  pub challenge_runs : ℕ
  pub max_latency_ms_per_run : ℕ
  pub safe_mode : Text

pub record LaunchContract : Type 0 where
  pub contract_version : Text
  pub service_name : Text
  pub mcp_endpoint : Text
  pub tool : Text
  pub mode : Text
  pub sample_input : Fields
  pub assertions : List Assertion
  pub max_latency_ms : ℕ
  pub delivery_type : Text
  pub payment_mode : PaymentMode
  pub payment : Option PaymentTerms
  pub safe_use : List Text
  pub source_revision : Text
  pub challenge_profile : ChallengeProfile
  pub provider_address : Text
  pub declaration_signature : Option Text
  pub fixture : Option Bool
