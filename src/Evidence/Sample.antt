-- ===== src/Evidence/Sample.antt =====
-- A verified run of a fixture, for the tests.
use launch_proof.Shared.{ℕ, none, some, true, false, pos, text, [], ◌∷◌, list_eq, nat_eq}
use launch_proof.Domain.Json.{bool, num, str, arr, obj, nil, cons, Fields, end, field}
use launch_proof.Domain.Sample.{
  sample_payment, sample_provider, sample_evidence, sample_invocation, sample_comparison,
}
use launch_proof.Domain.Types.{
  CanonicalEvidence, PaymentReference, PaymentKind, InvocationKind, InvocationEvidence,
}
use launch_proof.PassportGate.Sample.{hash}
use launch_proof.Evidence.Policy.{EvidenceConfig, Libraries}

abbrev pub libraries : Libraries
libraries = record {
  origin = λ url. url.hostname;
  hash_manifest = λ m. hash;
  hash_schema = λ s. hash;
  jcs_inputs = λ i. [];
  jcs_comparisons = λ c. [];
  account_of = λ key. some key;
}

abbrev pub config : EvidenceConfig
config = record {
  network = text "eip155:1952";
  usdt0_address = text "0xCC";
  usdt0_decimals = 6;
  payout_address = some (text "0xEE");
  target_payer_private_key = none;
  fixtures = (some (text "https://fixture.example/"), some (text "0xABC")) ∷ [];
}

abbrev pub own_payment : PaymentReference
own_payment = record sample_payment { timestamp = text "12" }

abbrev pub paid : PaymentReference
paid = record own_payment {
  payment_id = text "0xF2";
  kind = PaymentKind.target;
  amount = text "1000";
  amount_atomic = text "1000";
  amount_display = text "0.001";
  route = text "https://fixture.example/paid";
  settlement_transaction = some (text "0xF2");
}

abbrev pub challenge_at : ℕ → InvocationEvidence
challenge_at n = record sample_invocation {
  kind = InvocationKind.challenge;
  index = n;
  comparisons = sample_comparison ∷ sample_comparison ∷ sample_comparison ∷ sample_comparison ∷ [];
}

abbrev pub named : Fields
named =
    field (text "run_id") (str (text "0xa2"))
      (field (text "source_revision") (str (text "0123456789012345678901234567890123456789")) end)

abbrev pub delivery : InvocationEvidence
delivery = record sample_invocation {
  kind = InvocationKind.paid_delivery;
  expected = some named;
  output = some named;
  comparisons = sample_comparison ∷ sample_comparison ∷ [];
}

abbrev pub schema : Fields
schema = field (text "type") (str (text "object")) (
    field (text "additionalProperties") (bool false) (
      field (text "properties")
        (obj (
          field (text "document")
            (obj (
              field (text "type") (str (text "string"))
                (field (text "maxLength") (num (pos 100) 0) end)))
            end))
        (field (text "required") (arr (cons (str (text "document")) nil)) end)))

abbrev pub discovery : Fields
discovery = field (text "protocol_version") (str (text "2025-06-18")) (
    field (text "server_capabilities") (obj (field (text "tools") (obj end) end)) (
      field (text "declared_tool")
        (obj (
          field (text "name") (str (text "normalize_invoice")) (
            field (text "input_schema_hash") (str hash)
              (field (text "input_schema") (obj schema) end))))
        (field (text "tools_capability") (bool true)
          (field (text "schema_matches") (bool true) end))))

abbrev pub evidence : CanonicalEvidence
evidence = record sample_evidence {
  generated_at = text "12";
  discovery = discovery;
  challenges = challenge_at 0 ∷ challenge_at 1 ∷ challenge_at 2 ∷ [];
  paid_delivery = some delivery;
  timings = record {
    invocation_ms = 20 ∷ 10 ∷ 20 ∷ 20 ∷ 20 ∷ 20 ∷ [];
    total_ms = 110;
    observed_p95_ms = 20;
  };
  provider_declaration = record sample_provider { manifest_hash = hash };
  launchproof_payment = own_payment;
  target_payment = some paid;
}
