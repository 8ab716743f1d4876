-- ===== src/Evidence/Recompute.antt =====
-- The parts of backend/src/evidence/validate.ts that read the invocations of an evidence: the gates
-- that they make, their kinds and their times.
use launch_proof.Shared.{
  ℕ, zero, suc, ◌+◌, ◌-◌, ◌*◌, ◌/◌, Bool, true, false, not, ◌&&◌, ◌==◌, nat_eq, list_eq, leb, all,
  length, Text, text, Option, none, some, List, [], ◌∷◌, ◌++◌, if◌then◌else◌,
}
use launch_proof.Domain.Json.{Json, str, Fields}
use launch_proof.Domain.Contract.{PaymentMode, x402_optional}
use launch_proof.Domain.Types.{
  GateState, pass, fail, not_tested, Gates, PassportStatus, verified, needs_attention,
  not_rehearsable, FieldComparison, InvocationKind, InvocationEvidence, StructuredError,
  CanonicalEvidence,
}
use launch_proof.Assertions.{get_field}
use launch_proof.Schema.SafeUse.{safe_use_claims_valid}

abbrev pub is_none {ℓ} : {A : Type ℓ} → Option A → Bool
is_none none = true
is_none (some a) = false

abbrev pub is_rehearsable : PassportStatus → Bool
is_rehearsable not_rehearsable = false
is_rehearsable _ = true

abbrev pub same_status : PassportStatus → PassportStatus → Bool
same_status verified verified = true
same_status needs_attention needs_attention = true
same_status not_rehearsable not_rehearsable = true
same_status _ _ = false

abbrev pub same_state : GateState → GateState → Bool
same_state pass pass = true
same_state fail fail = true
same_state not_tested not_tested = true
same_state _ _ = false

-- `toJcs(left) === toJcs(right)`
abbrev pub same_gates : Gates → Gates → Bool
same_gates a b =
    same_state a.discoverable b.discoverable
    && (same_state a.contract_correct b.contract_correct
        && (same_state a.fresh_challenge b.fresh_challenge
            && (same_state a.safe_to_rehearse b.safe_to_rehearse
                && same_state a.paid_delivery b.paid_delivery)))

abbrev pub comparison_passes : FieldComparison → Bool
comparison_passes c = c.is_match && is_none c.classification

abbrev pub is_text : Option Json → Text → Bool
is_text (some (str s)) t = s == t
is_text _ t = false

-- `structured_error?.code === "TOOL_ERROR"`
abbrev pub is_tool_error : Option StructuredError → Bool
is_tool_error none = false
is_tool_error (some e) = is_text (some e.code) (text "TOOL_ERROR")

abbrev pub rejects_invalid : InvocationEvidence → Bool
rejects_invalid i = is_none i.classification && is_tool_error i.structured_error

abbrev pub has_comparisons : List FieldComparison → Bool
has_comparisons [] = false
has_comparisons (c ∷ cs) = true

abbrev pub contract_correct : CanonicalEvidence → Bool
contract_correct e =
    is_none e.fixed_sample.classification
    && (has_comparisons e.fixed_sample.comparisons
        && (all comparison_passes e.fixed_sample.comparisons && rejects_invalid e.invalid_input))

abbrev pub challenge_passes : InvocationEvidence → Bool
challenge_passes i =
    is_none i.classification && (length i.comparisons == 4 && all comparison_passes i.comparisons)

abbrev pub challenge_pass : CanonicalEvidence → Bool
challenge_pass e = length e.challenges == 3 && all challenge_passes e.challenges

abbrev pub is_safe : CanonicalEvidence → Bool → Bool
is_safe e discovery_pass =
    discovery_pass && (rejects_invalid e.invalid_input && safe_use_claims_valid e.manifest.safe_use)

abbrev pub pass_if : Bool → GateState
pass_if b = if b then pass else fail

abbrev pub paid_state : PaymentMode → Bool → GateState
paid_state PaymentMode.none b = not_tested
paid_state x402_optional b = pass_if b

abbrev pub untested_gates : Gates
untested_gates = record {
  discoverable = not_tested;
  contract_correct = not_tested;
  fresh_challenge = not_tested;
  safe_to_rehearse = not_tested;
  paid_delivery = not_tested;
}

unfoldable pub recompute_gates : CanonicalEvidence → PaymentMode → Bool → Bool → Gates
recompute_gates e mode target_matches discovery_pass =
    if not (is_rehearsable e.passport_status) then untested_gates else record {
      discoverable = pass_if discovery_pass;
      contract_correct = pass_if (contract_correct e);
      fresh_challenge = pass_if (challenge_pass e);
      safe_to_rehearse = pass_if (is_safe e discovery_pass);
      paid_delivery = paid_state mode target_matches;
    }

abbrev pub is_fixed_sample : InvocationKind → Bool
is_fixed_sample InvocationKind.fixed_sample = true
is_fixed_sample _ = false

abbrev pub is_invalid_input : InvocationKind → Bool
is_invalid_input InvocationKind.invalid_input = true
is_invalid_input _ = false

abbrev pub is_challenge : InvocationKind → Bool
is_challenge InvocationKind.challenge = true
is_challenge _ = false

abbrev pub is_paid_delivery : InvocationKind → Bool
is_paid_delivery InvocationKind.paid_delivery = true
is_paid_delivery _ = false

-- The challenges have their places as indices, from `n` on.
abbrev pub indexed_from : ℕ → List InvocationEvidence → Bool
indexed_from n [] = true
indexed_from n (i ∷ rest) = is_challenge i.kind && (i.index == n && indexed_from (suc n) rest)

unfoldable pub invocation_semantics_match : CanonicalEvidence → Bool → Bool
invocation_semantics_match e normal_run =
    if not normal_run
    then is_fixed_sample e.fixed_sample.kind
      && (is_invalid_input e.invalid_input.kind && length e.challenges == 0)
    else is_fixed_sample e.fixed_sample.kind
      && (e.fixed_sample.index == 0
          && (is_invalid_input e.invalid_input.kind
              && (e.invalid_input.index == 0
                  && (length e.challenges == 3 && indexed_from 0 e.challenges))))

abbrev pub field_is : Option Fields → Text → Text → Bool
field_is none name value = false
field_is (some fields) name value = is_text (get_field name fields) value

abbrev pub delivery_matches : CanonicalEvidence → Bool → Option InvocationEvidence → Bool
delivery_matches e target_matches none = false
delivery_matches e target_matches (some d) =
    target_matches
    && (is_paid_delivery d.kind
        && (d.index == 0
            && (is_none d.classification
                && (is_none d.structured_error
                    && (field_is d.expected (text "run_id") e.run_id
                        && (field_is d.expected (text "source_revision") e.source_revision
                            && (field_is d.output (text "run_id") e.run_id
                                && (field_is d.output (text "source_revision") e.source_revision
                                    && (length d.comparisons == 2
                                        && all comparison_passes d.comparisons)))))))))

unfoldable pub paid_delivery_evidence_matches : CanonicalEvidence → Bool → Bool
paid_delivery_evidence_matches e target_matches = delivery_matches e target_matches e.paid_delivery

-- `[...values].sort((left, right) => left - right)`
abbrev pub insert_sorted : ℕ → List ℕ → List ℕ
insert_sorted x [] = x ∷ []
insert_sorted x (y ∷ ys) = let rest = insert_sorted x ys in if leb x y then x ∷ y ∷ ys else y ∷ rest

unfoldable pub sorted : List ℕ → List ℕ
sorted [] = []
sorted (x ∷ xs) = insert_sorted x (sorted xs)

abbrev pub nth_or_zero : ℕ → List ℕ → ℕ
nth_or_zero n [] = 0
nth_or_zero zero (x ∷ xs) = x
nth_or_zero (suc n) (x ∷ xs) = nth_or_zero n xs

-- `Math.ceil` of the product with 0.95, without the rounding of the product.
unfoldable pub observed_p95 : List ℕ → ℕ
unfolding sorted
observed_p95 values = nth_or_zero ((19 * length values + 19) / 20 - 1) (sorted values)

abbrev pub paid_invocations : Option InvocationEvidence → List InvocationEvidence
paid_invocations none = []
paid_invocations (some d) = d ∷ []

abbrev pub invocations : CanonicalEvidence → List InvocationEvidence
invocations e =
    e.fixed_sample ∷ e.invalid_input ∷ (e.challenges ++ paid_invocations e.paid_delivery)

abbrev pub inputs_of : List InvocationEvidence → List Fields
inputs_of [] = []
inputs_of (i ∷ rest) = i.input ∷ inputs_of rest

abbrev pub comparisons_of : List InvocationEvidence → List FieldComparison
comparisons_of [] = []
comparisons_of (i ∷ rest) = i.comparisons ++ comparisons_of rest

abbrev pub times_of : List InvocationEvidence → List ℕ
times_of [] = []
times_of (i ∷ rest) = i.latency_ms ∷ times_of rest

abbrev pub sum : List ℕ → ℕ
sum [] = 0
sum (x ∷ xs) = x + sum xs

unfoldable pub timing_matches : CanonicalEvidence → Bool → Bool
unfolding observed_p95
timing_matches e normal_run =
    let times = times_of (invocations e) in
    if normal_run
    then e.timings.invocation_ms == times
      && (e.timings.observed_p95_ms == observed_p95 times
          && leb (sum times) (e.timings.total_ms + 10))
    else length e.timings.invocation_ms == 0 && e.timings.observed_p95_ms == 0
