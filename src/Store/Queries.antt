-- ===== src/Store/Queries.antt =====
-- The reads of backend/src/db/store.ts.
use launch_proof.Shared.{
  ℕ, ◌+◌, ◌*◌, ◌-◌, ℤ, pos, ◌+ℤ◌, ◌-ℤ◌, trim, ltb, Bool, true, false, not, Text, to_lower_case,
  text_leb, truthy, Option, none, some, List, [], ◌∷◌, ◌&&◌, ◌||◌, ◌==◌, nat_eq, list_eq, option_eq,
  lookup, filter, find, take, length, is_some, leb, if◌then◌else◌,
}
use launch_proof.Domain.Types.{
  RunState, payment_settled, queued, fetching_contract, discovering, fresh_challenges,
  target_payment_or_not_tested, publishing_on_chain, launchproof, target, PaymentReference, settled,
  RunRecord,
}
use launch_proof.Store.State.{
  RunProgress, StoredRun, finalized, in_progress, StoredPayment, MemoryRepository, get_run, kind_eq,
  status_eq, lower_option,
}
use launch_proof.Store.Capacity.{is_payment_ambiguous}

abbrev pub values {ℓ} : {K V : Type ℓ} → List (K × V) → List V
values [] = []
values ((k, v) ∷ m) = v ∷ values m

unfoldable pub get_by_idempotency_key : Text → MemoryRepository → Option StoredRun
get_by_idempotency_key key s = elim (truthy (lookup key s.idempotency)) [
  | none ↦ none
  | some id ↦ get_run id s
]

abbrev pub records : List StoredRun → List RunRecord
records [] = []
records (finalized r ∷ rest) = r ∷ records rest
records (in_progress p ∷ rest) = records rest

abbrev pub progresses : (RunProgress → Bool) → List StoredRun → List RunProgress
progresses keep [] = []
progresses keep (finalized r ∷ rest) = progresses keep rest
progresses keep (in_progress p ∷ rest) =
    let others = progresses keep rest in if keep p then p ∷ others else others

-- The stable sort by `generated_at`, newest first. The texts are ISO timestamps, on which
-- `localeCompare` is the order of the code units.
unfoldable pub insert_newest : RunRecord → List RunRecord → List RunRecord
insert_newest r [] = r ∷ []
insert_newest r (x ∷ xs) =
    if text_leb x.generated_at r.generated_at then r ∷ x ∷ xs else x ∷ insert_newest r xs

unfoldable pub newest_first : List RunRecord → List RunRecord
unfolding insert_newest
newest_first [] = []
newest_first (r ∷ rs) = insert_newest r (newest_first rs)

unfoldable pub recent_runs : ℕ → MemoryRepository → List RunRecord
unfolding newest_first
recent_runs limit s = take limit (newest_first (records (values s.runs)))

unfoldable pub passports_for_target : Text → Text → MemoryRepository → List RunRecord
unfolding newest_first
passports_for_target target_url provider s = newest_first (
    filter (λ r. to_lower_case r.provider_declaration.provider_address == to_lower_case provider)
      (filter (λ r. r.canonical_evidence.target == target_url) (records (values s.runs))))

unfoldable pub pending_payment_settlements : MemoryRepository → List RunProgress
pending_payment_settlements s =
    progresses (λ p. is_payment_ambiguous p.state && is_some p.settlement) (values s.runs)

abbrev pub is_publishing : RunState → Bool
is_publishing publishing_on_chain = true
is_publishing _ = false

unfoldable pub pending_publications : MemoryRepository → List RunProgress
pending_publications s =
    progresses (λ p. is_publishing p.state && is_some p.publication) (values s.runs)

unfoldable pub pending_target_payment_attempts : MemoryRepository → List RunProgress
pending_target_payment_attempts s =
    progresses (λ p. is_some p.target_payment_attempt) (values s.runs)

unfoldable pub get_payment : Text → MemoryRepository → Option StoredPayment
get_payment payment_id s = lookup payment_id s.payments

abbrev pub is_target_settlement : Text → StoredPayment → Bool
is_target_settlement run_id item =
    (item.run_id == run_id)
    && (kind_eq item.payment.kind target && status_eq item.payment.status settled)

unfoldable pub get_target_payment_for_run : Text → MemoryRepository → Option PaymentReference
get_target_payment_for_run run_id s =
    elim (find (is_target_settlement run_id) (values s.payments)) [
      | none ↦ none
      | some item ↦ some item.payment
    ]

-- The value of a digit; 16 and more on any other character.
abbrev pub digit_value : ℕ → ℕ
digit_value c =
    if leb b'0' c && leb c b'9'
    then c - b'0'
    else if leb b'a' c && leb c b'f'
    then c - b'a' + 10
    else if leb b'A' c && leb c b'F'
    then c - b'A' + 10
    else 16

abbrev pub digits_from : ℕ → ℕ → Text → Option ℕ
digits_from base n [] = some n
digits_from base n (c ∷ s) =
    let rest = digits_from base (n * base + digit_value c) s in
    if ltb (digit_value c) base then rest else none

-- One digit or more.
abbrev pub parse_digits : ℕ → Text → Option ℕ
parse_digits base [] = none
parse_digits base (c ∷ s) = digits_from base 0 (c ∷ s)

abbrev pub positive : Option ℕ → Option ℤ
positive none = none
positive (some n) = some (pos n)

abbrev pub negative : Option ℕ → Option ℤ
negative none = none
negative (some n) = some (pos 0 -ℤ pos n)

-- The base that the character after a leading zero stands for.
abbrev pub base_of : ℕ → Option ℕ
base_of c =
    if c == b'x' || c == b'X'
    then some 16
    else if c == b'o' || c == b'O'
    then some 8
    else if c == b'b' || c == b'B'
    then some 2
    else none

abbrev pub parse_signed : Text → Option ℤ
parse_signed (c ∷ s) =
    if c == b'-'
    then negative (parse_digits 10 s)
    else if c == b'+'
    then positive (parse_digits 10 s)
    else positive (parse_digits 10 (c ∷ s))
parse_signed [] = some (pos 0)

abbrev pub parse_based : Option ℕ → Text → Text → Option ℤ
parse_based none rest whole = parse_signed whole
parse_based (some base) rest whole = positive (parse_digits base rest)

abbrev pub parse_trimmed : Text → Option ℤ
parse_trimmed (a ∷ b ∷ rest) =
    parse_based (if a == b'0' then base_of b else none) rest (a ∷ b ∷ rest)
parse_trimmed s = parse_signed s

-- `BigInt(value)` of a text; `none` is a SyntaxError.
unfoldable pub big_int : Text → Option ℤ
big_int value = parse_trimmed (trim value)

abbrev pub add_amount : Option ℤ → Option ℤ → Option ℤ
add_amount (some a) (some b) = some (a +ℤ b)
add_amount _ _ = none

unfoldable pub total_amount : List StoredPayment → Option ℤ
total_amount [] = some (pos 0)
total_amount (p ∷ ps) = add_amount (big_int p.payment.amount) (total_amount ps)

-- `none` is the error of an amount that `BigInt` does not read.
unfoldable pub target_spend_since : Text → MemoryRepository → Option ℤ
unfolding total_amount
target_spend_since timestamp s = total_amount (
    filter
      (λ p.
        kind_eq p.payment.kind target
        && (status_eq p.payment.status settled && text_leb timestamp p.payment.timestamp))
      (values s.payments))

unfoldable pub settled_launch_payments_by_payer_since : Text → Text → MemoryRepository → ℕ
settled_launch_payments_by_payer_since payer timestamp s = length (
    filter
      (λ p.
        kind_eq p.payment.kind launchproof
        && (status_eq p.payment.status settled
            && ((lower_option p.payment.payer == some (to_lower_case payer))
                && text_leb timestamp p.payment.timestamp)))
      (values s.payments))

unfoldable pub get_chain_cursor : Text → MemoryRepository → Option ℕ
get_chain_cursor key s = lookup key s.chain_cursors

abbrev pub is_recoverable_state : RunState → Bool
is_recoverable_state payment_settled = true
is_recoverable_state queued = true
is_recoverable_state fetching_contract = true
is_recoverable_state discovering = true
is_recoverable_state RunState.fixed_sample = true
is_recoverable_state RunState.invalid_input = true
is_recoverable_state fresh_challenges = true
is_recoverable_state target_payment_or_not_tested = true
is_recoverable_state _ = false

abbrev pub at_target_payment : RunState → Bool
at_target_payment target_payment_or_not_tested = true
at_target_payment _ = false

unfoldable pub recoverable_runs : MemoryRepository → List RunProgress
recoverable_runs s =
    progresses
      (λ p.
        is_recoverable_state p.state
        && (is_some p.payment
            && (not (at_target_payment p.state)
                || is_some (find (is_target_settlement p.run_id) (values s.payments)))))
      (values s.runs)
