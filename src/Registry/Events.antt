-- ===== src/Registry/Events.antt =====
-- Where the log of a run comes from in `load` of backend/src/chain/registry.ts: the receipt of the
-- transaction of the hint, or the blocks of the time when the run was anchored.
use launch_proof.Shared.{
  ℕ, Bool, true, false, not, ◌==◌, nat_eq, ltb, and-eq-true, arith, filter, Text, Option, none,
  some, List, [], ◌∷◌, ◌≡◌, refl, sym, ap, ◌∙◌, ◌⊎◌, ◌+◌, inl, inr, if◌then◌else◌,
}
use launch_proof.Evidence.Payments.{same_lower}
use launch_proof.Registry.Client.{
  Answer, answer, fails, ◌>>=◌, ChainLog, Receipt, Client, RegistryConfig,
}
use launch_proof.Registry.Match.{is_bytes32_exact}
use launch_proof.Registry.Logs.{
  is_run, first_block, found_logs, logs_up_to, logs_at_start, logs_from_start, logs_from_receipt,
  receipt_logs, logs_at_anchored_timestamp,
}

pub bind_answers :
    {A B : Type 0} (x : Answer A) (f : A → Answer B) (b : B)
    → x >>= f ≡ answer b
    → (a : A) × (x ≡ answer a) × (f a ≡ answer b)
bind_answers (answer a) f b h = (a, refl, h)
bind_answers (fails e) f b h = absurd (cc)

abbrev pub Holds : ChainLog → List ChainLog → Type 0
Holds log [] = ⊥
Holds log (l ∷ rest) = (l ≡ log) ⊎ Holds log rest

first_if :
    (b : Bool) (l log : ChainLog) (ys rest : List ChainLog)
    → (if b then l ∷ ys else ys) ≡ log ∷ rest
    → ((l ≡ log) × (b ≡ true)) ⊎ (ys ≡ log ∷ rest)
first_if true l log ys rest h = inl (cc, refl)
first_if false l log ys rest h = inr h

filter_first :
    (p : ChainLog → Bool) (logs : List ChainLog) (log : ChainLog) (rest : List ChainLog)
    → filter p logs ≡ log ∷ rest
    → Holds log logs × (p log ≡ true)
filter_first p [] log rest h = absurd (cc)
filter_first p (l ∷ logs) log rest h = elim (first_if (p l) l log (filter p logs) rest h) [
  | inl (same, held) ↦ (inl same, ap p (sym same) ∙ held)
  | inr k ↦ let (m, held) = filter_first p logs log rest k in (inr m, held)
]

answered-inj : {A : Type 0} {a b : A} → answer a ≡ answer b → a ≡ b
answered-inj h = cc

-- A list that is not empty was not the answer of an early return.
else_logs :
    (c : Bool) (x : Answer (List ChainLog)) (log : ChainLog) (rest : List ChainLog)
    → (if c then answer [] else x) ≡ answer (log ∷ rest)
    → (c ≡ false) × (x ≡ answer (log ∷ rest))
else_logs true x log rest h = absurd (cc)
else_logs false x log rest h = (refl, h)

then_logs :
    (c : Bool) (ys : List ChainLog) (log : ChainLog) (rest : List ChainLog)
    → (if c then ys else []) ≡ log ∷ rest
    → (c ≡ true) × (ys ≡ log ∷ rest)
then_logs true ys log rest h = (refl, h)
then_logs false ys log rest h = absurd (cc)

module _ (config : RegistryConfig) (client : Client) where
  -- A log of the registry for the run, in the receipt of the successful transaction of the hint.
  abbrev pub IsReceiptLog : Text → Text → Option Text → ChainLog → Type 0
  IsReceiptLog address run_id hint log =
      (transaction : Text) × (receipt : Receipt) × (hint ≡ some transaction)
      × (client.get_receipt transaction ≡ answer receipt)
      × (receipt.success ≡ true)
      × Holds log receipt.logs
      × (same_lower log.address address ≡ true)
      × (is_run run_id log.published ≡ true)

  -- The first event of the run from a block of the time when it was anchored.
  abbrev pub IsTimedLog : Text → ℕ → ChainLog → Type 0
  IsTimedLog run_id anchored_at log =
      (first : ℕ) × (last : ℕ) × (rest : List ChainLog) × (client.get_block_time first
        ≡ answer anchored_at)
      × (client.get_logs run_id first last ≡ answer (log ∷ rest))

  abbrev pub IsEvent : Text → Text → Option Text → ℕ → ChainLog → Type 0
  IsEvent address run_id hint anchored_at log =
      IsReceiptLog address run_id hint log ⊎ IsTimedLog run_id anchored_at log

  module _ (address run_id : Text) (anchored_at : ℕ) (log : ChainLog) (rest : List ChainLog) where
    receipt_log :
        (hint : Text)
        → logs_from_receipt config client address hint run_id ≡ answer (log ∷ rest)
        → IsReceiptLog address run_id (some hint) log
    unfolding logs_from_receipt
    receipt_log hint h =
        let (receipt, got, h1) =
          bind_answers (client.get_receipt hint) (receipt_logs config client address run_id)
            (log ∷ rest) h in
        let (success, h2) = then_logs receipt.success _ log rest (answered-inj h1) in
        let (held, own) = filter_first _ receipt.logs log rest h2 in
        let (at, of) = and-eq-true (same_lower log.address address) _ own in
        (hint, receipt, refl, got, success, held, at, of)

    start_log :
        (latest start time : ℕ)
        → client.get_block_time start ≡ answer time
        → logs_at_start config client run_id anchored_at latest start time ≡ answer (log ∷ rest)
        → IsTimedLog run_id anchored_at log
    start_log latest start time got h =
        let (same, h1) = else_logs (not (time == anchored_at)) _ log rest h in
        let (after, ha, h2) =
          bind_answers (first_block config client (anchored_at + 1) latest)
            (logs_up_to config client run_id latest start) (log ∷ rest) h1 in
        let at : time ≡ anchored_at = ground arith in
        (start, _, rest, got ∙ ap (λ t. answer t) at, h2)

    timed_log :
        logs_at_anchored_timestamp config client run_id anchored_at ≡ answer (log ∷ rest)
        → IsTimedLog run_id anchored_at log
    unfolding logs_at_anchored_timestamp
    timed_log h =
        let (latest, hl, h1) = bind_answers client.get_block_number _ (log ∷ rest) h in
        let (start, hs, h2) =
          bind_answers (first_block config client anchored_at latest)
            (logs_from_start config client run_id anchored_at latest) (log ∷ rest) h1 in
        let (in_range, h3) = else_logs (ltb latest start) _ log rest h2 in
        let (time, ht, h4) =
          bind_answers (client.get_block_time start)
            (logs_at_start config client run_id anchored_at latest start) (log ∷ rest) h3 in
        start_log latest start time ht h4

    hinted_log :
        (c : Bool) (hint : Text)
        → (if c
            then logs_from_receipt config client address hint run_id
            else logs_at_anchored_timestamp config client run_id anchored_at)
          ≡ answer (log ∷ rest)
        → IsEvent address run_id (some hint) anchored_at log
    hinted_log true hint h = inl (receipt_log hint h)
    hinted_log false hint h = inr (timed_log h)

    pub found_logs-IsEvent :
        (hint : Option Text)
        → found_logs config client address run_id hint anchored_at ≡ answer (log ∷ rest)
        → IsEvent address run_id hint anchored_at log
    found_logs-IsEvent none h = inr (timed_log h)
    found_logs-IsEvent (some hint) h = hinted_log (is_bytes32_exact hint) hint h
