-- ===== src/PassportGate/Evaluation/Links.antt =====
-- When the view of a decision in packages/passport-gate/src/engine.ts cannot be made: the URLs of a
-- Passport's run and transactions encode their texts.
use launch_proof.Shared.{
  Text, text, truthy, Option, none, some, ◌≡◌, refl, ◌++◌, ◌⊎◌, inl, inr, ℤ, List, [], ◌∷◌,
}
use launch_proof.PassportGate.Platform.{Platform}
use launch_proof.PassportGate.Types.{
  Outcome, returns, throws, ◌>>=◌, Thrown, uri_error, PassportProof, PassportGateConfig,
  PassportDecision, ReasonCode, RehearsalAction,
}
use launch_proof.PassportGate.Engine.{
  optional, chained, reference_transaction, joined, transaction_url, passport_url, explorer_links,
  ViewInput, evidence_view,
}
use launch_proof.PassportGate.Evaluation.{decision}

bind-throws :
    {A B : Type 0} (o : Outcome A) (f : A → Outcome B) (e : Thrown)
    → o >>= f ≡ throws e
    → (o ≡ throws e) ⊎ ((x : A) × (f x ≡ throws e))
bind-throws (returns x) f e h = inr (x, h)
bind-throws (throws x) f e h = inl (cc)

joined_throws :
    (base : Text) (o : Option Text) (e : Thrown)
    → joined base o ≡ throws e
    → (e ≡ uri_error) × (o ≡ none)
joined_throws base none e h = (cc, refl)
joined_throws base (some t) e h = absurd (cc)

-- A text that a view of the Passport puts into a URL.
abbrev pub IsLinked : PassportProof → Text → Type 0
IsLinked passport t =
    (passport.run_id ≡ t)
    ⊎ ((passport.publication_transaction_hash ≡ t)
        ⊎ ((reference_transaction passport.inbound_settlement.reference ≡ some t)
            ⊎ (reference_transaction passport.provider_settlement.reference ≡ some t)))

optional-some :
    (f : PassportProof → Text) (o : Option PassportProof) (t : Text)
    → optional f o ≡ some t
    → (p : PassportProof) × (o ≡ some p) × (f p ≡ t)
optional-some f none t h = absurd (cc)
optional-some f (some p) t h = (p, refl, cc)

chained-some :
    (f : PassportProof → Option Text) (o : Option PassportProof) (t : Text)
    → chained f o ≡ some t
    → (p : PassportProof) × (o ≡ some p) × (f p ≡ some t)
chained-some f none t h = absurd (cc)
chained-some f (some p) t h = (p, refl, h)

module _ (platform : Platform) where
  -- A Passport with such a text that is not encodable.
  abbrev pub IsUnlinkable : PassportProof → Type 0
  IsUnlinkable passport =
      (t : Text) × IsLinked passport t × (platform.encode_uri_component t ≡ none)

  abbrev pub HasUnlinkable : Option PassportProof → Thrown → Type 0
  HasUnlinkable o e =
      (e ≡ uri_error) × ((passport : PassportProof) × (o ≡ some passport) × IsUnlinkable passport)

  transaction_url_throws :
      (base : Text) (o : Option Text) (e : Thrown)
      → transaction_url platform base (truthy o) ≡ throws e
      → (e ≡ uri_error) × ((t : Text) × (o ≡ some t) × (platform.encode_uri_component t ≡ none))
  transaction_url_throws base none e h = absurd (cc)
  transaction_url_throws base (some []) e h = absurd (cc)
  transaction_url_throws base (some (c ∷ s)) e h =
      let (u, n) =
        joined_throws (base ++ text "/tx/") (platform.encode_uri_component (c ∷ s)) e h in
      (u, (c ∷ s, refl, n))

  passport_url_throws :
      (base : Text) (o : Option Text) (e : Thrown)
      → passport_url platform base (truthy o) ≡ throws e
      → (e ≡ uri_error) × ((t : Text) × (o ≡ some t) × (platform.encode_uri_component t ≡ none))
  passport_url_throws base none e h = absurd (cc)
  passport_url_throws base (some []) e h = absurd (cc)
  passport_url_throws base (some (c ∷ s)) e h =
      let (u, n) =
        joined_throws (base ++ text "/passport/") (platform.encode_uri_component (c ∷ s)) e h in
      (u, (c ∷ s, refl, n))

  module _ (config : PassportGateConfig) (o : Option PassportProof) (e : Thrown) where
    explorer_links_throws : explorer_links platform config o ≡ throws e → HasUnlinkable o e
    explorer_links_throws h =
        let base = config.explorer_base_url in
        elim (bind-throws
          (transaction_url platform base
            (truthy (optional (λ p. p.publication_transaction_hash) o)))
          _ e h) [
            | inl x ↦
                let (u, (t, k, n)) = transaction_url_throws base _ e x in
                let (p, at, same) = optional-some (λ p. p.publication_transaction_hash) o t k in
                (u, (p, at, (t, inr (inl same), n)))
            | inr (published, h1) ↦
                elim (bind-throws
                  (transaction_url platform base (
                    truthy (chained (λ p. reference_transaction p.inbound_settlement.reference) o)))
                  _ e h1) [
                    | inl x ↦
                        let (u, (t, k, n)) = transaction_url_throws base _ e x in
                        let (p, at, same) =
                          chained-some (λ p. reference_transaction p.inbound_settlement.reference) o
                            t k in
                        (u, (p, at, (t, inr (inr (inl same)), n)))
                    | inr (paid, h2) ↦
                        elim (bind-throws
                          (transaction_url platform base (
                            truthy (
                              chained (λ p. reference_transaction p.provider_settlement.reference)
                                o)))
                          _ e h2) [
                            | inl x ↦
                                let (u, (t, k, n)) = transaction_url_throws base _ e x in
                                let (p, at, same) =
                                  chained-some
                                    (λ p. reference_transaction p.provider_settlement.reference) o t
                                    k in
                                (u, (p, at, (t, inr (inr (inr same)), n)))
                            | inr (sent, h3) ↦ absurd (cc)
                          ]
                  ]
          ]

  evidence_view_throws :
      (c : ViewInput) (action : Option RehearsalAction) (age : Option ℤ) (expiry : Option Text)
      (e : Thrown)
      → evidence_view platform c action age expiry ≡ throws e
      → HasUnlinkable c.passport e
  unfolding evidence_view
  evidence_view_throws c action age expiry e h =
      elim (bind-throws
        (passport_url platform c.config.passport_base_url
          (truthy (optional (λ p. p.run_id) c.passport)))
        _ e h) [
          | inl x ↦
              let (u, (t, k, n)) = passport_url_throws c.config.passport_base_url _ e x in
              let (p, at, same) = optional-some (λ p. p.run_id) c.passport t k in
              (u, (p, at, (t, inl same, n)))
          | inr (page, h1) ↦
              elim (bind-throws (explorer_links platform c.config c.passport) _ e h1) [
                | inl x ↦ explorer_links_throws c.config c.passport e x
                | inr (links, h2) ↦ absurd (cc)
              ]
        ]

  -- A decision throws what its view throws.
  pub decision_throws :
      (c : ViewInput) (action : Option RehearsalAction) (age : Option ℤ) (expiry : Option Text)
      (value : PassportDecision) (reasons : List ReasonCode) (explanation : Text) (e : Thrown)
      → decision (evidence_view platform c action age expiry) value reasons explanation ≡ throws e
      → HasUnlinkable c.passport e
  unfolding decision
  decision_throws c action age expiry value reasons explanation e h =
      elim (bind-throws (evidence_view platform c action age expiry) _ e h) [
        | inl x ↦ evidence_view_throws c action age expiry e x
        | inr (v, k) ↦ absurd (cc)
      ]
