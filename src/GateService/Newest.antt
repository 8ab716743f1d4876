-- ===== src/GateService/Newest.antt =====
-- The loop over the candidates of `PassportGateService.check` in backend/src/passport-gate/service.ts.
use launch_proof.GateService.Proof.{proof_from_verification}
use launch_proof.GateService.Check.{
  candidate_step, newest_of, newer, candidate_time, proof_step, Newest, is_later,
}
use launch_proof.Shared.{
  if-both, if◌then◌else◌, ℤ, Bool, true, false, ◌≡◌, refl, sym, ap, ◌∙◌, ◌⊎◌, inl, inr, Option,
  none, some, List, [], ◌∷◌, filter, arith, list_eq, nat_eq,
}
use launch_proof.Domain.Types.{RunRecord}
use launch_proof.PassportGate.Platform.{Platform}
use launch_proof.PassportGate.Types.{
  CurrentLaunchContractProof, PassportGateConfig, Outcome, returns, throws, PassportProof,
}
use launch_proof.GateService.World.{
  Attempt, RegistryVerification, World, ServiceConfig, Hashing, done, broken,
}

abbrev pub Among : RunRecord → List RunRecord → Type 0
Among r [] = ⊥
Among r (x ∷ xs) = (x ≡ r) ⊎ Among r xs

Among-if :
    (b : Bool) (r x : RunRecord) (ys : List RunRecord)
    → Among r (if b then x ∷ ys else ys)
    → ((x ≡ r) × (b ≡ true)) ⊎ Among r ys
Among-if true r x ys (inl e) = inl (e, refl)
Among-if true r x ys (inr m) = inr m
Among-if false r x ys m = inr m

pub Among-filter :
    (p : RunRecord → Bool) (r : RunRecord) (xs : List RunRecord)
    → Among r (filter p xs)
    → Among r xs × (p r ≡ true)
Among-filter p r [] h = absurd h
Among-filter p r (x ∷ xs) h = elim (Among-if (p x) r x (filter p xs) h) [
  | inl (e, t) ↦ (inl e, ap p (sym e) ∙ t)
  | inr m ↦ let (n, t) = Among-filter p r xs m in (inr n, t)
]

if-Among :
    (b : Bool) (r x : RunRecord) (ys : List RunRecord)
    → ((x ≡ r) × (b ≡ true)) ⊎ Among r ys
    → Among r (if b then x ∷ ys else ys)
if-Among true r x ys (inl (e, h)) = inl e
if-Among true r x ys (inr m) = inr m
if-Among false r x ys (inl (e, h)) = absurd (cc)
if-Among false r x ys (inr m) = m

pub filter-Among :
    (p : RunRecord → Bool) (r : RunRecord) (xs : List RunRecord)
    → Among r xs
    → p r ≡ true
    → Among r (filter p xs)
filter-Among p r [] m h = m
filter-Among p r (x ∷ xs) m h =
    if-Among (p x) r x (filter p xs)
      (elim m [ inl e ↦ inl (e, ap p e ∙ h) | inr n ↦ inr (filter-Among p r xs n h) ])

later_chain : (e a b : Option ℤ) → is_later e a ≡ false → is_later b a ≡ true → is_later e b ≡ false
later_chain none a b h k = refl
later_chain (some e) none b h k = ground arith
later_chain (some e) (some a) none h k = refl
later_chain (some e) (some a) (some b) h k = ground arith

later_self : (e : Option ℤ) → is_later e e ≡ false
later_self none = refl
later_self (some e) = ground arith

done-inj : {A : Type 0} {a b : A} → done a ≡ done b → a ≡ b
done-inj h = cc

newer_cases :
    (b : Bool) (x old n : Newest)
    → (if b then x else old) ≡ n
    → ((b ≡ true) × (x ≡ n)) ⊎ ((b ≡ false) × (old ≡ n))
newer_cases true x old n h = inl (refl, h)
newer_cases false x old n h = inr (refl, h)

module _ (platform : Platform) (hashing : Hashing) (config : ServiceConfig)
    (gate : PassportGateConfig) (world : World) where
  -- A candidate, its verification, and the proof that was made of them.
  abbrev pub IsOrigin :
      CurrentLaunchContractProof → Newest → RunRecord → RegistryVerification → Type 0
  IsOrigin current n c v =
      (world.verify_strict c ≡ done v)
      × ((proof_from_verification platform hashing c v current config ≡ returns n.proof)
          × (n.anchored_at ≡ candidate_time platform hashing config gate world c v))

  abbrev pub time_of : RunRecord → RegistryVerification → Option ℤ
  time_of = candidate_time platform hashing config gate world

  -- A proof that is not older than the one before it takes the place of it, or leaves it.
  abbrev IsNext :
      CurrentLaunchContractProof
      → Option Newest
      → RunRecord
      → RegistryVerification
      → Newest
      → Type 0
  IsNext current old c v n =
      ((old ≡ some n) ⊎ IsOrigin current n c v)
      × ((is_later (time_of c v) n.anchored_at ≡ false)
          × ((m : Newest) (t : Option ℤ)
              → old ≡ some m
              → is_later t m.anchored_at ≡ false
              → is_later t n.anchored_at ≡ false))

  some-inj : {a b : Newest} → some a ≡ some b → a ≡ b
  some-inj h = cc

  IsNext-cases :
      (current : CurrentLaunchContractProof) (c : RunRecord) (v : RegistryVerification)
      (p : PassportProof) (old : Option Newest)
      → world.verify_strict c ≡ done v
      → proof_from_verification platform hashing c v current config ≡ returns p
      → let x : Newest = record { proof = p; anchored_at = time_of c v } in
        IsNext current old c v (newer x old)
  IsNext-cases current c v p none e f =
      (inr (e, (f, refl)), (later_self (time_of c v), λ m t h k. absurd (cc)))
  IsNext-cases current c v p (some old) e f =
      if-both (λ n. IsNext current (some old) c v n) (is_later (time_of c v) old.anchored_at) _ _
        (λ l. (
          inr (e, (f, refl)),
          (
            later_self (time_of c v),
            λ m t h k. later_chain t old.anchored_at (time_of c v) (rw (some-inj h) k) l,
          ),
        ))
        (λ l. (inl refl, (l, λ m t h k. rw (some-inj h) k)))

  step_cases :
      (current : CurrentLaunchContractProof) (c : RunRecord) (old : Option Newest) (n : Newest)
      (a : Attempt RegistryVerification)
      → world.verify_strict c ≡ a
      → candidate_step platform hashing config gate world c current a old ≡ done n
      → (v : RegistryVerification) × (world.verify_strict c ≡ done v) × IsNext current old c v n
  step_cases current c old n (broken x) e h = absurd (cc)
  step_cases current c old n (done v) e h =
      proof_cases (proof_from_verification platform hashing c v current config) refl h
    where
      proof_cases :
          (o : Outcome PassportProof)
          → proof_from_verification platform hashing c v current config ≡ o
          → proof_step platform hashing config gate world c v o old ≡ done n
          → (v : RegistryVerification) × (world.verify_strict c ≡ done v) × IsNext current old c v n
      proof_cases (throws x) f g = absurd (cc)
      proof_cases (returns p) f g =
          (v, e, rw (sym (done-inj g)) (IsNext-cases current c v p old e f))

  loop_step :
      (current : CurrentLaunchContractProof) (rest : List RunRecord) (a : Attempt Newest)
      (n : Newest)
      → elim a [
        | broken e ↦ broken e
        | done m ↦ newest_of platform hashing config gate world rest current (some m)
      ]
        ≡ done (some n)
      → (m : Newest) × (a ≡ done m)
        × (newest_of platform hashing config gate world rest current (some m) ≡ done (some n))
  loop_step current rest (broken e) n h = absurd (cc)
  loop_step current rest (done m) n h = (m, refl, h)

  -- What the loop ends with: the proof before it or the one of a candidate, and none of the
  -- candidates is later.
  abbrev pub IsNewest :
      List RunRecord → CurrentLaunchContractProof → Option Newest → Newest → Type 0
  IsNewest runs current old n =
      ((old ≡ some n)
        ⊎ ((c : RunRecord) × (v : RegistryVerification) × Among c runs × IsOrigin current n c v))
      × (((c : RunRecord) (v : RegistryVerification)
            → Among c runs
            → world.verify_strict c ≡ done v
            → is_later (time_of c v) n.anchored_at ≡ false)
          × ((m : Newest) (t : Option ℤ)
              → old ≡ some m
              → is_later t m.anchored_at ≡ false
              → is_later t n.anchored_at ≡ false))

  same_time :
      (c d : RunRecord) (v u : RegistryVerification) (n : Newest)
      → c ≡ d
      → world.verify_strict c ≡ done v
      → world.verify_strict d ≡ done u
      → is_later (time_of c v) n.anchored_at ≡ false
      → is_later (time_of d u) n.anchored_at ≡ false
  same_time c d v u n x w f h =
      let e : v ≡ u = done-inj (sym w ∙ (ap (λ r. world.verify_strict r) x ∙ f)) in
      rw (sym x, sym e) h

  pub newest_of-IsNewest :
      (runs : List RunRecord) (current : CurrentLaunchContractProof) (old : Option Newest)
      (n : Newest)
      → newest_of platform hashing config gate world runs current old ≡ done (some n)
      → IsNewest runs current old n
  unfolding newest_of
  newest_of-IsNewest [] current old n h =
      (inl (done-inj h), (λ c v m e. absurd m, λ m t e k. rw (some-inj (sym (done-inj h) ∙ e)) k))
  newest_of-IsNewest (c ∷ rest) current old n h =
      let (m, e, g) = loop_step current rest _ n h in
      let (v, w, (origin, (not_later, kept))) =
        step_cases current c old m (world.verify_strict c) refl e in
      let (later_origin, (others, after)) = newest_of-IsNewest rest current (some m) n g in
      (
        elim later_origin [
          | inl q ↦ elim origin [
            | inl f ↦ inl (f ∙ q)
            | inr i ↦ inr (c, v, inl refl, rw (sym (some-inj q)) i)
          ]
          | inr (d, u, among, i) ↦ inr (d, u, inr among, i)
        ],
        (
          λ d u among f. elim among [
            | inl x ↦ same_time c d v u n x w f (after m (time_of c v) refl not_later)
            | inr y ↦ others d u y f
          ],
          λ b t f k. after m t refl (kept b t f k),
        ),
      )
