-- ===== src/PassportGate/Reasons.antt =====
-- Equality of the reason codes of packages/passport-gate/src/types.ts, for the sets of them that the
-- engine makes.
use launch_proof.Shared.{refl, Bool, true, false, Eq, ◌≡◌, ◌↔◌}
use launch_proof.PassportGate.Types.{ReasonCode}

unfoldable pub ReasonCode-discrete : Discrete ReasonCode
ReasonCode-discrete = hlevel

abbrev is_yes {ℓ} : {P : Type ℓ} → Dec P → Bool
is_yes (yes p) = true
is_yes (no n) = false

is_yes_iff {ℓ} : {P : Type ℓ} (d : Dec P) → (is_yes d ≡ true) ↔ P
is_yes_iff (yes p) = (λ _. p, λ _. refl)
is_yes_iff (no n) = (λ e. cc, λ p. absurd (n p))

unfoldable pub reason_beq : ReasonCode → ReasonCode → Bool
unfolding ReasonCode-discrete
reason_beq a b = is_yes (ReasonCode-discrete a b)

pub reason_beq_iff : (a b : ReasonCode) → (reason_beq a b ≡ true) ↔ (a ≡ b)
unfolding reason_beq
reason_beq_iff a b = is_yes_iff (ReasonCode-discrete a b)

instance abbrev pub reason_eq : Eq ReasonCode
reason_eq = record { beq = reason_beq; beq_iff = reason_beq_iff }
