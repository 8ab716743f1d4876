-- ===== src/Domain/Gates/Laws.antt =====
-- What backend/src/domain/gates.ts promises to the registry and to readers of a Passport.
use launch_proof.Shared.{
  ℕ, zero, suc, ◌*◌, ◌/◌, ◌%◌, ◌+◌, ◌<◌, Bool, true, ◌≡◌, ap, ◌∙◌, ◌↔◌, arith,
}
use launch_proof.Domain.Types.{GateState, pass, fail, not_tested, Gates, verified}
use launch_proof.Domain.Gates.{state_bits, gate_bitmap, passport_status, contract_status}

-- The two-bit field at position `i` of a bitmap, as the registry's readers take it out.
abbrev pub digit : ℕ → ℕ → ℕ
digit bitmap place = bitmap / place % 4

-- The state that a two-bit field stands for.
abbrev pub state_of : ℕ → GateState
state_of zero = not_tested
state_of (suc zero) = pass
state_of (suc (suc n)) = fail

-- All five states, read back from the bitmap.
abbrev pub gates_of : ℕ → Gates
gates_of bitmap = record {
  discoverable = state_of (digit bitmap 1);
  contract_correct = state_of (digit bitmap 4);
  fresh_challenge = state_of (digit bitmap 16);
  safe_to_rehearse = state_of (digit bitmap 64);
  paid_delivery = state_of (digit bitmap 256);
}

state_bits-lt : (s : GateState) → state_bits s < 4
unfolding state_bits
state_bits-lt s = ground arith

state_of-state_bits : (s : GateState) → state_of (state_bits s) ≡ s
unfolding state_bits
state_of-state_bits s = ground arith

-- The bitwise or of the shifted fields is their sum.
gate_bitmap-sum :
    (g : Gates)
    → gate_bitmap g
      ≡ state_bits g.discoverable
        + 4 * state_bits g.contract_correct
        + 16 * state_bits g.fresh_challenge
        + 64 * state_bits g.safe_to_rehearse
        + 256 * state_bits g.paid_delivery
unfolding gate_bitmap
gate_bitmap-sum g = ground arith

-- The fields of a sum of five two-bit numbers.
digits_of_sum :
    (a b c d e : ℕ)
    → a < 4
    → b < 4
    → c < 4
    → d < 4
    → e < 4
    → let n = a + 4 * b + 16 * c + 64 * d + 256 * e in
      (digit n 1 ≡ a)
      × (digit n 4 ≡ b)
      × (digit n 16 ≡ c)
      × (digit n 64 ≡ d)
      × (digit n 256 ≡ e)
      × (n < 1024)
digits_of_sum a b c d e p q r s t = omega arith

-- The bitmap loses nothing: its two-bit fields give back the five gate states, and it fits in the
-- ten bits that the registry stores.
pub gates_of-gate_bitmap : (g : Gates) → (gates_of (gate_bitmap g) ≡ g) × (gate_bitmap g < 1024)
gates_of-gate_bitmap g =
    let (a, b, c, d, e, n) =
      digits_of_sum (state_bits g.discoverable) (state_bits g.contract_correct)
        (state_bits g.fresh_challenge) (state_bits g.safe_to_rehearse) (state_bits g.paid_delivery)
        (state_bits-lt _) (state_bits-lt _) (state_bits-lt _) (state_bits-lt _) (state_bits-lt _) in
    rw gate_bitmap-sum (
      λ i. record {
        discoverable = (ap state_of a ∙ state_of-state_bits g.discoverable) i;
        contract_correct = (ap state_of b ∙ state_of-state_bits g.contract_correct) i;
        fresh_challenge = (ap state_of c ∙ state_of-state_bits g.fresh_challenge) i;
        safe_to_rehearse = (ap state_of d ∙ state_of-state_bits g.safe_to_rehearse) i;
        paid_delivery = (ap state_of e ∙ state_of-state_bits g.paid_delivery) i;
      },
      n,
    )

abbrev pub AllPass : Gates → Type 0
AllPass g =
    (g.discoverable ≡ pass)
    × (g.contract_correct ≡ pass)
    × (g.fresh_challenge ≡ pass)
    × (g.safe_to_rehearse ≡ pass)
    × (g.paid_delivery ≡ pass)

-- A Passport is `verified` exactly when the infrastructure completed and all five gates passed.
pub passport_status-verified :
    (g : Gates) (complete : Bool)
    → (passport_status g complete ≡ verified) ↔ ((complete ≡ true) × AllPass g)
unfolding passport_status
passport_status-verified g complete = ground arith

-- When the infrastructure completed, the registry's status code is 2 exactly when the bitmap is 341.
pub contract_status-verified :
    (g : Gates) → (contract_status (passport_status g true) ≡ 2) ↔ (gate_bitmap g ≡ 341)
unfolding contract_status passport_status gate_bitmap
contract_status-verified g = ground arith
