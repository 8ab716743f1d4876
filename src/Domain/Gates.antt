-- ===== src/Domain/Gates.antt =====
-- backend/src/domain/gates.ts: the on-chain gate bitmap and the Passport status.
pub mod Laws
mod Tests
use Prim.Native.Nat.{bit_or}
use launch_proof.Shared.{ℕ, ◌*◌, ◌^◌, Bool, true, false, not, ◌||◌, ◌&&◌, if◌then◌else◌}
use launch_proof.Domain.Types.{
  GateState, pass, fail, not_tested, Gates, PassportStatus, verified, needs_attention,
  not_rehearsable,
}

unfoldable pub state_bits : GateState → ℕ
state_bits not_tested = 0
state_bits pass = 1
state_bits fail = 2

-- x << k; the operands are at most 2, so the 32-bit shift does not wrap.
abbrev pub shl : ℕ → ℕ → ℕ
shl x k = x * 2 ^ k

unfoldable pub gate_bitmap : Gates → ℕ
unfolding state_bits
gate_bitmap g =
    bit_or
      (bit_or
        (bit_or (bit_or (state_bits g.discoverable) (shl (state_bits g.contract_correct) 2))
          (shl (state_bits g.fresh_challenge) 4))
        (shl (state_bits g.safe_to_rehearse) 6))
      (shl (state_bits g.paid_delivery) 8)

abbrev pub is_pass : GateState → Bool
is_pass pass = true
is_pass _ = false

abbrev pub is_not_tested : GateState → Bool
is_not_tested not_tested = true
is_not_tested _ = false

-- `firstFour.includes("not_tested")` and `firstFour.every(...)`
abbrev pub any_not_tested : Gates → Bool
any_not_tested g =
    is_not_tested g.discoverable
    || (is_not_tested g.contract_correct
        || (is_not_tested g.fresh_challenge || is_not_tested g.safe_to_rehearse))

abbrev pub first_four_pass : Gates → Bool
first_four_pass g =
    is_pass g.discoverable
    && (is_pass g.contract_correct && (is_pass g.fresh_challenge && is_pass g.safe_to_rehearse))

unfoldable pub passport_status : Gates → Bool → PassportStatus
passport_status g infrastructure_complete =
    if not infrastructure_complete || any_not_tested g
    then not_rehearsable
    else if first_four_pass g && is_pass g.paid_delivery
    then verified
    else needs_attention

unfoldable pub contract_status : PassportStatus → ℕ
contract_status verified = 2
contract_status needs_attention = 1
contract_status not_rehearsable = 0
