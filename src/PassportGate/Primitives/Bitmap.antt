-- ===== src/PassportGate/Primitives/Bitmap.antt =====
-- The gate bitmap of packages/passport-gate/src/primitives.ts against the one of
-- backend/src/domain/gates.ts, which the registry stores.
use launch_proof.Shared.{◌≡◌, arith}
use launch_proof.Domain.Types.{Gates}
use launch_proof.Domain.Gates.{gate_bitmap, state_bits, is_pass}
use launch_proof.PassportGate.Types.{GateResults}
use launch_proof.PassportGate.Primitives.{encode_gate_bitmap, decode_gate_bitmap}

-- Decoding an encoded set of gates gives the set back.
pub decode_gate_bitmap-encode_gate_bitmap :
    (g : GateResults) → decode_gate_bitmap (encode_gate_bitmap g) ≡ g
unfolding decode_gate_bitmap encode_gate_bitmap
decode_gate_bitmap-encode_gate_bitmap g = ground arith

-- The gates that the engine reads in a bitmap of the backend are those that passed: a failed gate
-- and one that was not tested both read as false.
pub decode_gate_bitmap-gate_bitmap :
    (g : Gates)
    → decode_gate_bitmap (gate_bitmap g) ≡ record {
      discoverable = is_pass g.discoverable;
      contract_correct = is_pass g.contract_correct;
      fresh_challenge = is_pass g.fresh_challenge;
      safe_to_rehearse = is_pass g.safe_to_rehearse;
      paid_delivery = is_pass g.paid_delivery;
    }
unfolding decode_gate_bitmap gate_bitmap state_bits
decode_gate_bitmap-gate_bitmap g = ground arith
