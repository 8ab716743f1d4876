-- ===== src/Domain/Gates/Tests.antt =====
-- The model of backend/src/domain/gates.ts at concrete gates.
use launch_proof.Shared.{◌<◌, true, ◌≡◌, refl, ◌↔◌}
use launch_proof.Domain.Types.{Gates, fail, not_tested, verified}
use launch_proof.Domain.Sample.{sample_gates}
use launch_proof.Domain.Gates.{gate_bitmap, passport_status, contract_status}
use launch_proof.Domain.Gates.Laws.{
  gates_of, gates_of-gate_bitmap, AllPass, passport_status-verified, contract_status-verified,
}

abbrev unpaid : Gates
unpaid = record sample_gates { contract_correct = fail; paid_delivery = not_tested }

unpaid_bitmap : gate_bitmap unpaid ≡ 89
unfolding gate_bitmap
unpaid_bitmap = refl

gates_of-gate_bitmap_example :
    (gates_of (gate_bitmap unpaid) ≡ unpaid) × (gate_bitmap unpaid < 1024)
gates_of-gate_bitmap_example = gates_of-gate_bitmap unpaid

passport_status-verified_example :
    (passport_status sample_gates true ≡ verified) ↔ ((true ≡ true) × AllPass sample_gates)
passport_status-verified_example = passport_status-verified sample_gates true

contract_status-verified_example :
    (contract_status (passport_status sample_gates true) ≡ 2) ↔ (gate_bitmap sample_gates ≡ 341)
contract_status-verified_example = contract_status-verified sample_gates
