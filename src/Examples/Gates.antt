-- ===== src/Examples/Gates.antt =====
-- The gates, the contracts and the trace references at concrete inputs.
use agent_loop_gate.Base.{
  ◌+◌, ◌≤◌, ◌<◌, String, true, false, Option, none, some, map, ok, value_of, ◌≡◌, ◌↔◌, ◌⊎◌, refl,
}
use agent_loop_gate.Base.Int.{pos}
use agent_loop_gate.Base.Decimals.{whole}
use agent_loop_gate.Schemas.{
  risk_l, reject, ship_recommended, leakage, RuntimeHost, PersistenceKind, IngestMode,
  EvidenceStatus, DecisionValue, Digest,
}
use agent_loop_gate.Schemas.Contract.{ObjectiveContract, check_contract, all_gates}
use agent_loop_gate.Schemas.Evidence.{
  SourceTraceRef, check_trace_ref, require_verified_for_gate, gate_evidence_has_no_gap,
}
use agent_loop_gate.Contracts.{
  verify_contract_digest, freeze_contract, freeze-verifies, ContractPayload,
}
use agent_loop_gate.Gates.Models.{GateAssessment, GateOutcome, check_assessment}
use agent_loop_gate.Gates.Engine.{evaluate, decide}
use agent_loop_gate.Gates.Engine.Ladder.{gate_name, IsLadder}
use agent_loop_gate.Gates.Engine.Promotion.{
  IsPromotable, decide-IsLadder, decide-ships_iff, decide-rejects_iff, decide_total,
}

abbrev contract : ObjectiveContract
contract = record {
  benchmark = record { name = "tau"; suite = "banking"; commit = "abc" };
  reliability = record { trials = 4; stable_success_required = 4 };
  gates = record {
    leakage_hits_max = 0;
    critical_violations_max = 0;
    id_stable_task_net_min = pos 1;
    ood_stable_task_net_min = pos 0;
    replay_stable_task_net_min = pos 0;
    catastrophic_regressions_max = 0;
    mean_cost_ratio_max = record { coeff = 11; scale = 1 };
    p50_latency_ratio_max = record { coeff = 12; scale = 1 };
  };
  decision_order = all_gates;
  frozen_at = none;
  contract_digest = none;
}

abbrev assessment : GateAssessment
assessment = record {
  candidate_id = "c1";
  baseline_snapshot_id = "b0";
  evaluation_integrity_complete = true;
  leakage_hits = 0;
  mutates_trust_kernel = false;
  risk_tier = risk_l;
  release_critical_violations = 0;
  id_stable_task_net = pos 2;
  ood_stable_task_net = pos 0;
  replay_stable_task_net = pos 1;
  catastrophic_regressions = 0;
  reliability_complete = true;
  reliability_trials = 4;
  stable_success_required = 4;
  baseline_mean_cost = whole 10;
  candidate_mean_cost = whole 11;
  baseline_p50_latency_ms = whole 100;
  candidate_p50_latency_ms = whole 110;
  evidence_refs = map (λ g. (g, "e")) all_gates;
}

-- The same assessment with a leak.
abbrev leaking : GateAssessment
leaking = record assessment { leakage_hits = 3 }

abbrev identity : Option Digest → GateAssessment → DecisionValue → String
identity d a v = a.candidate_id

unfoldable promoted : GateOutcome
unfolding decide
promoted = value_of (decide identity contract assessment "t0") tt

unfoldable stopped : GateOutcome
unfolding decide
stopped = value_of (decide identity contract leaking "t0") tt

promoted-decides : decide identity contract assessment "t0" ≡ ok promoted
unfolding decide promoted
promoted-decides = refl

stopped-decides : decide identity contract leaking "t0" ≡ ok stopped
unfolding decide stopped
stopped-decides = refl

contract-checks : check_contract contract ≡ ok tt
unfolding check_contract
contract-checks = refl

assessment-checks : check_assessment assessment ≡ ok tt
unfolding check_assessment
assessment-checks = refl

-- The leak stops the ladder at the second gate.
stopped_at : stopped.failed_gate ≡ some leakage
unfolding stopped evaluate
stopped_at = refl

promoted_to : promoted.decision_record.decision ≡ ship_recommended
unfolding promoted evaluate
promoted_to = refl

decide-ships_iff_example :
    (promoted.decision_record.decision ≡ ship_recommended) ↔ IsPromotable contract assessment
decide-ships_iff_example =
    decide-ships_iff identity contract assessment "t0" contract-checks promoted-decides

decide-rejects_iff_example : (stopped.decision_record.decision ≡ reject) ↔ (
    (leaking.evaluation_integrity_complete ≡ true)
    × ((leaking.mutates_trust_kernel ≡ true)
        ⊎ (contract.gates.leakage_hits_max < leaking.leakage_hits)))
decide-rejects_iff_example =
    decide-rejects_iff identity contract leaking "t0" contract-checks stopped-decides

decide-IsLadder_example :
    (map gate_name stopped.decision_record.gates ≡ contract.decision_order)
    × IsLadder contract leaking stopped.failed_gate stopped.decision_record.gates
decide-IsLadder_example = decide-IsLadder identity contract leaking "t0" stopped-decides

decide_total_example : (o : GateOutcome) × (decide identity contract assessment "t0" ≡ ok o)
decide_total_example =
    decide_total identity contract assessment "t0" contract-checks assessment-checks

abbrev digest_of : ContractPayload → Digest
digest_of p = p.benchmark.commit

unfoldable frozen_contract : ObjectiveContract
unfolding freeze_contract
frozen_contract = value_of (freeze_contract digest_of contract "t0") tt

freezes : freeze_contract digest_of contract "t0" ≡ ok frozen_contract
unfolding freeze_contract frozen_contract
freezes = refl

freeze-verifies_example :
    (verify_contract_digest digest_of frozen_contract ≡ ok tt)
    × (freeze_contract digest_of frozen_contract "t9" ≡ ok frozen_contract)
freeze-verifies_example = freeze-verifies digest_of contract "t0" "t9" freezes

abbrev trace : SourceTraceRef
trace = record {
  source_trace_id = "s1";
  runtime_host = RuntimeHost.tau3;
  source_locator = "file";
  session_id_hash = "h";
  event_seq_start = 4;
  event_seq_end = 9;
  event_count = 6;
  source_revision = "r";
  persistence_kind = PersistenceKind.jsonl;
  ingest_mode = IngestMode.reference;
  mirror_path = none;
  mirror_digest = none;
  cursor_complete = true;
  evidence_status = EvidenceStatus.verified;
  created_at = "t0";
}

trace-checks : check_trace_ref trace ≡ ok tt
unfolding check_trace_ref
trace-checks = refl

trace-enters : require_verified_for_gate trace ≡ ok tt
unfolding require_verified_for_gate
trace-enters = refl

gate_evidence_has_no_gap_example :
    (trace.evidence_status ≡ EvidenceStatus.verified)
    × (trace.event_seq_start + trace.event_count ≡ trace.event_seq_end + 1)
    × (1 ≤ trace.event_count)
gate_evidence_has_no_gap_example = gate_evidence_has_no_gap trace trace-checks trace-enters
