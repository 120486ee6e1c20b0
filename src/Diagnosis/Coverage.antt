-- ===== src/Diagnosis/Coverage.antt =====
-- Each signal stands in the bundle of its snapshot and its failure type.
use agent_loop_gate.Base.{String, List, lookup, Occurs, string_eq, ◌≡◌, ◌≢◌}
use agent_loop_gate.Schemas.{Digest, FailureType, pool_eq}
use agent_loop_gate.Schemas.Candidate.{FailureBundle}
use agent_loop_gate.Diagnosis.{DiagnosticSignals}
use agent_loop_gate.Diagnosis.Texts.{IsAbsent}
use agent_loop_gate.Diagnosis.Bundles.{GroupKey, group_key_eq, Groups, items_of, BundleIdentity}

-- The signal stands in the group of the key.
abbrev IsGrouped : GroupKey → DiagnosticSignals → Groups → Type 0
IsGrouped key s groups = Occurs s (items_of (lookup key groups))

module _ (canonical_digest : BundleIdentity → Digest) (json_text : FailureBundle → String)
    (strip casefold : String → String) where
  -- No term, stripped and without its case, stands in the JSON text of the bundle.
  abbrev pub IsLeakFree : List String → FailureBundle → Type 0
  IsLeakFree terms b =
      (term : String)
      → Occurs term terms
      → strip term ≢ ""
      → IsAbsent (casefold (strip term)) (casefold (json_text b))

  -- The bundle has the run and the evidence of the signal, and no protected term.
  abbrev pub IsBundleOf : List String → DiagnosticSignals → FailureType → FailureBundle → Type 0
  IsBundleOf terms s type b =
      (b.snapshot_id ≡ s.snapshot_id)
      × (b.failure_type ≡ type)
      × Occurs s.run_id b.affected_run_ids
      × Occurs s.evidence_ref b.evidence_refs
      × IsLeakFree terms b
