-- ===== src/Candidates/Registry/Registration.antt =====
-- The registration of a candidate.
use Prim.Native.String.{◌++◌ as str_append}
use agent_loop_gate.Base.{
  string_eq, String, Bool, true, false, not, ◌&&◌, Option, none, some, List, [], ◌∷◌, Result, ok,
  err, raise_if, ◌>>◌, ◌>>=◌, contains, insert, keys, str_eq, if◌then◌else◌,
}
use agent_loop_gate.Base.Sorting.{sorted, str_lt}
use agent_loop_gate.Schemas.{
  CandidateStatus, checked, held, candidate_status_eq, AssetFamily, RiskTier, ArtifactId, Digest,
  NonEmpty, UtcDateTime, is_artifact_id,
}
use agent_loop_gate.Schemas.Candidate.{
  CandidateRecord, FailureBundle, UpdaterIdentity, PredictedEffect,
}
use agent_loop_gate.Mutation.Models.{
  CandidateCheckCode, passed, hold_risk_h, reject_malformed_patch, reject_protected_path,
  reject_unregistered_path, reject_operation, reject_leakage, reject_change_budget,
  reject_trust_kernel_drift, reject_unbound_capability, CheckDisposition, pass, reject,
  MutationPolicy, model_1_0, model_1_1, ModelVersion,
}
use agent_loop_gate.Mutation.Checker.Verdicts.{CandidateCheckResult}
use agent_loop_gate.Candidates.Registry.Events.{
  CandidateError, CandidateLifecycleEvent, Entry, Registry, last_of, append_event, unsafe_id,
  already_exists, rejected_by_check, unresolved_check, stored_patch_mismatch, semantic_duplicate_of,
}

abbrev same_text : Option Digest → Option Digest → Bool
same_text none none = true
same_text (some a) (some b) = str_eq a b
same_text _ _ = false

-- The test of the loop of `_semantic_duplicate` on one candidate directory. A directory without
-- events or without a check is passed over.
abbrev is_duplicate :
    ArtifactId
    → Digest
    → Option Digest
    → Option CandidateLifecycleEvent
    → Option CandidateCheckResult
    → Bool
is_duplicate parent bundle fingerprint (some e) (some k) =
    str_eq e.record_of.parent_snapshot_id parent
    && str_eq e.record_of.failure_bundle_digest bundle
    && same_text k.semantic_fingerprint fingerprint
is_duplicate parent bundle fingerprint _ _ = false

abbrev candidate_of : Option CandidateLifecycleEvent → ArtifactId → ArtifactId
candidate_of none id = id
candidate_of (some e) id = e.record_of.candidate_id

unfoldable pub find_duplicate : ArtifactId → Digest → Option Digest → Registry → Option ArtifactId
find_duplicate parent bundle fingerprint [] = none
find_duplicate parent bundle fingerprint ((id, entry) ∷ g) =
    let rest = find_duplicate parent bundle fingerprint g in
    if is_duplicate parent bundle fingerprint (last_of entry.events) entry.stored_check
    then some (candidate_of (last_of entry.events) id)
    else rest

abbrev deduplicates : MutationPolicy → ModelVersion → Bool
deduplicates policy model_1_0 = false
deduplicates policy model_1_1 = policy.semantic_deduplication

-- `_semantic_duplicate`, over the directories in the order of their names.
unfoldable pub semantic_duplicate :
    MutationPolicy → Registry → ArtifactId → Digest → Option Digest → Option ArtifactId
unfolding find_duplicate
semantic_duplicate policy g parent bundle none = none
semantic_duplicate policy g parent bundle (some fingerprint) =
    if deduplicates policy policy.schema_version
    then find_duplicate parent bundle (some fingerprint)
        (sorted (λ (a b : ArtifactId × Entry). str_lt a.0 b.0) g)
    else none

-- The arguments of `register` with their types checked; `check` is the checker's result on the
-- patch, and `stored_digest` the digest of the copy of the patch.
pub record Registration : Type 0 where
  pub candidate_id : ArtifactId
  pub parent_snapshot_id : ArtifactId
  pub failure_bundle : FailureBundle
  pub updater : UpdaterIdentity
  pub hypothesis : NonEmpty
  pub patch_path : NonEmpty
  pub predicted_effect : PredictedEffect
  pub created_at : UtcDateTime
  pub check : CandidateCheckResult
  pub stored_digest : Digest

abbrev tier_or : Option RiskTier → List AssetFamily → Result CandidateError RiskTier
tier_or (some r) (f ∷ fs) = ok r
tier_or _ _ = err unresolved_check

abbrev no_duplicate : Option ArtifactId → Result CandidateError (Unit {0})
no_duplicate none = ok tt
no_duplicate (some id) = err (semantic_duplicate_of id)

abbrev pub first_status : CheckDisposition → CandidateStatus
first_status pass = checked
first_status _ = held

abbrev code_value : CandidateCheckCode → String
code_value passed = "PASS"
code_value hold_risk_h = "HOLD_RISK_H"
code_value reject_malformed_patch = "REJECT_MALFORMED_PATCH"
code_value reject_protected_path = "REJECT_PROTECTED_PATH"
code_value reject_unregistered_path = "REJECT_UNREGISTERED_PATH"
code_value reject_operation = "REJECT_OPERATION"
code_value reject_leakage = "REJECT_LEAKAGE"
code_value reject_change_budget = "REJECT_CHANGE_BUDGET"
code_value reject_trust_kernel_drift = "REJECT_TRUST_KERNEL_DRIFT"
code_value reject_unbound_capability = "REJECT_UNBOUND_CAPABILITY"

abbrev is_rejected : CheckDisposition → Bool
is_rejected reject = true
is_rejected _ = false

module _ (bundle_digest : FailureBundle → Digest) (policy : MutationPolicy) where
  -- The guards of `register` before it writes.
  unfoldable pub admit : Registry → Registration → Result CandidateError RiskTier
  unfolding semantic_duplicate
  admit g q = do
    raise_if (not (is_artifact_id q.candidate_id)) unsafe_id
    raise_if (contains q.candidate_id (keys g)) already_exists
    raise_if (is_rejected q.check.disposition) rejected_by_check
    tier ← tier_or q.check.risk_tier q.check.asset_families
    no_duplicate (
        semantic_duplicate policy g q.parent_snapshot_id (bundle_digest q.failure_bundle)
          q.check.semantic_fingerprint)
    ok tier

  abbrev pub new_record : Registration → RiskTier → CandidateRecord
  new_record q tier = record {
    candidate_id = q.candidate_id;
    parent_snapshot_id = q.parent_snapshot_id;
    failure_bundle_digest = bundle_digest q.failure_bundle;
    updater = q.updater;
    hypothesis = q.hypothesis;
    asset_families = q.check.asset_families;
    risk_tier = tier;
    patch_path = q.patch_path;
    patch_digest = q.check.patch_digest;
    changed_files = q.check.changed_files;
    predicted_effect = q.predicted_effect;
    status = first_status q.check.disposition;
    created_at = q.created_at;
  }

  -- The registry with the directory and the check of the candidate.
  abbrev pub with_directory : Registry → Registration → Option CandidateCheckResult → Registry
  with_directory g q check = insert q.candidate_id (record { stored_check = check; events = [] }) g

  abbrev pub write :
      Registry
      → Registration
      → Result CandidateError RiskTier
      → Registry × Result CandidateError CandidateRecord
  unfolding append_event
  write g q (err e) = (g, err e)
  write g q (ok tier) =
      if not (str_eq q.stored_digest q.check.patch_digest)
      then (with_directory g q none, err stored_patch_mismatch)
      else (
        append_event (with_directory g q (some q.check)) q.candidate_id (new_record q tier) none
            q.updater.name
            (str_append "failure_bundle:" (bundle_digest q.failure_bundle)
              ∷ str_append "candidate_check:" (code_value q.check.code)
              ∷ [])
            q.created_at,
        ok (new_record q tier),
      )

  -- `register`: the registry afterwards, and the record or the error.
  unfoldable pub register :
      Registry → Registration → Registry × Result CandidateError CandidateRecord
  unfolding admit append_event
  register g q = write g q (admit g q)
