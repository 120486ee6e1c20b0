-- ===== src/Mutation/Checker/Check.antt =====
-- CandidateChecker.check over the parameters of its host.
use agent_loop_gate.Base.{
  string_eq, ◌+◌, String, Bool, true, false, not, ◌&&◌, ◌||◌, Option, none, some, List, [], ◌∷◌,
  map, Result, ok, raise_if, ◌>>◌, ◌>>=◌, lookup, any, all, filter, keys, length, ltb, leb,
  if◌then◌else◌, str_eq, is_some,
}
use agent_loop_gate.Base.Sorting.{sorted, str_lt}
use text.Mathlib.Text.{find?}
use agent_loop_gate.Schemas.{asset_family_eq, risk_tier_eq, Digest, NonEmpty}
use agent_loop_gate.Schemas.Candidate.{ChangeBudget}
use agent_loop_gate.Mutation.Models.{
  asset_operation_eq, HarnessAsset, HarnessAssetManifest, MutationPolicy, TrustKernelSnapshot,
  model_1_0, model_1_1, reject_operation, reject_leakage, reject_change_budget,
  reject_trust_kernel_drift,
}
use agent_loop_gate.Mutation.Patch.{ParsedPatch, parse_patch, join_lines, lines_of}
use agent_loop_gate.Mutation.Checker.Verdicts.{
  semantic_rules, CapabilityError, CandidateCheckResult, Staging, CheckerHost, max_risk, dedup,
  families_of, is_auto, is_semantic, Verdict, rejection, permits, budget_of, one_asset,
  none_protected, parsed_or, none_unbound, by_risk, is_held, returned, cannot_apply,
  cannot_materialize, not_readable, not_bound, removes_binding, static_target, over_budget, drifted,
  no_patch_operation, forbidden_feature, check_failed, apply_failed, applied,
}

module _ (host : CheckerHost) (manifest : HarnessAssetManifest) (policy : MutationPolicy)
    (kernel : TrustKernelSnapshot) where
  -- `_trust_kernel_matches`: a file that cannot be read does not match.
  abbrev pub same_file : Option Digest → Digest → Bool
  same_file none d = false
  same_file (some e) d = str_eq e d

  unfoldable pub trust_kernel_matches : Bool
  trust_kernel_matches =
      all (λ (f : NonEmpty × Digest). same_file (host.file_digest f.0) f.1) kernel.files
      && str_eq
          (host.files_digest (sorted (λ (f g : NonEmpty × Digest). str_lt f.0 g.0) kernel.files))
          kernel.trust_kernel_digest

  abbrev pub is_protected : String → Bool
  is_protected file = any (host.path_matches file) policy.protected_paths

  -- The assets that a path matches. Every path stands in a parsed patch, so the validation of
  -- `_path_matches`, which the parser applied already, does not raise.
  abbrev pub assets_at : String → List HarnessAsset
  assets_at file =
      filter (λ (a : HarnessAsset). any (host.path_matches file) a.path_patterns) manifest.assets

  unfoldable pub match_assets : ParsedPatch → List String → Result Verdict (List HarnessAsset)
  match_assets parsed [] = ok []
  match_assets parsed (file ∷ files) = do
    a ← one_asset file parsed (assets_at file)
    rest ← match_assets parsed files
    ok (a ∷ rest)

  abbrev pub guarded_files : List String → List HarnessAsset → List String
  guarded_files (file ∷ files) (a ∷ rest) =
      if a.routes_capabilities then file ∷ guarded_files files rest else guarded_files files rest
  guarded_files _ _ = []

  abbrev pub check_binding : ParsedPatch → String → Option Bool → Option CapabilityError
  check_binding parsed file none = some not_readable
  check_binding parsed file (some false) = some not_bound
  check_binding parsed file (some true) =
      let deleted = join_lines (lines_of (lookup file parsed.deleted_by_file)) in
      if is_some (find? deleted "capability_binding")
        || is_some (find? deleted "runtime_tool_schema")
      then some removes_binding
      else if any host.is_static_target (lines_of (lookup file parsed.added_by_file))
      then some static_target
      else none

  abbrev pub or_else : Option CapabilityError → Option CapabilityError → Option CapabilityError
  or_else none e = e
  or_else (some e) f = some e

  unfoldable pub check_guarded :
      ParsedPatch → (String → Option Bool) → List String → Option CapabilityError
  unfolding join_lines
  check_guarded parsed binding [] = none
  check_guarded parsed binding (file ∷ files) =
      or_else (check_binding parsed file (binding file)) (check_guarded parsed binding files)

  unfoldable pub staged_error : ParsedPatch → List String → Staging → Option CapabilityError
  unfolding check_guarded
  staged_error parsed guarded check_failed = some cannot_apply
  staged_error parsed guarded apply_failed = some cannot_materialize
  staged_error parsed guarded (applied binding) = check_guarded parsed binding guarded

  abbrev pub guarded_error : ParsedPatch → List String → Option CapabilityError
  guarded_error parsed [] = none
  guarded_error parsed (file ∷ files) =
      staged_error parsed (file ∷ files) (host.stage parsed.changed_files)

  -- `_runtime_capability_error`, on the guarded files in the order of the patch.
  unfoldable pub runtime_capability_error : ParsedPatch → List HarnessAsset → Option CapabilityError
  unfolding staged_error
  runtime_capability_error parsed assets =
      guarded_error parsed (guarded_files parsed.changed_files assets)

  -- `_semantic_tags`
  unfoldable pub semantic_tags : ParsedPatch → List NonEmpty
  unfolding semantic_rules
  semantic_tags parsed = keys (
      filter (λ (r : String × NonEmpty). host.finds r.1 (host.normalized parsed.added_text))
        semantic_rules)

  -- `_semantic_fingerprint`
  unfoldable pub semantic_fingerprint : ParsedPatch → List HarnessAsset → Digest
  unfolding semantic_tags
  semantic_fingerprint parsed assets =
      let tags = semantic_tags parsed in
      host.behavior_digest (families_of assets)
        (if leb 2 (length tags) then tags else host.behavior_lines parsed.added_text)

  -- `_result`
  unfoldable pub result : Digest → Verdict → CandidateCheckResult
  unfolding semantic_fingerprint
  result digest v =
      let semantic = is_semantic manifest.schema_version policy.schema_version in
      record {
        schema_version = if semantic then model_1_1 else model_1_0;
        disposition = v.disposition;
        code = v.code;
        message = v.message;
        patch_digest = digest;
        changed_files = sorted str_lt v.parsed.changed_files;
        additions = v.parsed.additions;
        deletions = v.parsed.deletions;
        changed_lines = v.parsed.additions + v.parsed.deletions;
        asset_families = families_of v.assets;
        risk_tier = max_risk v.assets;
        rollback_units =
            sorted str_lt (dedup (map (λ (a : HarnessAsset). a.rollback_unit) v.assets));
        auto_executable = is_auto policy v.disposition (max_risk v.assets);
        semantic_tags = if semantic then some (semantic_tags v.parsed) else none;
        semantic_fingerprint =
            if semantic then some (semantic_fingerprint v.parsed v.assets) else none;
      }

  -- The guards of `check` in order. At least one file is changed in a parsed patch, so there is
  -- an asset to take the highest tier of.
  unfoldable pub judge : Option (List String) → Option ChangeBudget → Result Verdict Verdict
  unfolding parse_patch trust_kernel_matches match_assets runtime_capability_error
  judge lines budget = do
    parsed ← parsed_or (parse_patch host.texts lines)
    raise_if (not trust_kernel_matches) (rejection reject_trust_kernel_drift drifted parsed [])
    none_protected parsed (filter is_protected parsed.changed_files)
    assets ← match_assets parsed parsed.changed_files
    raise_if (any (λ a. not (permits a)) assets)
        (rejection reject_operation no_patch_operation parsed assets)
    raise_if (any (λ p. host.finds p parsed.added_text) policy.forbidden_content_patterns)
        (rejection reject_leakage forbidden_feature parsed assets)
    none_unbound parsed assets (runtime_capability_error parsed assets)
    raise_if
        (ltb (budget_of policy budget).max_files (length parsed.changed_files)
          || ltb (budget_of policy budget).max_changed_lines (parsed.additions + parsed.deletions))
        (rejection reject_change_budget
          (over_budget (budget_of policy budget).max_files
            (budget_of policy budget).max_changed_lines)
          parsed assets)
    ok (by_risk policy parsed assets (is_held policy (max_risk assets)))

  -- `check`, on the lines of the patch and the digest of its file.
  unfoldable pub check : Digest → Option (List String) → Option ChangeBudget → CandidateCheckResult
  unfolding judge result
  check digest lines budget = result digest (returned (judge lines budget))
