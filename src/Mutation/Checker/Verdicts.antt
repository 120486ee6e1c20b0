-- ===== src/Mutation/Checker/Verdicts.antt =====
-- The verdicts of the checker, and what the policy makes of the assets.
use agent_loop_gate.Base.{
  string_eq, ℕ, String, Bool, true, false, ◌&&◌, ◌||◌, Option, none, some, List, [], ◌∷◌, Result,
  ok, err, same, contains, any, filter, ltb, if◌then◌else◌,
}
use agent_loop_gate.Schemas.{
  AssetFamily, asset_family_eq, RiskTier, risk_l, risk_m, risk_h, risk_tier_eq, ArtifactId, Digest,
  NonEmpty,
}
use agent_loop_gate.Schemas.Candidate.{ChangeBudget}
use agent_loop_gate.Mutation.Models.{
  asset_operation_eq, AssetOperation, HarnessAsset, MutationPolicy, ModelVersion, model_1_1,
  CheckDisposition, pass, hold, reject, CandidateCheckCode, passed, hold_risk_h,
  reject_malformed_patch, reject_protected_path, reject_unregistered_path,
  reject_unbound_capability,
}
use agent_loop_gate.Mutation.Patch.{MutationError, PatchTexts, ParsedPatch, empty_patch}

-- Why the prospective tool routing is refused.
pub data CapabilityError : Type 0 where
  cannot_apply cannot_materialize not_readable not_bound removes_binding static_target :
      CapabilityError

-- The values that the message of a result is formatted from.
pub data CheckMessage : Type 0 where
  malformed : MutationError → CheckMessage
  touches_protected not_one_asset : String → CheckMessage
  over_budget : ℕ → ℕ → CheckMessage
  unbound : CapabilityError → CheckMessage
  drifted no_patch_operation forbidden_feature risk_h_recordable within_policy : CheckMessage

pub record CandidateCheckResult : Type 0 where
  pub schema_version : ModelVersion
  pub disposition : CheckDisposition
  pub code : CandidateCheckCode
  pub message : CheckMessage
  pub patch_digest : Digest
  pub changed_files : List NonEmpty
  pub additions : ℕ
  pub deletions : ℕ
  pub changed_lines : ℕ
  pub asset_families : List AssetFamily
  pub risk_tier : Option RiskTier
  pub rollback_units : List ArtifactId
  pub auto_executable : Bool
  pub semantic_tags : Option (List NonEmpty)
  pub semantic_fingerprint : Option Digest

-- The outcome of `git apply` in the staging directory: a file of it as the capability binding
-- that it declares, `some true` for exactly the required one, and `none` for a file that is
-- not readable YAML.
pub data Staging : Type 0 where
  check_failed apply_failed : Staging
  applied : (String → Option Bool) → Staging

-- What the checker takes from the file system, from `git`, from `re`, from `pathlib` and from
-- the hash function.
pub record CheckerHost : Type 0 where
  pub texts : PatchTexts
  pub path_matches : String → NonEmpty → Bool
  pub file_digest : String → Option Digest
  pub files_digest : List (NonEmpty × Digest) → Digest
  pub finds : NonEmpty → String → Bool
  pub stage : List String → Staging
  pub is_static_target : String → Bool
  pub normalized : String → String
  pub behavior_lines : String → List String
  pub behavior_digest : List AssetFamily → List String → Digest

-- `_RISK_ORDER`
abbrev pub risk_order : RiskTier → ℕ
risk_order risk_l = 0
risk_order risk_m = 1
risk_order risk_h = 2

abbrev pub higher : RiskTier → RiskTier → RiskTier
higher r s = if ltb (risk_order r) (risk_order s) then s else r

abbrev pub max_from : RiskTier → List HarnessAsset → RiskTier
max_from r [] = r
max_from r (a ∷ rest) = max_from (higher r a.risk_tier) rest

-- The highest tier of the assets, and nothing without assets.
abbrev pub max_risk : List HarnessAsset → Option RiskTier
max_risk [] = none
max_risk (a ∷ rest) = some (max_from a.risk_tier rest)

-- `sorted({...})` over a list of texts.
abbrev pub dedup : List String → List String
dedup [] = []
dedup (x ∷ xs) = if contains x xs then dedup xs else x ∷ dedup xs

-- The families in the order of their values.
abbrev family_order : List AssetFamily
family_order =
    AssetFamily.context_memory_skill ∷ AssetFamily.middleware_runtime_code
    ∷ AssetFamily.orchestration_state ∷ AssetFamily.prompt_instruction
    ∷ AssetFamily.retrieval_search_policy ∷ AssetFamily.tool_contract_routing ∷ []

abbrev pub families_of : List HarnessAsset → List AssetFamily
families_of assets = filter (λ f. any (λ (a : HarnessAsset). same a.family f) assets) family_order

-- The patterns of `_semantic_tags`, in the order of the tags.
unfoldable pub semantic_rules : List (String × NonEmpty)
semantic_rules =
    ("exact_capability_match", "(?:exact match|exactly one registered capability)")
    ∷ ("fail_closed_routing", "(?:unmatched|unroutable|unregistered).{0,40}reject")
    ∷ ("gated_success_claim", "(?:success claim|claim completion|reporting completion)")
    ∷ ("read_after_write", "(?:read-after-write|read back|read-back|re-read)")
    ∷ ("runtime_capability_binding", "(?:runtime[-_ ]tool[-_ ]schema|capability-ref)")
    ∷ ("terminal_state_verification", "terminal state")
    ∷ []

abbrev pub is_auto : MutationPolicy → CheckDisposition → Option RiskTier → Bool
is_auto policy pass (some r) = contains r policy.auto_executable_risks
is_auto policy _ _ = false

abbrev pub is_semantic : ModelVersion → ModelVersion → Bool
is_semantic model_1_1 model_1_1 = true
is_semantic _ _ = false

-- What `check` hands to `_result`.
pub record Verdict : Type 0 where
  pub code : CandidateCheckCode
  pub message : CheckMessage
  pub disposition : CheckDisposition
  pub parsed : ParsedPatch
  pub assets : List HarnessAsset

abbrev pub rejection : CandidateCheckCode → CheckMessage → ParsedPatch → List HarnessAsset → Verdict
rejection code message parsed assets = record {
  code = code;
  message = message;
  disposition = reject;
  parsed = parsed;
  assets = assets;
}

-- An asset that permits the patch: one that can be patched, or a proposal to a Risk-H asset.
abbrev pub permits : HarnessAsset → Bool
permits a =
    contains AssetOperation.patch a.allowed_operations
    || (same a.risk_tier risk_h && contains AssetOperation.propose a.allowed_operations)

abbrev min : ℕ → ℕ → ℕ
min a b = if ltb b a then b else a

abbrev pub budget_of : MutationPolicy → Option ChangeBudget → ChangeBudget
budget_of policy none = record {
  max_files = policy.max_files;
  max_changed_lines = policy.max_changed_lines;
}
budget_of policy (some b) = record {
  max_files = min policy.max_files b.max_files;
  max_changed_lines = min policy.max_changed_lines b.max_changed_lines;
}

abbrev pub one_asset : String → ParsedPatch → List HarnessAsset → Result Verdict HarnessAsset
one_asset file parsed (a ∷ []) = ok a
one_asset file parsed _ = err (rejection reject_unregistered_path (not_one_asset file) parsed [])

abbrev pub none_protected : ParsedPatch → List String → Result Verdict (Unit {0})
none_protected parsed [] = ok tt
none_protected parsed (file ∷ _) =
    err (rejection reject_protected_path (touches_protected file) parsed [])

abbrev pub parsed_or : Result MutationError ParsedPatch → Result Verdict ParsedPatch
parsed_or (ok parsed) = ok parsed
parsed_or (err e) = err (rejection reject_malformed_patch (malformed e) empty_patch [])

abbrev pub none_unbound :
    ParsedPatch → List HarnessAsset → Option CapabilityError → Result Verdict (Unit {0})
none_unbound parsed assets none = ok tt
none_unbound parsed assets (some e) =
    err (rejection reject_unbound_capability (unbound e) parsed assets)

-- The verdict on a patch that no guard rejected, by the highest tier of its assets.
abbrev pub by_risk : MutationPolicy → ParsedPatch → List HarnessAsset → Bool → Verdict
by_risk policy parsed assets true = record {
  code = hold_risk_h;
  message = risk_h_recordable;
  disposition = hold;
  parsed = parsed;
  assets = assets;
}
by_risk policy parsed assets false = record {
  code = passed;
  message = within_policy;
  disposition = pass;
  parsed = parsed;
  assets = assets;
}

abbrev pub is_held : MutationPolicy → Option RiskTier → Bool
is_held policy none = false
is_held policy (some r) = contains r policy.hold_risks

-- An early return of `check` is an error value that holds its verdict.
abbrev pub returned : Result Verdict Verdict → Verdict
returned (ok v) = v
returned (err v) = v
