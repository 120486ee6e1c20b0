-- ===== src/Mutation/Models.antt =====
-- The assets, the mutation policy and the check results of agentloopgate/mutation/models.py.
use agent_loop_gate.Base.{
  string_eq, ℕ, suc, String, Bool, true, false, not, ◌&&◌, ◌||◌, List, [], ◌∷◌, ◌++◌, map, Result,
  ok, raise_if, ◌>>◌, Eq, eq_of_discrete, contains, is_unique, any, all, length, ◌==◌,
}
use agent_loop_gate.Schemas.{
  AssetFamily, RiskTier, risk_l, risk_m, risk_h, risk_tier_eq, ArtifactId, Digest, NonEmpty,
}

pub data AssetOperation : Type 0 where
  propose patch evaluate rollback : AssetOperation

abbrev pub AssetOperation-discrete : Discrete AssetOperation
AssetOperation-discrete = hlevel

instance abbrev pub asset_operation_eq : Eq AssetOperation
asset_operation_eq = eq_of_discrete AssetOperation-discrete

pub data ModelVersion : Type 0 where
  model_1_0 model_1_1 : ModelVersion

abbrev pub ModelVersion-discrete : Discrete ModelVersion
ModelVersion-discrete = hlevel

instance abbrev pub model_version_eq : Eq ModelVersion
model_version_eq = eq_of_discrete ModelVersion-discrete

-- `runtime_capability_routing_v1` is the only semantic validator.
pub record HarnessAsset : Type 0 where
  pub asset_id : ArtifactId
  pub family : AssetFamily
  pub path_patterns : List NonEmpty
  pub risk_tier : RiskTier
  pub allowed_operations : List AssetOperation
  pub rollback_unit : ArtifactId
  pub routes_capabilities : Bool

pub record HarnessAssetManifest : Type 0 where
  pub schema_version : ModelVersion
  pub assets : List HarnessAsset

pub record MutationPolicy : Type 0 where
  pub schema_version : ModelVersion
  pub max_files : ℕ
  pub max_changed_lines : ℕ
  pub auto_executable_risks : List RiskTier
  pub hold_risks : List RiskTier
  pub protected_paths : List NonEmpty
  pub trust_kernel_paths : List NonEmpty
  pub forbidden_content_patterns : List NonEmpty
  -- Each is `True` or absent.
  pub reject_unbound_static_capabilities : Bool
  pub semantic_deduplication : Bool

pub record TrustKernelSnapshot : Type 0 where
  pub files : List (NonEmpty × Digest)
  pub trust_kernel_digest : Digest

pub data CheckDisposition : Type 0 where
  pass hold reject : CheckDisposition

pub data CandidateCheckCode : Type 0 where
  passed hold_risk_h reject_malformed_patch reject_protected_path reject_unregistered_path :
      CandidateCheckCode
  reject_operation reject_leakage reject_change_budget reject_trust_kernel_drift :
      CandidateCheckCode
  reject_unbound_capability : CandidateCheckCode

abbrev pub all_tiers : List RiskTier
all_tiers = risk_l ∷ risk_m ∷ risk_h ∷ []

abbrev is_first_version : ModelVersion → Bool
is_first_version model_1_0 = true
is_first_version model_1_1 = false

abbrev routing_assets : List HarnessAsset → ℕ
routing_assets [] = 0
routing_assets (a ∷ rest) = elim a.routes_capabilities [
  | true ↦ suc (routing_assets rest)
  | false ↦ routing_assets rest
]

abbrev patterns_of : List HarnessAsset → List NonEmpty
patterns_of [] = []
patterns_of (a ∷ rest) = a.path_patterns ++ patterns_of rest

-- `asset_ids_are_unique`
unfoldable pub check_manifest : HarnessAssetManifest → Result String (Unit {0})
check_manifest m = do
  raise_if (length m.assets == 0) "assets"
  raise_if (not (is_unique (map (λ (a : HarnessAsset). a.asset_id) m.assets)))
      "asset ids must be unique"
  raise_if (not (is_unique (patterns_of m.assets))) "asset path patterns must be unique"
  raise_if (not (is_first_version m.schema_version) && not (routing_assets m.assets == 1))
      "manifest 1.1 requires exactly one runtime capability routing asset"
  raise_if (is_first_version m.schema_version && not (routing_assets m.assets == 0))
      "manifest 1.0 cannot contain semantic validators"
  ok tt

module _ (escapes : NonEmpty → Bool) where
  -- `patterns_are_safe_and_operations_unique`; `escapes` is the test on a pattern's text.
  unfoldable pub check_asset : HarnessAsset → Result String (Unit {0})
  check_asset a = do
    raise_if (length a.path_patterns == 0 || length a.allowed_operations == 0)
        "path_patterns and allowed_operations"
    raise_if (any escapes a.path_patterns) "asset path patterns must be safe project-relative paths"
    raise_if (not (is_unique a.allowed_operations)) "asset allowed_operations must be unique"
    ok tt

  -- `risk_and_paths_are_safe`
  unfoldable pub check_policy : MutationPolicy → Result String (Unit {0})
  check_policy p = do
    raise_if (p.max_files == 0 || p.max_changed_lines == 0) "max_files and max_changed_lines"
    raise_if (any (λ r. contains r p.hold_risks) p.auto_executable_risks)
        "risk tiers cannot be both auto-executable and held"
    raise_if
        (not (all (λ r. contains r p.auto_executable_risks || contains r p.hold_risks) all_tiers))
        "mutation policy must account for every risk tier"
    raise_if (any escapes (p.protected_paths ++ p.trust_kernel_paths))
        "policy paths must be safe project-relative patterns"
    raise_if
        (not (is_first_version p.schema_version)
          && not (p.reject_unbound_static_capabilities && p.semantic_deduplication))
        "mutation policy 1.1 requires semantic candidate controls"
    raise_if
        (is_first_version p.schema_version
          && (p.reject_unbound_static_capabilities || p.semantic_deduplication))
        "mutation policy 1.0 cannot contain semantic controls"
    ok tt
