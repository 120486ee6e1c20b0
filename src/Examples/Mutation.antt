-- ===== src/Examples/Mutation.antt =====
-- The candidate checker at concrete inputs.
use agent_loop_gate.Base.{
  if◌then◌else◌, string_eq, String, true, false, Option, none, some, List, [], ◌∷◌, All, ok,
  value_of, str_eq, ◌≡◌, ◌≢◌, ◌↔◌, refl,
}
use agent_loop_gate.Base.Sorting.{sorted}
use agent_loop_gate.Schemas.{risk_l, risk_m, risk_h, AssetFamily}
use agent_loop_gate.Mutation.Models.{
  HarnessAsset, HarnessAssetManifest, MutationPolicy, TrustKernelSnapshot, AssetOperation,
  model_1_0, pass, check_policy,
}
use agent_loop_gate.Mutation.Patch.{PatchTexts, ParsedPatch, parse_patch}
use agent_loop_gate.Mutation.Patch.Files.{IsSafe, parse_patch-IsSafe}
use agent_loop_gate.Mutation.Checker.Verdicts.{CheckerHost, Staging}
use agent_loop_gate.Mutation.Checker.Check.{check}
use agent_loop_gate.Mutation.Checker.Admission.{IsAdmissible, check-pass_iff}
use agent_loop_gate.Mutation.Checker.Executable.{check-auto_executable}

abbrev header : String → Option (String × String)
header line =
    if str_eq line "diff --git a/prompt.md b/prompt.md"
    then some ("prompt.md", "prompt.md")
    else none

abbrev texts : PatchTexts
texts = record {
  is_absolute = λ s. false;
  parts = λ s. s ∷ [];
  normal_text = λ s. s;
  diff_header = header;
}

abbrev host : CheckerHost
host = record {
  texts = texts;
  path_matches = λ path pattern. str_eq path pattern;
  file_digest = λ path. some "d";
  files_digest = λ files. "k";
  finds = λ pattern text. str_eq pattern text;
  stage = λ files. Staging.check_failed;
  is_static_target = λ line. false;
  normalized = λ s. s;
  behavior_lines = λ s. s ∷ [];
  behavior_digest = λ fs ls. "b";
}

abbrev asset : HarnessAsset
asset = record {
  asset_id = "prompt";
  family = AssetFamily.prompt_instruction;
  path_patterns = "prompt.md" ∷ [];
  risk_tier = risk_m;
  allowed_operations = AssetOperation.patch ∷ [];
  rollback_unit = "prompt";
  routes_capabilities = false;
}

abbrev manifest : HarnessAssetManifest
manifest = record { schema_version = model_1_0; assets = asset ∷ [] }

abbrev policy : MutationPolicy
policy = record {
  schema_version = model_1_0;
  max_files = 4;
  max_changed_lines = 100;
  auto_executable_risks = risk_l ∷ risk_m ∷ [];
  hold_risks = risk_h ∷ [];
  protected_paths = "gates.py" ∷ [];
  trust_kernel_paths = "gates.py" ∷ [];
  forbidden_content_patterns = "secret" ∷ [];
  reject_unbound_static_capabilities = false;
  semantic_deduplication = false;
}

abbrev kernel : TrustKernelSnapshot
kernel = record { files = ("gates.py", "d") ∷ []; trust_kernel_digest = "k" }

abbrev lines : Option (List String)
lines = some (
    "diff --git a/prompt.md b/prompt.md" ∷ "--- a/prompt.md" ∷ "+++ b/prompt.md" ∷ "-old" ∷ "+new"
    ∷ "+more" ∷ [])

unfoldable parsed : ParsedPatch
unfolding parse_patch
parsed = value_of (parse_patch texts lines) tt

lines-parse : parse_patch texts lines ≡ ok parsed
unfolding parse_patch parsed
lines-parse = refl

two_additions : parsed.additions ≡ 2
unfolding parsed parse_patch
two_additions = refl

parse_patch-IsSafe_example : (parsed.changed_files ≢ []) × All (IsSafe texts) parsed.changed_files
parse_patch-IsSafe_example = parse_patch-IsSafe texts lines lines-parse

patch-passes : (check host manifest policy kernel "p" lines none).disposition ≡ pass
unfolding check sorted
patch-passes = refl

policy-checks : check_policy (λ s. false) policy ≡ ok tt
unfolding check_policy
policy-checks = refl

check-pass_iff_example : ((check host manifest policy kernel "p" lines none).disposition ≡ pass) ↔ (
    (q : ParsedPatch) × (assets : List HarnessAsset) × IsAdmissible host manifest policy kernel
      lines none q assets)
check-pass_iff_example = check-pass_iff host manifest policy kernel "p" lines none

check-auto_executable_example :
    (check host manifest policy kernel "p" lines none).auto_executable ≡ true
check-auto_executable_example =
    check-auto_executable host manifest policy kernel (λ s. false) "p" lines none policy-checks
      patch-passes
