-- ===== src/Contracts.antt =====
-- Freezing and verifying the objective contract: agentloopgate/contracts/objective.py. SHA-256
-- over canonical JSON (agentloopgate/contracts/hashing.py) is the parameter `digest_of`.
use agent_loop_gate.Base.{
  true, not, ◌||◌, Option, none, some, List, Result, ok, err, raise_if, ◌>>◌, is_some, str_eq,
  eq_iff, if◌then◌else◌, ◌≡◌, arith,
}
use agent_loop_gate.Schemas.{GateName, Digest, UtcDateTime}
use agent_loop_gate.Schemas.Contract.{
  ObjectiveContract, BenchmarkConfig, ReliabilityConfig, GateThresholds,
}

-- `model_dump(mode="json", exclude={"contract_digest"})`
pub record ContractPayload : Type 0 where
  pub benchmark : BenchmarkConfig
  pub reliability : ReliabilityConfig
  pub gates : GateThresholds
  pub decision_order : List GateName
  pub frozen_at : Option UtcDateTime

abbrev pub contract_digest_payload : ObjectiveContract → ContractPayload
contract_digest_payload c = record {
  benchmark = c.benchmark;
  reliability = c.reliability;
  gates = c.gates;
  decision_order = c.decision_order;
  frozen_at = c.frozen_at;
}

pub data ContractError : Type 0 where
  not_frozen digest_mismatch : ContractError

module _ (digest_of : ContractPayload → Digest) where
  unfoldable pub computed_contract_digest : ObjectiveContract → Digest
  computed_contract_digest c = digest_of (contract_digest_payload c)

  -- The comparison of a frozen contract with the digest that it carries.
  abbrev check_digest :
      ObjectiveContract → Option UtcDateTime → Option Digest → Result ContractError (Unit {0})
  check_digest c none d = err not_frozen
  check_digest c (some t) none = err not_frozen
  check_digest c (some t) (some d) =
      raise_if (not (str_eq (computed_contract_digest c) d)) digest_mismatch

  unfoldable pub verify_contract_digest : ObjectiveContract → Result ContractError (Unit {0})
  verify_contract_digest c = check_digest c c.frozen_at c.contract_digest

  unfoldable pub freeze_contract :
      ObjectiveContract → UtcDateTime → Result ContractError ObjectiveContract
  unfolding computed_contract_digest verify_contract_digest
  freeze_contract c frozen_at =
      if is_some c.frozen_at || is_some c.contract_digest
      then (do verify_contract_digest c; ok c)
      else let pending = record c { frozen_at = some frozen_at; contract_digest = none } in
        ok (record pending { contract_digest = some (computed_contract_digest pending) })

  -- A contract with either freezing field is returned only if it verifies.
  freeze-frozen :
      (c : ObjectiveContract) (t : UtcDateTime) {frozen : ObjectiveContract}
      → (is_some c.frozen_at || is_some c.contract_digest) ≡ true
      → freeze_contract c t ≡ ok frozen
      → (c ≡ frozen) × (verify_contract_digest c ≡ ok tt)
  unfolding freeze_contract
  freeze-frozen c t p h = ground arith

  -- Whatever `freeze_contract` returns verifies, and freezing it again at any time returns it
  -- unchanged.
  pub freeze-verifies :
      (c : ObjectiveContract) (t later : UtcDateTime) {frozen : ObjectiveContract}
      → freeze_contract c t ≡ ok frozen
      → (verify_contract_digest frozen ≡ ok tt) × (freeze_contract frozen later ≡ ok frozen)
  unfolding freeze_contract
  freeze-verifies c t later h =
      let d = computed_contract_digest (record c { frozen_at = some t; contract_digest = none }) in
      ground (arith, eq_iff d d, freeze-frozen c t)
