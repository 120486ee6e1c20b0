-- ===== src/Splits/Access.antt =====
-- Role-based access to the task pools: `SplitAccessPolicy` of agentloopgate/splits/service.py and
-- the roles of agentloopgate/splits/models.py.
use agent_loop_gate.Base.{
  Bool, true, ◌&&◌, ◌||◌, Result, ok, err, ◌≡◌, ◌↔◌, ◌⊎◌, refl, arith, same, Eq, eq_of_discrete,
  contains, [], ◌∷◌, if◌then◌else◌,
}
use agent_loop_gate.Schemas.{
  Pool, pilot, update_source, update_check, selection, release_id, release_ood, pool_eq,
}

pub data ActorRole : Type 0 where
  owner updater update_evaluator selector release_evaluator reporter : ActorRole

pub data AccessKind : Type 0 where
  tasks trace aggregate : AccessKind

abbrev AccessKind-discrete : Discrete AccessKind
AccessKind-discrete = hlevel

instance abbrev access_kind_eq : Eq AccessKind
access_kind_eq = eq_of_discrete AccessKind-discrete

-- `SplitAccessPolicy.is_allowed`
unfoldable pub is_allowed : ActorRole → Pool → AccessKind → Bool
is_allowed owner pool access = true
is_allowed updater pool access =
    contains pool (pilot ∷ update_source ∷ []) || (same pool update_check && same access aggregate)
is_allowed update_evaluator pool access = contains pool (pilot ∷ update_source ∷ update_check ∷ [])
is_allowed selector pool access =
    same access aggregate && contains pool (update_check ∷ selection ∷ [])
is_allowed release_evaluator pool access = contains pool (selection ∷ release_id ∷ release_ood ∷ [])
is_allowed reporter pool access = same access aggregate

pub data AccessError : Type 0 where
  access_denied : ActorRole → Pool → AccessKind → AccessError

-- `SplitAccessPolicy.require`
unfoldable pub require : ActorRole → Pool → AccessKind → Result AccessError (Unit {0})
unfolding is_allowed
require role pool access =
    if is_allowed role pool access then ok tt else err (access_denied role pool access)

-- A release pool opens to its owner, to the release evaluator, and to the reporter for the
-- aggregate only.
pub release_access_iff :
    (role : ActorRole) (pool : Pool) (access : AccessKind)
    → (pool ≡ release_id) ⊎ (pool ≡ release_ood)
    → (require role pool access ≡ ok tt)
      ↔ ((role ≡ owner) ⊎ ((role ≡ release_evaluator) ⊎ ((role ≡ reporter) × (access ≡ aggregate))))
unfolding require
release_access_iff role pilot access e = absurd (ground arith)
release_access_iff role update_source access e = absurd (ground arith)
release_access_iff role update_check access e = absurd (ground arith)
release_access_iff role selection access e = absurd (ground arith)
release_access_iff owner _ access e = (λ h. ground arith, λ h. ground arith)
release_access_iff _ _ access e = (λ h. ground arith, λ h. ground arith)

-- Who may read a pool's tasks or traces may read its aggregate.
pub aggregate_is_least :
    (role : ActorRole) (pool : Pool) (access : AccessKind)
    → require role pool access ≡ ok tt
    → require role pool aggregate ≡ ok tt
unfolding require
aggregate_is_least owner pool access h = refl
aggregate_is_least _ pool access h = ground arith
