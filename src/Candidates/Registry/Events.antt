-- ===== src/Candidates/Registry/Events.antt =====
-- The events of a candidate and its transitions.
use Prim.Native.String.{◌++◌ as str_append}
use agent_loop_gate.Base.{
  string_eq, ℕ, ◌+◌, String, not, Option, none, some, List, [], ◌∷◌, ◌++◌, Result, ok, err,
  raise_if, ◌>>◌, ◌>>=◌, contains, lookup, insert, length,
}
use agent_loop_gate.Schemas.{
  CandidateStatus, draft, registered, checked, update_evaluated, selection_evaluated,
  release_evaluated, ship_recommended, held, rejected, shipped, rolled_back, candidate_status_eq,
  ArtifactId, NonEmpty, UtcDateTime, is_artifact_id,
}
use agent_loop_gate.Schemas.Candidate.{CandidateRecord}
use agent_loop_gate.Mutation.Checker.Verdicts.{CandidateCheckResult}

pub data CandidateError : Type 0 where
  unsafe_id already_exists rejected_by_check unresolved_check stored_patch_mismatch not_registered :
      CandidateError
  semantic_duplicate_of : ArtifactId → CandidateError
  invalid_transition : CandidateStatus → CandidateStatus → CandidateError

pub record CandidateLifecycleEvent : Type 0 where
  pub ordinal : ℕ
  pub previous_status : Option CandidateStatus
  pub next_status : CandidateStatus
  pub actor : NonEmpty
  pub evidence_refs : List NonEmpty
  pub occurred_at : UtcDateTime
  pub record_of : CandidateRecord

-- The directory of a candidate; `check.json` is missing if the stored patch did not match.
pub record Entry : Type 0 where
  pub stored_check : Option CandidateCheckResult
  pub events : List CandidateLifecycleEvent

abbrev pub Registry : Type 0
Registry = List (ArtifactId × Entry)

-- `_TRANSITIONS`
abbrev pub transitions : CandidateStatus → List CandidateStatus
transitions draft = registered ∷ rejected ∷ []
transitions registered = checked ∷ held ∷ rejected ∷ []
transitions checked = update_evaluated ∷ held ∷ rejected ∷ []
transitions update_evaluated = selection_evaluated ∷ held ∷ rejected ∷ []
transitions selection_evaluated = release_evaluated ∷ held ∷ rejected ∷ []
transitions release_evaluated = ship_recommended ∷ held ∷ rejected ∷ []
transitions ship_recommended = shipped ∷ held ∷ []
transitions shipped = rolled_back ∷ []
transitions held = []
transitions rejected = []
transitions rolled_back = []

abbrev pub last_of : List CandidateLifecycleEvent → Option CandidateLifecycleEvent
last_of [] = none
last_of (e ∷ []) = some e
last_of (e ∷ f ∷ es) = last_of (f ∷ es)

abbrev pub last_record : Option CandidateLifecycleEvent → Result CandidateError CandidateRecord
last_record none = err not_registered
last_record (some e) = ok e.record_of

abbrev pub events_at : Option Entry → List CandidateLifecycleEvent
events_at none = []
events_at (some entry) = entry.events

-- `load`
unfoldable pub load : Registry → ArtifactId → Result CandidateError CandidateRecord
load g id = do
  raise_if (not (is_artifact_id id)) unsafe_id
  last_record (last_of (events_at (lookup id g)))

abbrev check_at : Option Entry → Option CandidateCheckResult
check_at none = none
check_at (some entry) = entry.stored_check

-- `_append_event`: the ordinal is one more than the number of events, so its file is new.
unfoldable pub append_event :
    Registry
    → ArtifactId
    → CandidateRecord
    → Option CandidateStatus
    → NonEmpty
    → List NonEmpty
    → UtcDateTime
    → Registry
append_event g id r previous actor refs at =
    let events = events_at (lookup id g) in
    insert id
      (record {
        stored_check = check_at (lookup id g);
        events =
            events
            ++ ((record {
              ordinal = length events + 1;
              previous_status = previous;
              next_status = r.status;
              actor = actor;
              evidence_refs = refs;
              occurred_at = at;
              record_of = r;
            })
                ∷ []);
      })
      g

status_value : CandidateStatus → String
status_value draft = "draft"
status_value registered = "registered"
status_value checked = "checked"
status_value update_evaluated = "update_evaluated"
status_value selection_evaluated = "selection_evaluated"
status_value release_evaluated = "release_evaluated"
status_value ship_recommended = "ship_recommended"
status_value held = "held"
status_value rejected = "rejected"
status_value shipped = "shipped"
status_value rolled_back = "rolled_back"

-- `evidence_refs or [...]`
abbrev refs_or : List NonEmpty → NonEmpty → List NonEmpty
refs_or [] default = default ∷ []
refs_or (r ∷ refs) default = r ∷ refs

default_ref : ArtifactId → CandidateStatus → NonEmpty
unfolding status_value
default_ref id s = str_append "candidate:" (str_append id (str_append ":" (status_value s)))

-- `transition`, which returns the registry and the updated record.
unfoldable pub transition :
    Registry
    → ArtifactId
    → CandidateStatus
    → NonEmpty
    → List NonEmpty
    → UtcDateTime
    → Result CandidateError (Registry × CandidateRecord)
unfolding load append_event default_ref
transition g id next actor refs at = do
  current ← load g id
  raise_if (not (contains next (transitions current.status)))
      (invalid_transition current.status next)
  ok (
    append_event g id (record current { status = next }) (some current.status) actor
        (refs_or refs (default_ref id next)) at,
    record current { status = next },
  )
