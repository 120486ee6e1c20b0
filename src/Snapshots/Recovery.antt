-- ===== src/Snapshots/Recovery.antt =====
-- A crash in an activation, and the recovery after it.
use agent_loop_gate.Base.{
  Occurs, String, Bool, none, List, [], ◌∷◌, ◌++◌, string_eq, nat_eq, option_eq, ◌≡◌, ◌⊎◌,
}
use agent_loop_gate.Schemas.{Digest}
use agent_loop_gate.Snapshots.Models.{
  SnapshotManifest, SnapshotActivation, Store, Files, activation_action_eq,
}
use agent_loop_gate.Snapshots.Manager.{activate_locked}
use agent_loop_gate.Snapshots.Stages.{IsLive}

module _ (is_safe_id : String → Bool) (file_digest : String → Digest)
    (parents : String → List String) (torn : String → Files → Files) where
  -- The project where _activate_locked is cut off: before its first write, or after one of its
  -- writes.
  abbrev pub Crashed :
      Store → SnapshotManifest → SnapshotManifest → SnapshotActivation → Store → Type 0
  Crashed st target previous a x =
      (x ≡ st)
      ⊎ Occurs x (activate_locked is_safe_id file_digest parents torn st target previous a).trace

  -- A recovered store is as before the activation or as after it.
  abbrev pub IsAtomic :
      Store → SnapshotManifest → SnapshotManifest → SnapshotActivation → Store → Type 0
  IsAtomic st target previous a after =
      (after.journal ≡ none)
      × (after.snapshots ≡ st.snapshots)
      × (((after.activations ≡ st.activations)
            × IsLive is_safe_id file_digest parents torn previous after)
          ⊎ ((after.activations ≡ st.activations ++ (a ∷ []))
              × IsLive is_safe_id file_digest parents torn target after))
