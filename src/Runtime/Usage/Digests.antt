-- ===== src/Runtime/Usage/Digests.antt =====
-- New usage events and the check of a stored one.
use agent_loop_gate.Base.{
  ℕ, ◌⊎◌, not, ◌&&◌, Option, none, some, ok, same, is_none, ◌≡◌, refl, ap, >>=-eq-ok, eq_iff,
  ok-injective, Bool-cases, inl, inr,
}
use mathlib.Core.Path.{subst}
use agent_loop_gate.Schemas.{Digest, UtcDateTime}
use agent_loop_gate.Runtime.Usage.{
  usage_version_eq, CallArguments, CallFields, DigestPayload, ModelCallUsageEvent, usage_1_0,
  usage_1_2, draft_payload, prepare, stored_payload, draft_fields, sealed_event, has_task_identity,
  check_call, make_model_call_event, verify_model_call_event,
}

Retries-cases :
    (r : Option (Option ℕ)) → (r ≡ none) ⊎ ((r ≡ some none) ⊎ ((n : ℕ) × (r ≡ some (some n))))
Retries-cases none = inl refl
Retries-cases (some none) = inr (inl refl)
Retries-cases (some (some n)) = inr (inr (n, refl))

-- The draft drops the retry count's key exactly where the check of a stored event drops it.
same_keys :
    (a : CallArguments) (now : UtcDateTime)
    → (same (draft_fields (prepare a) now).schema_version usage_1_0
        && is_none (prepare a).provider_retry_count)
      ≡ (same (draft_fields (prepare a) now).schema_version usage_1_0
          && is_none (draft_fields (prepare a) now).provider_retry_count)
unfolding draft_fields prepare
same_keys a now = elim (Bool-cases (has_task_identity a.fields)) [
  | inl p ↦ rw p
  | inr p ↦ elim (Retries-cases a.provider_retry_count) [
    | inl e ↦ rw (p, e)
    | inr rest ↦ elim rest [ inl e ↦ rw (p, e) | inr more ↦ rw (p, more.1) ]
  ]
]

prepared_payload :
    (a : CallArguments) (now : UtcDateTime)
    → draft_payload (draft_fields (prepare a) now) (prepare a).provider_retry_count
      ≡ stored_payload (draft_fields (prepare a) now)
unfolding draft_payload stored_payload
prepared_payload a now =
    ap
      (λ b. record {
        fields = draft_fields (prepare a) now;
        has_retry_count = not b;
        has_identity = same (draft_fields (prepare a) now).schema_version usage_1_2;
      })
      (same_keys a now)

verify-sealed_event :
    (canonical_digest : DigestPayload → Digest) (f : CallFields) (given : Option (Option ℕ))
    → draft_payload f given ≡ stored_payload f
    → verify_model_call_event canonical_digest (sealed_event canonical_digest f given) ≡ ok tt
unfolding verify_model_call_event sealed_event
verify-sealed_event canonical_digest f given h = rw (
    (eq_iff (canonical_digest (stored_payload f)) (canonical_digest (draft_payload f given))).1
      (rw h))

-- An event that make_model_call_event returns passes verify_model_call_event, whatever the
-- canonical digest computes.
pub verify-make_model_call_event :
    (canonical_digest : DigestPayload → Digest) (a : CallArguments) (now : UtcDateTime)
    (e : ModelCallUsageEvent)
    → make_model_call_event canonical_digest a now ≡ ok e
    → (check_call e.fields ≡ ok tt) × (verify_model_call_event canonical_digest e ≡ ok tt)
unfolding make_model_call_event
verify-make_model_call_event canonical_digest a now e h =
    let (passed, valid, rest) = >>=-eq-ok (check_call (draft_fields (prepare a) now)) _ h in
    subst
      (λ (x : ModelCallUsageEvent).
        (check_call x.fields ≡ ok tt) × (verify_model_call_event canonical_digest x ≡ ok tt))
      (ok-injective rest)
      (
        valid,
        verify-sealed_event canonical_digest (draft_fields (prepare a) now)
            (prepare a).provider_retry_count (prepared_payload a now),
      )
