-- ===== src/Candidates/Registry/Stages.antt =====
-- The stages of agentloopgate/candidates/registry.py that a shipped candidate has passed.
use agent_loop_gate.Base.{
  ℕ, ◌+◌, Bool, true, false, Option, none, some, List, [], ◌∷◌, map, Occurs, Occurs-contains, ◌≡◌,
  ◌⊎◌, inl, inr, refl, sym, ap, ◌∙◌,
}
use agent_loop_gate.Schemas.{
  CandidateStatus, draft, registered, checked, update_evaluated, selection_evaluated,
  release_evaluated, ship_recommended, held, rejected, shipped, rolled_back, candidate_status_eq,
}
use agent_loop_gate.Candidates.Registry.Events.{CandidateLifecycleEvent, transitions}
use agent_loop_gate.Candidates.Registry.History.{IsHistory, after}

-- The statuses still to come on the way to shipping.
abbrev pub route : CandidateStatus → List CandidateStatus
route draft =
    registered ∷ checked ∷ update_evaluated ∷ selection_evaluated ∷ release_evaluated
    ∷ ship_recommended ∷ shipped ∷ []
route registered =
    checked ∷ update_evaluated ∷ selection_evaluated ∷ release_evaluated ∷ ship_recommended
    ∷ shipped ∷ []
route checked =
    update_evaluated ∷ selection_evaluated ∷ release_evaluated ∷ ship_recommended ∷ shipped ∷ []
route update_evaluated = selection_evaluated ∷ release_evaluated ∷ ship_recommended ∷ shipped ∷ []
route selection_evaluated = release_evaluated ∷ ship_recommended ∷ shipped ∷ []
route release_evaluated = ship_recommended ∷ shipped ∷ []
route ship_recommended = shipped ∷ []
route _ = []

abbrev is_dead : CandidateStatus → Bool
is_dead held = true
is_dead rejected = true
is_dead rolled_back = true
is_dead _ = false

unfoldable Ahead : CandidateStatus → CandidateStatus → Type 0
Ahead p s = (route p ≡ s ∷ route s) ⊎ (is_dead s ≡ true)

three :
    (q p s : CandidateStatus)
    → (s ≡ q) ⊎ ((s ≡ held) ⊎ ((s ≡ rejected) ⊎ ⊥))
    → Ahead p q
    → Ahead p s
unfolding Ahead
three q p s (inl e) h = rw e h
three q p s (inr (inl e)) h = rw e (inr refl)
three q p s (inr (inr (inl e))) h = rw e (inr refl)
three q p s (inr (inr (inr o))) h = elim o [ ]

abbrev dead_of : Option CandidateStatus → Bool
dead_of none = false
dead_of (some s) = is_dead s

abbrev route_of : Option CandidateStatus → List CandidateStatus
route_of none = []
route_of (some s) = route s

transitions-Ahead : (p s : CandidateStatus) → Occurs s (transitions p) → Ahead p s
unfolding Ahead
transitions-Ahead draft s (inl e) = rw e (inl refl)
transitions-Ahead draft s (inr (inl e)) = rw e (inr refl)
transitions-Ahead draft s (inr (inr o)) = elim o [ ]
transitions-Ahead registered s h = three checked registered s h (inl refl)
transitions-Ahead checked s h = three update_evaluated checked s h (inl refl)
transitions-Ahead update_evaluated s h = three selection_evaluated update_evaluated s h (inl refl)
transitions-Ahead selection_evaluated s h =
    three release_evaluated selection_evaluated s h (inl refl)
transitions-Ahead release_evaluated s h = three ship_recommended release_evaluated s h (inl refl)
transitions-Ahead ship_recommended s (inl e) = rw e (inl refl)
transitions-Ahead ship_recommended s (inr (inl e)) = rw e (inr refl)
transitions-Ahead ship_recommended s (inr (inr o)) = elim o [ ]
transitions-Ahead shipped s (inl e) = rw e (inr refl)
transitions-Ahead shipped s (inr o) = elim o [ ]
transitions-Ahead held s h = elim h [ ]
transitions-Ahead rejected s h = elim h [ ]
transitions-Ahead rolled_back s h = elim h [ ]

dead_end : (p s : CandidateStatus) → is_dead p ≡ true → Occurs s (transitions p) → ⊥
dead_end held s h o = o
dead_end rejected s h o = o
dead_end rolled_back s h o = o
dead_end draft s h o = cc h
dead_end registered s h o = cc h
dead_end checked s h o = cc h
dead_end update_evaluated s h o = cc h
dead_end selection_evaluated s h o = cc h
dead_end release_evaluated s h o = cc h
dead_end ship_recommended s h o = cc h
dead_end shipped s h o = cc h

-- A dead status does not lead to shipping.
dead-history :
    (p : CandidateStatus) (n : ℕ) (es : List CandidateLifecycleEvent)
    → is_dead p ≡ true
    → IsHistory (some p) n es
    → after (some p) es ≡ some shipped
    → ⊥
dead-history p n [] h k e = cc (h, ap (λ (o : Option CandidateStatus). dead_of o) e)
dead-history p n (d ∷ es) h k e =
    dead_end p d.next_status h (Occurs-contains d.next_status (transitions p) k.3)

history-route :
    (p : CandidateStatus) (n : ℕ) (es : List CandidateLifecycleEvent)
    → IsHistory (some p) n es
    → after (some p) es ≡ some shipped
    → map (λ (e : CandidateLifecycleEvent). e.next_status) es ≡ route p
unfolding Ahead
history-route p n [] h e = sym (ap (λ (o : Option CandidateStatus). route_of o) e)
history-route p n (d ∷ es) h e =
    elim (transitions-Ahead p d.next_status (Occurs-contains d.next_status (transitions p) h.3)) [
      | inl r ↦ ap (λ ss. d.next_status ∷ ss) (history-route d.next_status (n + 1) es h.4 e) ∙ sym r
      | inr x ↦ absurd (dead-history d.next_status (n + 1) es x h.4 e)
    ]

-- In a log that is a history and ends with shipping, the statuses of the events are exactly the
-- check, the three evaluations, the recommendation and the shipping, in this order.
pub shipped-stages :
    (es : List CandidateLifecycleEvent)
    → IsHistory none 0 es
    → after none es ≡ some shipped
    → map (λ (e : CandidateLifecycleEvent). e.next_status) es ≡ checked ∷ route checked
shipped-stages [] h e = cc e
shipped-stages (d ∷ es) h e = elim h.3 [
  | inl c ↦
      ap (λ ss. d.next_status ∷ ss) (history-route d.next_status 1 es h.4 e)
      ∙ ap (λ s. s ∷ route s) c
  | inr c ↦ absurd (dead-history d.next_status 1 es (rw c refl) h.4 e)
]
