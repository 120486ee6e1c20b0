-- ===== src/Ledger/Calls/Steps.antt =====
-- One event of the ledger of model calls, on each branch.
use agent_loop_gate.Base.{
  true, false, not, Option, none, some, ◌∷◌, ok, contains, lookup, insert, keys, string_eq, ◌≡◌,
  refl, ◌⊎◌, inl, inr, raise_if-eq-ok, ok-injective, arith, Bool-cases,
}
use agent_loop_gate.Runtime.Usage.{ModelCallUsageEvent}
use agent_loop_gate.Ledger.Calls.{
  Lifecycle, is_started, same_identity, open_call, close_call, follow_call,
}

abbrev pub IsOpening : Lifecycle → ModelCallUsageEvent → Lifecycle → Type 0
IsOpening st e next =
    (is_started e ≡ true)
    × (contains e.fields.call_id (keys st.opened) ≡ false)
    × (record st { opened = insert e.fields.call_id e st.opened } ≡ next)

abbrev pub IsClosing : Lifecycle → ModelCallUsageEvent → Lifecycle → Type 0
IsClosing st e next =
    (is_started e ≡ false)
    × (contains e.fields.call_id st.closed ≡ false)
    × (record st { closed = e.fields.call_id ∷ st.closed } ≡ next)
    × ((initial : ModelCallUsageEvent) × (lookup e.fields.call_id st.opened ≡ some initial)
        × (same_identity initial e ≡ true))

open_call-IsOpening :
    (st : Lifecycle) (e : ModelCallUsageEvent) (next : Lifecycle)
    → is_started e ≡ true
    → open_call st e ≡ ok next
    → IsOpening st e next
unfolding open_call
open_call-IsOpening st e next p h =
    let (fresh, rest) = raise_if-eq-ok (contains e.fields.call_id (keys st.opened)) _ _ h in
    (p, fresh, ok-injective rest)

close_call-IsClosing :
    (st : Lifecycle) (e : ModelCallUsageEvent) (next : Lifecycle) (o : Option ModelCallUsageEvent)
    → is_started e ≡ false
    → lookup e.fields.call_id st.opened ≡ o
    → close_call st e o ≡ ok next
    → IsClosing st e next
unfolding close_call
close_call-IsClosing st e next none p found h = cc
close_call-IsClosing st e next (some initial) p found h =
    let (fresh, rest) = raise_if-eq-ok (contains e.fields.call_id st.closed) _ _ h in
    let (agree, last) = raise_if-eq-ok (not (same_identity initial e)) _ _ rest in
    (p, fresh, ok-injective last, (initial, found, ground (arith, agree)))

pub follow_call-cases :
    (st : Lifecycle) (e : ModelCallUsageEvent) (next : Lifecycle)
    → follow_call st e ≡ ok next
    → IsOpening st e next ⊎ IsClosing st e next
unfolding follow_call
follow_call-cases st e next h = elim (Bool-cases (is_started e)) [
  | inl p ↦ inl (open_call-IsOpening st e next p (rw p at h))
  | inr p ↦ inr (close_call-IsClosing st e next _ p refl (rw p at h))
]
