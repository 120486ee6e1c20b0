-- ===== src/Diagnosis/Texts.antt =====
-- A text that `in` does not find in another is no part of it.
use Prim.Native.String.{◌++◌ as str_append}
use text.Mathlib.Text.{starts_with}
use text.Mathlib.TextPositions.{starts_with-append}
use text.Mathlib.TextLemmas.{nil-append, cons-append}
use mathlib.Core.Path.{subst}
use agent_loop_gate.Base.{String, Bool, true, not, ◌||◌, ◌≡◌, ◌∙◌, refl, ap, arith}
use agent_loop_gate.Diagnosis.Bundles.{is_in_text}

found_here : (b c : Bool) → b ≡ true → (b || c) ≡ true
found_here b c h = ground (arith, h)

found_later : (b c : Bool) → c ≡ true → (b || c) ≡ true
found_later b c h = ground (arith, h)

is_in_text-empty : (s : String) → is_in_text String.[] s ≡ true
unfolding is_in_text
is_in_text-empty String.[] = refl
is_in_text-empty (String.◌∷◌ c s) =
    found_here (starts_with (String.◌∷◌ c s) String.[]) (is_in_text String.[] s) (
      subst (λ (x : String). starts_with x String.[] ≡ true) (nil-append (String.◌∷◌ c s))
        (starts_with-append String.[] (String.◌∷◌ c s)))

is_in_text-start : (t post : String) → is_in_text t (str_append t post) ≡ true
unfolding is_in_text
is_in_text-start String.[] post = is_in_text-empty (str_append String.[] post)
is_in_text-start (String.◌∷◌ c t) post =
    ap (is_in_text (String.◌∷◌ c t)) (cons-append c t post)
    ∙ found_here (starts_with (String.◌∷◌ c (str_append t post)) (String.◌∷◌ c t))
        (is_in_text (String.◌∷◌ c t) (str_append t post))
        (subst (λ (x : String). starts_with x (String.◌∷◌ c t) ≡ true) (cons-append c t post)
          (starts_with-append (String.◌∷◌ c t) post))

is_in_text-part : (t pre post : String) → is_in_text t (str_append pre (str_append t post)) ≡ true
unfolding is_in_text
is_in_text-part t String.[] post =
    ap (is_in_text t) (nil-append (str_append t post)) ∙ is_in_text-start t post
is_in_text-part t (String.◌∷◌ c pre) post =
    ap (is_in_text t) (cons-append c pre (str_append t post))
    ∙ found_later (starts_with (String.◌∷◌ c (str_append pre (str_append t post))) t)
        (is_in_text t (str_append pre (str_append t post))) (is_in_text-part t pre post)

-- The one text stands nowhere in the other.
abbrev pub IsAbsent : String → String → Type 0
IsAbsent t s = (pre post : String) → ¬ (s ≡ str_append pre (str_append t post))

absent_of : {A : Type 0} (b : Bool) → b ≡ true → not b ≡ true → A
absent_of b h k = cc (k, ap not h)

pub is_in_text-IsAbsent : (t s : String) → not (is_in_text t s) ≡ true → IsAbsent t s
is_in_text-IsAbsent t s h pre post e =
    absent_of (is_in_text t s) (ap (is_in_text t) e ∙ is_in_text-part t pre post) h
