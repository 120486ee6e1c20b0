-- ===== src/Mutation/Patch/Files.antt =====
-- The files of a parsed patch of agentloopgate/mutation/service.py.
use text.Mathlib.Text.{starts_with}
use mathlib.Core.Path.{subst}
use agent_loop_gate.Base.{
  string_eq, String, Bool, true, false, not, ◌&&◌, ◌||◌, Option, none, some, List, [], ◌∷◌, ok,
  >>=-eq-ok, raise_if-eq-ok, ok-injective, is_unique, length, if◌then◌else◌, str_eq, ◌==◌, All,
  All-append, All-Occurs, Occurs, ◌≡◌, ◌≢◌, ◌⊎◌, refl, ap, inl, inr,
}
use agent_loop_gate.Base.Sorting.{str_lt, Occurs-sorted}
use agent_loop_gate.Mutation.Patch.{
  renamed_file, no_file_headers, duplicate_sections, PatchTexts, ParsedPatch, ParseState,
  first_state, validate_relative_path, parse_header, other_line, parse_line, parse_lines,
  parse_patch,
}

if-cases : {A : Type 0} (b : Bool) {x y z : A} → (if b then x else y) ≡ z → (x ≡ z) ⊎ (y ≡ z)
if-cases true h = inl h
if-cases false h = inr h

All-sorted :
    (P : String → Type 0) (xs ys : List String)
    → ((a : String) → Occurs a ys → Occurs a xs)
    → All P xs
    → All P ys
All-sorted P xs [] f h = tt
All-sorted P xs (y ∷ ys) f h =
    (All-Occurs P y xs h (f y (inl refl)), All-sorted P xs ys (λ a o. f a (inr o)) h)

nonempty :
    (xs ys : List String)
    → ((a : String) → Occurs a xs → Occurs a ys)
    → (length xs == 0) ≡ false
    → ys ≢ []
nonempty [] ys f h k = cc h
nonempty (x ∷ xs) [] f h k = elim (f x (inl refl)) [ ]
nonempty (x ∷ xs) (y ∷ ys) f h k = cc k

module _ (texts : PatchTexts) where
  abbrev pub IsSafe : String → Type 0
  IsSafe file = validate_relative_path texts file ≡ ok tt

  other_line-keeps :
      (s : ParseState) (line : String) {s' : ParseState}
      → other_line texts s line ≡ ok s'
      → s.changed_files ≡ s'.changed_files
  other_line-keeps s line h =
      elim (if-cases (starts_with line "Binary files " || str_eq line "GIT binary patch") h) [
        | inl e ↦ cc e
        | inr h1 ↦ elim (if-cases (starts_with line "+" && not (starts_with line "+++")) h1) [
          | inl e ↦ ap (λ (s : ParseState). s.changed_files) (ok-injective e)
          | inr h2 ↦ elim (if-cases (starts_with line "-" && not (starts_with line "---")) h2) [
            | inl e ↦ ap (λ (s : ParseState). s.changed_files) (ok-injective e)
            | inr e ↦ ap (λ (s : ParseState). s.changed_files) (ok-injective e)
          ]
        ]
      ]

  parse_header-IsSafe :
      (s : ParseState) (line : String) (o : Option (String × String)) {s' : ParseState}
      → parse_header texts s line o ≡ ok s'
      → All IsSafe s.changed_files
      → All IsSafe s'.changed_files
  parse_header-IsSafe s line none h k = subst (λ fs. All IsSafe fs) (other_line-keeps s line h) k
  parse_header-IsSafe s line (some (old_path, new_path)) h k =
      let (e, h1) = raise_if-eq-ok (not (str_eq old_path new_path)) renamed_file _ h in
      let (u, e2, h2) = >>=-eq-ok (validate_relative_path texts new_path) _ h1 in
      subst (λ (s : ParseState). All IsSafe s.changed_files) (ok-injective h2)
        (All-append IsSafe s.changed_files (new_path ∷ []) k (e2, tt))

  parse_lines-IsSafe :
      (s : ParseState) (lines : List String) {s' : ParseState}
      → parse_lines texts s lines ≡ ok s'
      → All IsSafe s.changed_files
      → All IsSafe s'.changed_files
  unfolding parse_lines parse_line
  parse_lines-IsSafe s [] h k =
      subst (λ (s : ParseState). All IsSafe s.changed_files) (ok-injective h) k
  parse_lines-IsSafe s (line ∷ lines) h k =
      let (next, e, h1) = >>=-eq-ok (parse_line texts s line) _ h in
      parse_lines-IsSafe next lines h1 (parse_header-IsSafe s line (texts.diff_header line) e k)

  -- A parsed patch changes at least one file, and every file that it changes has a path that
  -- the validation of relative paths accepts.
  pub parse_patch-IsSafe :
      (lines : Option (List String)) {p : ParsedPatch}
      → parse_patch texts lines ≡ ok p
      → (p.changed_files ≢ []) × All IsSafe p.changed_files
  unfolding parse_patch
  parse_patch-IsSafe none h = cc
  parse_patch-IsSafe (some lines) h =
      let (s, e, h1) = >>=-eq-ok (parse_lines texts first_state lines) _ h in
      let (some_file, h2) = raise_if-eq-ok (length s.changed_files == 0) no_file_headers _ h1 in
      let (unique, h3) = raise_if-eq-ok (not (is_unique s.changed_files)) duplicate_sections _ h2 in
      subst (λ (p : ParsedPatch). (p.changed_files ≢ []) × All IsSafe p.changed_files)
        (ok-injective h3)
        (
          nonempty s.changed_files _ (λ a. (Occurs-sorted str_lt a s.changed_files).1) some_file,
          All-sorted IsSafe s.changed_files _ (λ a. (Occurs-sorted str_lt a s.changed_files).0)
              (parse_lines-IsSafe first_state lines e tt),
        )
