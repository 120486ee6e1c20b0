-- ===== src/Mutation/Patch.antt =====
-- The parser of unified diffs of agentloopgate/mutation/service.py.
use Prim.Native.String
use Prim.Native.String.{◌++◌ as str_append}
use agent_loop_gate.Base.{
  string_eq, ℕ, suc, ◌+◌, String, Bool, true, false, not, ◌&&◌, ◌||◌, Option, none, some, List, [],
  ◌∷◌, ◌++◌, Result, ok, err, raise_if, ◌>>◌, ◌>>=◌, same, contains, insert, lookup, is_unique, all,
  any, length, if◌then◌else◌, ◌==◌, str_eq,
}
use agent_loop_gate.Base.Sorting.{sorted, str_lt}
use text.Mathlib.Text.{starts_with}
pub mod Files

pub data MutationError : Type 0 where
  unreadable_patch renamed_file binary_patch no_file_headers duplicate_sections : MutationError
  unsafe_path : String → MutationError

-- What the parser takes from `pathlib` and `re`: whether a relative path is absolute, its
-- parts and its normal text, and the two paths of a line `diff --git a/… b/…`.
pub record PatchTexts : Type 0 where
  pub is_absolute : String → Bool
  pub parts : String → List String
  pub normal_text : String → String
  pub diff_header : String → Option (String × String)

pub record ParsedPatch : Type 0 where
  pub changed_files : List String
  pub additions : ℕ
  pub deletions : ℕ
  pub added_text : String
  pub added_by_file : List (String × List String)
  pub deleted_by_file : List (String × List String)

abbrev pub empty_patch : ParsedPatch
empty_patch = record {
  changed_files = [];
  additions = 0;
  deletions = 0;
  added_text = "";
  added_by_file = [];
  deleted_by_file = [];
}

-- The variables of the loop of `_parse_patch`.
pub record ParseState : Type 0 where
  pub changed_files : List String
  pub additions : ℕ
  pub deletions : ℕ
  pub added_lines : List String
  pub added_by_file : List (String × List String)
  pub deleted_by_file : List (String × List String)
  pub current_file : Option String

abbrev pub first_state : ParseState
first_state = record {
  changed_files = [];
  additions = 0;
  deletions = 0;
  added_lines = [];
  added_by_file = [];
  deleted_by_file = [];
  current_file = none;
}

-- `line[1:]`
abbrev drop_first : String → String
drop_first String.[] = ""
drop_first (String.◌∷◌ c s) = s

-- `"\n".join(lines)`
unfoldable pub join_lines : List String → String
join_lines [] = ""
join_lines (x ∷ []) = x
join_lines (x ∷ xs) = str_append x (str_append "\n" (join_lines xs))

abbrev pub lines_of : Option (List String) → List String
lines_of none = []
lines_of (some ls) = ls

-- `by_file[current_file].append(line)`
abbrev append_line :
    Option String → String → List (String × List String) → List (String × List String)
append_line none line d = d
append_line (some file) line d = insert file (lines_of (lookup file d) ++ (line ∷ [])) d

module _ (texts : PatchTexts) where
  -- `_validate_relative_path`
  unfoldable pub validate_relative_path : String → Result MutationError (Unit {0})
  validate_relative_path value = do
    raise_if
        (texts.is_absolute value
          || contains ".." (texts.parts value)
          || contains (texts.normal_text value) ("" ∷ "." ∷ []))
        (unsafe_path value)
    ok tt

  abbrev other_line : ParseState → String → Result MutationError ParseState
  other_line s line =
      if starts_with line "Binary files " || str_eq line "GIT binary patch"
      then err binary_patch
      else if starts_with line "+" && not (starts_with line "+++")
      then ok (record s {
        additions = s.additions + 1;
        added_lines = s.added_lines ++ (drop_first line ∷ []);
        added_by_file = append_line s.current_file (drop_first line) s.added_by_file;
      })
      else if starts_with line "-" && not (starts_with line "---")
      then ok (record s {
        deletions = s.deletions + 1;
        deleted_by_file = append_line s.current_file (drop_first line) s.deleted_by_file;
      })
      else ok s

  abbrev parse_header :
      ParseState → String → Option (String × String) → Result MutationError ParseState
  parse_header s line none = other_line s line
  parse_header s line (some (old_path, new_path)) = do
    raise_if (not (str_eq old_path new_path)) renamed_file
    validate_relative_path new_path
    ok (record s {
      changed_files = s.changed_files ++ (new_path ∷ []);
      current_file = some new_path;
      added_by_file = insert new_path [] s.added_by_file;
      deleted_by_file = insert new_path [] s.deleted_by_file;
    })

  -- The body of the loop, and the loop over the lines of the patch.
  unfoldable pub parse_line : ParseState → String → Result MutationError ParseState
  unfolding validate_relative_path
  parse_line s line = parse_header s line (texts.diff_header line)

  unfoldable pub parse_lines : ParseState → List String → Result MutationError ParseState
  unfolding parse_line
  parse_lines s [] = ok s
  parse_lines s (line ∷ lines) = do next ← parse_line s line; parse_lines next lines

  -- `_parse_patch` on the lines of the file, or on a file that cannot be read.
  unfoldable pub parse_patch : Option (List String) → Result MutationError ParsedPatch
  unfolding parse_lines join_lines
  parse_patch none = err unreadable_patch
  parse_patch (some lines) = do
    s ← parse_lines first_state lines
    raise_if (length s.changed_files == 0) no_file_headers
    raise_if (not (is_unique s.changed_files)) duplicate_sections
    ok (record {
      changed_files = sorted str_lt s.changed_files;
      additions = s.additions;
      deletions = s.deletions;
      added_text = join_lines s.added_lines;
      added_by_file = s.added_by_file;
      deleted_by_file = s.deleted_by_file;
    })
