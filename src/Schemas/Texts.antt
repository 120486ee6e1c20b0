-- ===== src/Schemas/Texts.antt =====
-- The constrained texts of agentloopgate/schemas/models.py. A value of such a type is a text that
-- its pattern accepts; a time is kept as the text of a UTC time.
use Prim.Native.Char.{code}
use agent_loop_gate.Base.{ℕ, String, Bool, false, ◌&&◌, ◌||◌, List, [], ◌∷◌, all, length, leb, ◌==◌}

abbrev pub Digest : Type 0
Digest = String

abbrev pub ArtifactId : Type 0
ArtifactId = String

abbrev pub NonEmpty : Type 0
NonEmpty = String

abbrev pub UtcDateTime : Type 0
UtcDateTime = String

abbrev pub codes : String → List ℕ
codes String.[] = []
codes (String.◌∷◌ c s) = code c ∷ codes s

-- `[A-Za-z0-9]`
is_alphanumeric : ℕ → Bool
is_alphanumeric c =
    (leb b'A' c && leb c b'Z') || (leb b'a' c && leb c b'z') || (leb b'0' c && leb c b'9')

-- `[A-Za-z0-9_.:-]`
is_id_character : ℕ → Bool
unfolding is_alphanumeric
is_id_character c = is_alphanumeric c || c == b'_' || c == b'.' || c == b':' || c == b'-'

-- `^[A-Za-z0-9][A-Za-z0-9_.:-]{0,127}$` over the characters of a text.
unfoldable pub matches_artifact_id : List ℕ → Bool
unfolding is_id_character
matches_artifact_id [] = false
matches_artifact_id (c ∷ cs) = is_alphanumeric c && all is_id_character cs && leb (length cs) 127

unfoldable pub is_artifact_id : String → Bool
unfolding matches_artifact_id
is_artifact_id s = matches_artifact_id (codes s)
