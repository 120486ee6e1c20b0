-- ===== src/Base/Texts.antt =====
-- Python's operations on texts that the models share.
use Prim.Native.Nat.{ℕ, zero, suc}
use Prim.Native.Char.{Char, code}
use Prim.Native.String.{String}
use text.Mathlib.Text.{starts_with}
use agent_loop_gate.Base.Tests.{◌==◌, if◌then◌else◌}

-- `s[:n]` and `s[n:]`
abbrev pub take_text : ℕ → String → String
take_text zero s = String.[]
take_text (suc n) String.[] = String.[]
take_text (suc n) (String.◌∷◌ c s) = String.◌∷◌ c (take_text n s)

abbrev pub drop_text : ℕ → String → String
drop_text zero s = s
drop_text (suc n) String.[] = String.[]
drop_text (suc n) (String.◌∷◌ c s) = drop_text n s

abbrev upper_digit : Char → Char
upper_digit c =
    if code c == b'a'
    then "A"
    else if code c == b'b'
    then "B"
    else if code c == b'c'
    then "C"
    else if code c == b'd'
    then "D"
    else if code c == b'e'
    then "E"
    else if code c == b'f'
    then "F"
    else c

-- `s.upper()` of hexadecimal digits
abbrev pub upper_hex : String → String
upper_hex String.[] = String.[]
upper_hex (String.◌∷◌ c s) = String.◌∷◌ (upper_digit c) (upper_hex s)

-- `digest.removeprefix('sha256:')[:24].upper()`
unfoldable pub short_digest : String → String
short_digest d = upper_hex (take_text 24 (if starts_with d "sha256:" then drop_text 7 d else d))
