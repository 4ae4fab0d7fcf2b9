-- ===== src/Naming/Accepted.antt =====
-- The names that the checks JuniperCheck* of tools/scripts/cpplint.py let pass.
use jp4agent.Prelude.{ℕ, Bool, false, ◌&&◌, ◌||◌, [], ◌∷◌, ◌==◌, leb, Text, lstrip_char}
use jp4agent.Lint.Report.{Report}
use jp4agent.Regex.Find.{Found, group_or}
use jp4agent.Naming.Names.{last_word}

abbrev is_lower_char : ℕ → Bool
is_lower_char c = leb b'a' c && leb c b'z'

abbrev is_upper_char : ℕ → Bool
is_upper_char c = leb b'A' c && leb c b'Z'

-- _[a-z]...
pub begins_as_member : Text → Bool
begins_as_member (c ∷ d ∷ _) = c == b'_' && is_lower_char d
begins_as_member _ = false

-- [a-z]... or _[a-z]...
pub begins_as_method : Text → Bool
unfolding begins_as_member
begins_as_method [] = false
begins_as_method (c ∷ name) = is_lower_char c || begins_as_member (c ∷ name)

pub begins_upper : Text → Bool
begins_upper [] = false
begins_upper (c ∷ _) = is_upper_char c

-- The name in front of the bracket, without stars.
abbrev pub declared_name : Found → Text
declared_name m = lstrip_char b'*' (last_word (group_or 1 m))
