-- ===== src/Cleanse/Strings/Fuel.antt =====
-- The loop of _CollapseStrings in tools/scripts/cpplint.py ends within its fuel.
use jp4agent.Prelude.{ℕ, ◌≤◌, ◌≡◌, Text, length}
use jp4agent.Regex.{Regex, either, range, star, cls, one}
use jp4agent.Regex.Notation.{opt, lit, ◌▹◌}
use jp4agent.Cleanse.Strings.{Round, again}

-- (?:\'?[0-9a-zA-Z_])*
abbrev digits_star : Regex
digits_star = star (
    opt (lit "'")
    ▹ cls
        (either (range b'0' b'9') (either (range b'a' b'z') (either (range b'A' b'Z') (one b'_')))))

-- The text that is left after a round.
abbrev Leaves : ℕ → Round → Type 0
Leaves n r = (more rest : Text) → r ≡ again more rest → length rest ≤ n
