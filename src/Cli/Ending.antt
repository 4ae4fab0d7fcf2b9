-- ===== src/Cli/Ending.antt =====
-- How a session of cli/cli.py ends, and what it sends.
use jp4agent.Prelude.{List, [], ◌∷◌, ◌⊎◌}
use jp4agent.Cli.{Input}
use jp4agent.Cli.Session.{IsBlank}
use jp4agent.Cli.Rounds.{IsQuit}

-- A blank line is among the inputs, and no blank line and no quit stands before it.
abbrev pub MeetsBlank : List Input → Type 0
MeetsBlank [] = ⊥
MeetsBlank (i ∷ inputs) = IsBlank i ⊎ ((¬ IsBlank i) × (¬ IsQuit i) × MeetsBlank inputs)
