-- ===== src/Samples/Cli.antt =====
-- Sessions of the command line at concrete inputs.
use jp4agent.Prelude.{List, [], ◌∷◌, Text, codes}
use jp4agent.Cli.{Input, typed, interrupted, Answer, unavailable}

abbrev down : Text → Answer
down cmd = unavailable

abbrev inputs : List Input
inputs =
    interrupted
    ∷ typed (codes "show-afi-objects")
    ∷ typed (codes "add-table t k 6 n 10")
    ∷ typed (codes "  ")
    ∷ typed (codes "quit")
    ∷ []
