-- ===== src/Cli/Session.antt =====
-- A session of the command line: run_cli of cli/cli.py over the inputs, with the agent as a parameter.
use jp4agent.Prelude.{ℕ, ◌≡◌, byte_words, List, [], ◌∷◌, ◌++◌, Text}
use jp4agent.Cli.{typed, Input, go_on, leave, send, index_error, round, send_cmd, Answer}

-- How a session ends: by quit, by the IndexError, or not within these inputs.
pub data End : Type 0 where
  quit crashed waiting : End

-- What was printed and sent, and how it ended.
pub record Session : Type 0 where
  pub printed : List Text
  pub sent : List Text
  pub ending : End

unfoldable pub run_cli : (Text → Answer) → List Input → Session
unfolding send_cmd
run_cli agent [] = record { printed = []; sent = []; ending = waiting }
run_cli agent (i ∷ inputs) =
    let rest = run_cli agent inputs in
    elim (round i) [
      | go_on lines ↦ record rest { printed = lines ++ rest.printed }
      | leave line ↦ record { printed = line ∷ []; sent = []; ending = quit }
      | send usr_cmd ↦ record rest {
        printed = send_cmd agent usr_cmd ∷ rest.printed;
        sent = usr_cmd ∷ rest.sent;
      }
      | index_error ↦ record { printed = []; sent = []; ending = crashed }
    ]

-- A line that holds a character but no word.
abbrev pub IsBlank : Input → Type 0
IsBlank i = (c : ℕ) × (t : Text) × (i ≡ typed (c ∷ t)) × (byte_words (c ∷ t) ≡ [])
