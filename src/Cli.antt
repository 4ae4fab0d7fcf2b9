-- ===== src/Cli.antt =====
-- The command line of the agent, cli/cli.py: which inputs it answers by itself, and which it sends to
-- the agent.
pub mod Session
pub mod Rounds
pub mod Ending
use jp4agent.Prelude.{
  ℕ, Bool, true, false, not, Option, none, some, List, [], ◌∷◌, ◌++◌, if◌then◌else◌, Text, codes,
  mem_text, byte_words,
}

-- p4_cmds_full, cli_cmds
abbrev pub p4_cmds_full : List Text
p4_cmds_full =
    codes "add-table <table-name> <key-field> <protocol-num> <default-next-obj> <table-size>"
    ∷ codes "add-table-entry <table-name> <prefix> <prefix-length>"
    ∷ codes "show-afi-objects"
    ∷ []

abbrev cli_cmds : List Text
cli_cmds = codes "help" ∷ codes "quit" ∷ []

-- cmd.split()[0] for cmd in p4_cmds_full
first_words : List Text → List Text
first_words [] = []
first_words (cmd ∷ cmds) = elim (byte_words cmd) [
  | [] ↦ first_words cmds
  | w ∷ _ ↦ w ∷ first_words cmds
]

unfoldable pub p4_cmds : List Text
unfolding first_words
p4_cmds = first_words p4_cmds_full ++ cli_cmds

-- What the prompt gives: a line, or an interrupt or the end of the input, of which both are passed over.
pub data Input : Type 0 where
  typed : Text → Input
  interrupted : Input

-- What one round of the loop does: go on with these lines printed, leave, send a command, or fail with the
-- IndexError of `usr_cmd.strip().split()[0]`.
pub data Outcome : Type 0 where
  go_on : List Text → Outcome
  leave : Text → Outcome
  send : Text → Outcome
  index_error : Outcome

-- The test of the first word against the commands.
pub dispatch : Text → Outcome
dispatch usr_cmd = elim (byte_words usr_cmd) [
  | [] ↦ index_error
  | w ∷ _ ↦
      if not (mem_text w p4_cmds)
      then go_on (codes "Invalid command. Supported commands are:" ∷ p4_cmds_full)
      else send usr_cmd
]

-- The body of the loop of run_cli.
pub round : Input → Outcome
unfolding dispatch
round interrupted = go_on []
round (typed []) = go_on []
round (typed (c ∷ usr_cmd)) =
    if mem_text (c ∷ usr_cmd) (codes "help" ∷ codes "h" ∷ codes "?" ∷ [])
    then go_on p4_cmds_full
    else if mem_text (c ∷ usr_cmd) (codes "quit" ∷ codes "exit" ∷ [])
    then leave (codes "Exiting JP4Agent CLI.")
    else dispatch (c ∷ usr_cmd)

-- What the agent answers: its output, or an error of the call, which is UNAVAILABLE or has details.
pub data Answer : Type 0 where
  response : Text → Answer
  unavailable : Answer
  failed : Text → Answer

-- send_cmd: the line that it prints
pub send_cmd : (Text → Answer) → Text → Text
send_cmd agent usr_cmd = elim (agent usr_cmd) [
  | response cmdout ↦ cmdout
  | unavailable ↦ codes "Couldn't connect to JP4Agent. Please ensure JP4Agent is up and running."
  | failed details ↦ details
]
