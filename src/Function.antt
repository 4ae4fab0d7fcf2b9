-- ===== src/Function.antt =====
-- `_FunctionState` of tools/scripts/cpplint.py: the function that is being read and the lines in it.
pub mod Size
pub mod Arguments
use jp4agent.Prelude.{
  ℕ, zero, suc, ◌+◌, ◌*◌, ◌/◌, ◌^◌, Bool, true, false, List, [], ◌∷◌, ◌++◌, ltb, if◌then◌else◌,
  Text, codes, decimal,
}
use jp4agent.Regex.{Regex}
use jp4agent.Regex.Notation.{lit, ◌▹◌, ◌∣∣◌}
use jp4agent.Regex.Find.{matches}
use jp4agent.Lint.Report.{Report}

pub record FunctionState : Type 0 where
  pub in_a_function : Bool
  pub lines_in_function : ℕ
  pub current_function : Text

abbrev normal_trigger : ℕ
normal_trigger = 250

abbrev test_trigger : ℕ
test_trigger = 400

-- __init__
abbrev pub initial_function_state : FunctionState
initial_function_state = record {
  in_a_function = false;
  lines_in_function = 0;
  current_function = [];
}

-- Begin
unfoldable pub begin : Text → FunctionState → FunctionState
begin function_name s = record {
  in_a_function = true;
  lines_in_function = 0;
  current_function = function_name;
}

-- Count
unfoldable pub count_line : FunctionState → FunctionState
count_line s =
    if s.in_a_function then record s { lines_in_function = s.lines_in_function + 1 } else s

-- End
unfoldable pub end : FunctionState → FunctionState
end s = record s { in_a_function = false }

-- T(EST|est)
abbrev pub test_pattern : Regex
test_pattern = lit "T" ▹ (lit "EST" ∣∣ lit "est")

unfoldable pub base_trigger : FunctionState → ℕ
base_trigger s = if matches test_pattern s.current_function then test_trigger else normal_trigger

-- int(math.log(n, 2)) for n > 0. The logarithm is exact at the powers of two below 64, and what comes
-- after is cut to 5.
log2_fuel : ℕ → ℕ → ℕ
log2_fuel zero n = 0
log2_fuel (suc f) n = let more = suc (log2_fuel f (n / 2)) in if ltb n 2 then 0 else more

pub log2 : ℕ → ℕ
unfolding log2_fuel
log2 n = log2_fuel n n

pub error_level : ℕ → ℕ
error_level ratio = if ltb 5 (log2 ratio) then 5 else log2 ratio

size_message : FunctionState → ℕ → Text
size_message s trigger =
    codes "Small and focused functions are preferred: "
    ++ (s.current_function
        ++ (codes " has "
            ++ (decimal s.lines_in_function
                ++ (codes " non-comment lines (error triggered by exceeding "
                    ++ (decimal trigger ++ codes " lines).")))))

-- The report of Check. Python 2 divides two integers to an integer.
pub size_report : FunctionState → ℕ → Text → ℕ → Report
unfolding size_message
size_report s verbose_level filename linenum = record {
  filename = filename;
  linenum = linenum;
  category = codes "readability/fn_size";
  confidence = error_level (s.lines_in_function / base_trigger s);
  message = size_message s (base_trigger s * 2 ^ verbose_level);
}

-- Check
pub check : FunctionState → ℕ → Text → ℕ → List Report
check s verbose_level filename linenum =
    if s.in_a_function
    then (if ltb (base_trigger s * 2 ^ verbose_level) s.lines_in_function
        then size_report s verbose_level filename linenum ∷ []
        else [])
    else []
