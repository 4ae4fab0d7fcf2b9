-- ===== src/Checks/Lengths/Counted.antt =====
-- What CheckForFunctionLengths of tools/scripts/cpplint.py reports at the end of a function.
use jp4agent.Prelude.{
  ℕ, zero, suc, ◌+◌, ◌*◌, ◌^◌, ◌<◌, ◌≡◌, ◌≢◌, refl, ap, sym, ◌∙◌, ◌↔◌, true, false, List, [], ◌∷◌,
  ◌++◌, if◌then◌else◌, Text, All, drop, get_or-drop, drop-suc, length, arith, Bool-cases, ◌≤◌, ltb,
  ltb→lt, ltb-false→le, codes, inl, inr,
}
use mathlib.Core.List.{append-nil}
use jp4agent.Regex.Find.{matches}
use jp4agent.Lint.Report.{Report}
use jp4agent.Cleanse.Lines.{CleansedLines, line_at}
use jp4agent.Function.{
  FunctionState, begin, count_line, end, check, base_trigger, size_report, test_pattern,
}
use jp4agent.Function.Size.{check-long, check-short, size_report-place}
use jp4agent.Checks.Lengths.{
  starts_function, function_end_pattern, blank_line_pattern, check_for_function_lengths,
}

-- The check on a number of lines, from one on.
pub check_lines : Text → CleansedLines → ℕ → ℕ → ℕ → FunctionState → FunctionState × List Report
check_lines f cl v zero n s = (s, [])
check_lines f cl v (suc k) n s =
    let (s', reports) = check_for_function_lengths f cl n v s in
    let (s'', more) = check_lines f cl v k (suc n) s' in (s'', reports ++ more)

-- A line of a body: no function begins or ends on it.
abbrev pub InBody : Text → Type 0
InBody line = (starts_function line ≡ false) × (matches function_end_pattern line ≡ false)

-- The lines that are not blank.
pub count_code : List Text → ℕ
count_code [] = 0
count_code (line ∷ lines) =
    let n = count_code lines in if matches blank_line_pattern line then n else n + 1

-- The state in a function after a line of its body.
counted : FunctionState → Text → FunctionState
counted s line = if matches blank_line_pattern line then s else count_line s

check_body :
    (f : Text) (cl : CleansedLines) (v n : ℕ) (line : Text) (s : FunctionState)
    → line_at cl.lines n ≡ line
    → InBody line
    → check_for_function_lengths f cl n v s ≡ (counted s line, [])
unfolding check_for_function_lengths counted
check_body f cl v n line s e (a, b) = rw (e, a, b) (ground arith)

check_end :
    (f : Text) (cl : CleansedLines) (v n : ℕ) (line : Text) (s : FunctionState)
    → line_at cl.lines n ≡ line
    → starts_function line ≡ false
    → matches function_end_pattern line ≡ true
    → check_for_function_lengths f cl n v s ≡ (end s, check s v f n)
unfolding check_for_function_lengths
check_end f cl v n line s e a b = rw (e, a, b) refl

abbrev add : ℕ → FunctionState → FunctionState
add k s = record s { lines_in_function = s.lines_in_function + k }

counted-add :
    (s : FunctionState) (line : Text)
    → s.in_a_function ≡ true
    → counted s line ≡ add (count_code (line ∷ [])) s
unfolding counted count_line count_code
counted-add s line e = elim (Bool-cases (matches blank_line_pattern line)) [
  | inl b ↦ rw b (ap (λ m. record s { lines_in_function = m }) zero_more)
  | inr b ↦ rw (b, e) (ap (λ m. record s { in_a_function = true; lines_in_function = m }) refl)
]
  where
    zero_more : s.lines_in_function ≡ s.lines_in_function + 0
    zero_more = omega arith

counted_inside :
    (s : FunctionState) (line : Text)
    → s.in_a_function ≡ true
    → (counted s line).in_a_function ≡ true
counted_inside s line e = ap (λ x. x.in_a_function) (counted-add s line e) ∙ e

count_code-cons :
    (line : Text) (body : List Text)
    → count_code (line ∷ body) ≡ count_code (line ∷ []) + count_code body
unfolding count_code
count_code-cons line body = ground arith

count_code-nil : count_code [] ≡ 0
unfolding count_code
count_code-nil = refl

check-shift :
    (s : FunctionState) (v : ℕ) (f : Text) (l l' k k' : ℕ)
    → l ≡ l'
    → k ≡ k'
    → check (record s { lines_in_function = l }) v f k
      ≡ check (record s { lines_in_function = l' }) v f k'
check-shift s v f l l' k k' e h = rw (e, h) refl

reports_after :
    (f : Text) (cl : CleansedLines) (v n : ℕ) (body rest : List Text) (close : Text)
    (s : FunctionState)
    → s.in_a_function ≡ true
    → drop n cl.lines ≡ body ++ close ∷ rest
    → All InBody body
    → starts_function close ≡ false
    → matches function_end_pattern close ≡ true
    → (check_lines f cl v (suc (length body)) n s).1
      ≡ check (add (count_code body) s) v f (n + length body)
unfolding check_lines
reports_after f cl v n [] rest close s inside lines all a b =
    rw (check_end f cl v n close s (get_or-drop cl.lines n [] close rest lines) a b)
      (append-nil _ ∙ check-shift s v f _ _ n (n + 0) (omega (arith, count_code-nil)) (omega arith))
reports_after f cl v n (line ∷ body) rest close s inside lines (h, all) a b =
    rw (check_body f cl v n line s (get_or-drop cl.lines n [] line _ lines) h) (
      reports_after f cl v (suc n) body rest close (counted s line) (counted_inside s line inside)
        (drop-suc cl.lines n line _ lines) all a b
      ∙ ap (λ x. check (add (count_code body) x) v f (suc n + length body))
          (counted-add s line inside)
      ∙ check-shift s v f _ _ (suc n + length body) (n + suc (length body))
          (omega (arith, count_code-cons line body)) (omega arith))

-- The number of lines that a function of this name may have: 400 for a test, and else 250.
pub limit : Text → ℕ
limit name = if matches test_pattern name then 400 else 250

-- The report on the length of a function, at this line.
abbrev pub IsSizeReport : Text → ℕ → Report → Type 0
IsSizeReport f n r = (r.filename ≡ f) × (r.linenum ≡ n) × (r.category ≡ codes "readability/fn_size")

one_or_none :
    (reports : List Report) (f : Text) (n trigger lines : ℕ) (r : Report)
    → IsSizeReport f n r
    → (trigger < lines → reports ≡ r ∷ [])
    → (lines ≤ trigger → reports ≡ [])
    → (((r : Report) × (reports ≡ r ∷ []) × IsSizeReport f n r) ↔ (trigger < lines))
      × ((reports ≡ []) ↔ (lines ≤ trigger))
one_or_none reports f n trigger lines r good long short = elim (Bool-cases (ltb trigger lines)) [
  | inl b ↦
      let lt = ltb→lt trigger lines b in
      (
        (λ h. lt, λ h. (r, long lt, good)),
        (λ e. absurd (cons-nil (sym (long lt) ∙ e)), λ le. absurd (omega arith)),
      )
  | inr b ↦
      let le = ltb-false→le trigger lines b in
      (
        (λ (x, e, _). absurd (cons-nil (sym e ∙ short le)), λ lt. absurd (omega arith)),
        (λ e. le, λ h. short le),
      )
]
  where
    cons-nil : {x : Report} → x ∷ [] ≢ []
    cons-nil e = cc

begin-in_a_function : (name : Text) (s : FunctionState) → (begin name s).in_a_function ≡ true
unfolding begin
begin-in_a_function name s = refl

added :
    (name : Text) (k : ℕ) (s : FunctionState)
    → (base_trigger (add k (begin name s)) ≡ limit name)
      × ((begin name s).lines_in_function + k ≡ k)
unfolding begin base_trigger limit
added name k s = (refl, omega arith)

-- A function that begins before line n, whose body is the lines from there to one that has its } only, gets
-- one report, which is at that line, if the lines of the body that are not blank exceed 400 for a test and
-- 250 for any other function, doubled for each level of verbosity, and none if they do not.
pub reported_iff :
    (f : Text) (cl : CleansedLines) (v n : ℕ) (name : Text) (body rest : List Text) (close : Text)
    → drop n cl.lines ≡ body ++ close ∷ rest
    → All InBody body
    → starts_function close ≡ false
    → matches function_end_pattern close ≡ true
    → (s : FunctionState)
    → let reports = (check_lines f cl v (suc (length body)) n (begin name s)).1 in
      (((r : Report) × (reports ≡ r ∷ []) × IsSizeReport f (n + length body) r)
        ↔ (limit name * 2 ^ v < count_code body))
      × ((reports ≡ []) ↔ (count_code body ≤ limit name * 2 ^ v))
reported_iff f cl v n name body rest close lines all a b s =
    let started = begin-in_a_function name s in
    let same = reports_after f cl v n body rest close (begin name s) started lines all a b in
    let final = add (count_code body) (begin name s) in
    let (base, counted_lines) = added name (count_code body) s in
    let l = n + length body in
    one_or_none _ f l (limit name * 2 ^ v) (count_code body) (size_report final v f l)
      (size_report-place final v f l)
      (λ h. same ∙ check-long final v f l started (rw (base, counted_lines) h))
      (λ h. same ∙ check-short final v f l (rw (base, counted_lines) h))
