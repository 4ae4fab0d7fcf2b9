-- ===== src/Expression/Forward/Bounds.antt =====
-- Where the scans of tools/scripts/cpplint.py can end.
use jp4agent.Prelude.{
  ℕ, suc, ◌+◌, ◌≤◌, ◌<◌, ◌≡◌, ◌≢◌, refl, ap, sym, ◌∙◌, ◌||◌, not, List, [], ◌∷◌, Text, length, take,
  drop, reverse, arith, get_or-drop, drop-suc, Bool-cases, length-reverse, length-take, length-drop,
  ◌⊎◌, inl, inr, none, some,
}
use jp4agent.Regex.Find.{matches}
use jp4agent.Cleanse.Lines.{CleansedLines, line_at}
use jp4agent.Expression.Forward.{
  Place, not_closed, close_in, close_expression, starts_expression, shift_or_le_pattern, Scan,
  found, broken, open_at_end, Step, stop, next, pop_all, pop_or, close_bracket, end_statement,
  end_step, scan_end, find_end_of_expression_in_line,
}

pop_or-found : (k : ℕ) (r : Scan) (stack : Text) → pop_or r stack ≡ stop (found k) → r ≡ found k
unfolding pop_or
pop_or-found k r [] h = cc
pop_or-found k r (x ∷ []) h = cc
pop_or-found k r (x ∷ y ∷ stack) h = cc

close-found : (i c k : ℕ) (stack : Text) → close_bracket i c stack ≡ stop (found k) → k ≡ i + 1
unfolding close_bracket pop_or
close-found i c k [] h = cc
close-found i c k (x ∷ []) h = ground arith
close-found i c k (x ∷ y ∷ stack) h = ground arith

end_statement-found : (k : ℕ) (stack : Text) → end_statement stack ≢ stop (found k)
unfolding end_statement
end_statement-found k [] h = cc
end_statement-found k (x ∷ stack) h = cc

step-found :
    (before : Text) (c k : ℕ) (stack : Text)
    → end_step before c stack ≡ stop (found k)
    → k ≡ length before + 1
unfolding end_step
step-found before c k stack h = ground (
  arith,
  close-found (length before) c k (pop_all b'<' stack),
  end_statement-found k (pop_all b'<' stack),
  pop_or-found k broken stack,
  pop_or-found k (found (length before + 1)) stack,
)

Step-cases : (x : Step) → ((r : Scan) × (x ≡ stop r)) ⊎ ((stack : Text) × (x ≡ next stack))
Step-cases (stop r) = inl (r, refl)
Step-cases (next stack) = inr (stack, refl)

-- The place that the scan of a line gives lies on the line, behind its first character.
scan_bounds :
    (before line stack : Text) (k : ℕ)
    → scan_end before line stack ≡ found k
    → (length before < k) × (k ≤ length before + length line)
unfolding scan_end
scan_bounds before [] stack k h = cc
scan_bounds before (c ∷ line) stack k h = elim (Step-cases (end_step before c stack)) [
  | inl (r, e) ↦
      let at_k = step-found before c k stack (e ∙ ap stop (rw (e, scan_end) at h)) in
      (omega arith, omega arith)
  | inr (stack', e) ↦
      let (above, below) = scan_bounds (c ∷ before) line stack' k (rw (e, scan_end) at h) in
      (omega arith, omega arith)
]

find_end_bounds :
    (line : Text) (pos k : ℕ) (stack : Text)
    → pos ≤ length line
    → find_end_of_expression_in_line line pos stack ≡ found k
    → (pos < k) × (k ≤ length line)
unfolding find_end_of_expression_in_line
find_end_bounds line pos k stack inside h =
    let (above, below) = scan_bounds (reverse (take pos line)) (drop pos line) stack k h in
    let before : length (reverse (take pos line)) ≡ pos =
      length-reverse (take pos line) ∙ length-take pos line ∙ omega arith in
    (omega arith, omega (arith, length-drop pos line))

-- A place that was found is on a line of the file.
abbrev pub IsOnLine : CleansedLines → Place → Type 0
IsOnLine cl p =
    (k : ℕ)
    → p.pos ≡ some k
    → (p.linenum < length cl.elided) × (p.line ≡ line_at cl.elided p.linenum) × (k ≤ length p.line)

pub none-some : {k : ℕ} → none ≢ some k
none-some e = cc

not_closed-IsOnLine : (cl : CleansedLines) (line : Text) → IsOnLine cl (not_closed cl line)
unfolding not_closed
not_closed-IsOnLine cl line k h = absurd (none-some h)

pub Scan-cases :
    (x : Scan)
    → ((k : ℕ) × (x ≡ found k)) ⊎ (x ≡ broken) ⊎ ((stack : Text) × (x ≡ open_at_end stack))
Scan-cases (found k) = inl (k, refl)
Scan-cases broken = inr (inl refl)
Scan-cases (open_at_end stack) = inr (inr (stack, refl))

some-injective : {k k' : ℕ} → some k ≡ some k' → k ≡ k'
some-injective e = cc

plus_one_drop :
    (lines : List Text) (n : ℕ) (line : Text) (rest : List Text)
    → drop n lines ≡ line ∷ rest
    → drop (n + 1) lines ≡ rest
plus_one_drop lines n line rest e =
    let one_more : n + 1 ≡ suc n = omega arith in
    ap (λ m. drop m lines) one_more ∙ drop-suc lines n line rest e

at_found :
    (cl : CleansedLines) (line : Text) (lines : List Text) (n k k' : ℕ) (stack : Text)
    → drop n cl.elided ≡ line ∷ lines
    → find_end_of_expression_in_line line 0 stack ≡ found k
    → k ≡ k'
    → (n < length cl.elided) × (line ≡ line_at cl.elided n) × (k' ≤ length line)
at_found cl line lines n k k' stack e f same =
    let (above, below) = find_end_bounds line 0 k stack (omega arith) f in
    (
      omega (arith, length-drop n cl.elided, ap length e),
      sym (get_or-drop cl.elided n [] line lines e),
      omega arith,
    )

close_in-IsOnLine :
    (cl : CleansedLines) (last : Text) (n : ℕ) (lines : List Text) (stack : Text)
    → drop n cl.elided ≡ lines
    → IsOnLine cl (close_in cl last n lines stack)
unfolding close_in
close_in-IsOnLine cl last n lines [] e = not_closed-IsOnLine cl last
close_in-IsOnLine cl last n [] (c ∷ stack) e = not_closed-IsOnLine cl last
close_in-IsOnLine cl last n (line ∷ lines) (c ∷ stack) e =
    elim (Scan-cases (find_end_of_expression_in_line line 0 (c ∷ stack))) [
      | inl (k, f) ↦
          rw (f, close_in)
            (λ k' h. at_found cl line lines n k k' (c ∷ stack) e f (some-injective h))
      | inr (inl f) ↦ rw (f, close_in) (not_closed-IsOnLine cl line)
      | inr (inr (stack', f)) ↦
          rw (f, close_in)
            (close_in-IsOnLine cl line (n + 1) lines stack'
              (plus_one_drop cl.elided n line lines e))
    ]

-- Where CloseExpression finds the end, it is on a line of the file: the line that it gives has that number,
-- and the position is on it.
pub close_expression-IsOnLine :
    (cl : CleansedLines) (n pos : ℕ)
    → n < length cl.elided
    → pos ≤ length (line_at cl.elided n)
    → IsOnLine cl (close_expression cl n pos)
unfolding close_expression
close_expression-IsOnLine cl n pos inside on_line =
    let line = line_at cl.elided n in
    elim (Bool-cases
      (not (starts_expression (drop pos line)) || matches shift_or_le_pattern (drop pos line))) [
        | inl b ↦ rw (b, close_expression) (not_closed-IsOnLine cl line)
        | inr b ↦ elim (Scan-cases (find_end_of_expression_in_line line pos [])) [
          | inl (k, f) ↦
              rw (b, f, close_expression)
                (λ k' h. (
                  inside,
                  refl,
                  omega (arith, find_end_bounds line pos k [] on_line f, some-injective h),
                ))
          | inr (inl f) ↦ rw (b, f, close_expression) (not_closed-IsOnLine cl line)
          | inr (inr (stack, f)) ↦
              rw (b, f, close_expression)
                (close_in-IsOnLine cl line (n + 1) (drop (n + 1) cl.elided) stack refl)
        ]
      ]
