-- ===== src/Process/Ends.antt =====
-- When ProcessFileData of tools/scripts/cpplint.py comes to its end.
pub mod Guards
pub mod Whole
use jp4agent.Prelude.{
  ℕ, zero, suc, ◌+◌, ◌≡◌, ◌≢◌, refl, ap, ◌∙◌, List, [], ◌∷◌, ◌++◌, ◌||◌, Option, none, some, Bool,
  true, false, Text, All, Bool-cases, Option-cases, inl, inr, if◌then◌else◌, length, ◌<◌, find,
  codes, arith, is_some, ◌==◌,
}
use jp4agent.Regex.Find.{Found, match, matches, searches, search_in, group_or}
use jp4agent.Lint.Report.{Report}
use jp4agent.Lint.Handler.{World, report_all}
use jp4agent.Lint.Effects.{Effect, nolint, say_all, Outcome, done, raised, ◌>>=◌, run_effects}
use jp4agent.Lint.Effects.Quiet.{AllQuiet, nil-AllQuiet, quiet, run_effects-AllQuiet}
use jp4agent.Cleanse.Lines.{CleansedLines, line_at, cleanse}
use jp4agent.Nesting.Blocks.{Block, ClassInfo, NestingState}
use jp4agent.Nesting.Queries.{innermost_class, in_asm_block}
use jp4agent.Expression.Forward.{close_expression}
use jp4agent.Style.Texts.{line_before}
use jp4agent.Style.Semicolons.{body_brace, semicolon_effects, check_trailing_semicolon}
use jp4agent.Include.{IncludeState}
use jp4agent.Function.Arguments.{FunctionArguments, update_arguments}
use jp4agent.Function.Arguments.Raised.{update_arguments_raised_iff}
use jp4agent.Naming.Names.{declarator_pattern}
use jp4agent.Nesting.Update.{update}
use jp4agent.Regex.{Regex}
use jp4agent.Regex.Notation.{lit, spaces, ◌▹◌}
use jp4agent.Headers.Info.{FileSystem}
use jp4agent.Headers.Lines.{include_pattern}
use jp4agent.Language.General.{check_language, language_effects}
use jp4agent.Process.Style.{Environment, check_style}
use jp4agent.Process.Line.{
  FileState, other_effects, check_line, follow_line, checked_line, line_effects, process_line,
}
use jp4agent.Language.Casts.{
  expecting_function_args, address_pattern, address_effects, other_cast_effects,
  deprecated_cast_pattern, check_casts,
}
use jp4agent.Language.Constructs.{
  constructor_pattern, constructor_args, constructor_effects, class_effects,
  check_for_non_standard_constructs,
}

-- The line is no address of a cast, and no list of arguments of a constructor on it ends inside brackets.
abbrev pub IsHarmless : Text → Type 0
IsHarmless line =
    (searches address_pattern line ≡ false)
    × ((name : Text) (m : Found)
        → match (constructor_pattern name) line ≡ some m
        → constructor_args (group_or 2 m) ≢ none)

-- The first bracket of the line without comments, if a declarator stands before it, is on the line without
-- strings as well.
abbrev pub IsInPlace : CleansedLines → ℕ → Type 0
IsInPlace cl n =
    (k : ℕ)
    → matches (spaces ▹ declarator_pattern ▹ lit "(") (line_at cl.lines n) ≡ true
    → find (line_at cl.lines n) (codes "(") ≡ some k
    → k < length (line_at cl.elided n)

pub line_at-All :
    (P : Text → Type 0) (lines : List Text) → All P lines → P [] → (n : ℕ) → P (line_at lines n)
line_at-All P [] _ p n = p
line_at-All P (line ∷ lines) (h, all) p zero = h
line_at-All P (line ∷ lines) (h, all) p (suc n) = line_at-All P lines all p n

last-All : (P : Text → Type 0) (lines : List Text) → All P lines → P [] → P (line_before lines zero)
unfolding line_before
last-All P [] _ p = p
last-All P (line ∷ []) (h, all) p = h
last-All P (line ∷ next ∷ lines) (h, all) p = last-All P (next ∷ lines) all p

pub line_before-All :
    (P : Text → Type 0) (lines : List Text) → All P lines → P [] → (n : ℕ) → P (line_before lines n)
unfolding line_before
line_before-All P lines all p (suc n) = line_at-All P lines all p n
line_before-All P lines all p zero = last-All P lines all p

matches-some : (r : Regex) (s : Text) (m : Found) → match r s ≡ some m → matches r s ≡ true
unfolding matches
matches-some r s m e = ap is_some e

module _ (P : Text → Type 0) (f : Text) (cl : CleansedLines)
    (read : (k : ℕ) → P (line_at cl.raw_lines k))
    (read_before : (k : ℕ) → P (line_before cl.raw_lines k)) (n : ℕ)
    (harmless : IsHarmless (line_at cl.elided n)) (in_place : IsInPlace cl n) where
  arguments-found :
      (a : FunctionArguments) → (s : FunctionArguments) × (update_arguments cl n a ≡ some s)
  arguments-found a = elim (Option-cases (update_arguments cl n a)) [
    | inl e ↦
        let ((m, matched, _, _), (k, h, le)) = (update_arguments_raised_iff cl n a).0 e in
        absurd (omega (arith, in_place k (matches-some _ _ m matched) h))
    | inr found ↦ found
  ]

  follow-found : (s : FileState) → (t : FileState) × ((follow_line f cl n s).0 ≡ some t)
  unfolding follow_line
  follow-found s =
      let (a, e) = arguments-found s.arguments in
      (record s { nesting = (update f cl n s.nesting).0; arguments = a }, rw (e, follow_line) refl)

  semicolon_one : (k : ℕ) → AllQuiet P (semicolon_effects f cl k)
  unfolding semicolon_effects
  semicolon_one k = search (quiet, read, read_before)

  semicolon-AllQuiet : AllQuiet P (check_trailing_semicolon f cl n)
  unfolding check_trailing_semicolon
  semicolon-AllQuiet = elim (Option-cases (body_brace cl n)) [
    | inl e ↦ rw (e, check_trailing_semicolon) (nil-AllQuiet P)
    | inr (pos, e) ↦ elim (Option-cases (close_expression cl n pos).pos) [
      | inl h ↦ rw (e, h, check_trailing_semicolon) (nil-AllQuiet P)
      | inr (k, h) ↦ rw (e, h, check_trailing_semicolon) (search (quiet, semicolon_one))
    ]
  ]

  address-AllQuiet : AllQuiet P (address_effects f cl n (line_at cl.elided n))
  unfolding address_effects
  address-AllQuiet = rw harmless.0 (nil-AllQuiet P)

  other_cast-AllQuiet : (b : Bool) → AllQuiet P (other_cast_effects f cl n b)
  unfolding other_cast_effects
  other_cast-AllQuiet b = search (quiet, address-AllQuiet)

  check_casts-AllQuiet : AllQuiet P (check_casts f cl n)
  unfolding check_casts
  check_casts-AllQuiet =
      elim (Option-cases (search_in deprecated_cast_pattern (line_at cl.elided n))) [
        | inl e ↦ rw (e, check_casts) (search (quiet, other_cast-AllQuiet))
        | inr (m, e) ↦ rw (e, check_casts) (search (quiet, other_cast-AllQuiet))
      ]

  constructor-AllQuiet :
      (name : Text) → AllQuiet P (constructor_effects f n name (line_at cl.elided n))
  unfolding constructor_effects
  constructor-AllQuiet name =
      elim (Option-cases (match (constructor_pattern name) (line_at cl.elided n))) [
        | inl e ↦ rw (e, constructor_effects) (nil-AllQuiet P)
        | inr (m, e) ↦ elim (Option-cases (constructor_args (group_or 2 m))) [
          | inl cut ↦ absurd (harmless.1 name m e cut)
          | inr (args, h) ↦ rw (e, h, constructor_effects) (search quiet)
        ]
      ]

  class-AllQuiet :
      (c : Option (Block × ClassInfo)) → AllQuiet P (class_effects f n (line_at cl.elided n) c)
  unfolding class_effects
  class-AllQuiet none = nil-AllQuiet P
  class-AllQuiet (some (block, info)) = search (quiet, constructor-AllQuiet)

  constructs-AllQuiet : (s : NestingState) → AllQuiet P (check_for_non_standard_constructs f cl n s)
  unfolding check_for_non_standard_constructs
  constructs-AllQuiet s = search (quiet, class-AllQuiet)

  language-AllQuiet :
      (fs : FileSystem) (headers : List Text) (ext : Text) (s : IncludeState)
      → AllQuiet P (check_language fs headers f cl n ext s).1
  unfolding check_language language_effects
  language-AllQuiet fs headers ext s = elim (Bool-cases (length (line_at cl.elided n) == 0)) [
    | inl e ↦ rw (e, check_language) (nil-AllQuiet P)
    | inr e ↦ elim (Option-cases (search_in include_pattern (line_at cl.elided n))) [
      | inl h ↦ rw (e, h, check_language) (search (quiet, check_casts-AllQuiet))
      | inr (m, h) ↦ rw (e, h, check_language) (search quiet)
    ]
  ]

  style-AllQuiet :
      (env : Environment) (ext : Text) (s : NestingState)
      → AllQuiet P (check_style env f cl n ext s)
  unfolding check_style
  style-AllQuiet env ext s = search (quiet, semicolon-AllQuiet)

  other-AllQuiet : (s : FileState) → AllQuiet P (other_effects f cl n s)
  unfolding other_effects
  other-AllQuiet s = search (quiet, constructs-AllQuiet)

  check_line-AllQuiet :
      (env : Environment) (ext : Text) (v : ℕ) (s : FileState)
      → AllQuiet P (check_line env f ext cl v n s).1
  unfolding check_line
  check_line-AllQuiet env ext v s =
      search (quiet, style-AllQuiet, language-AllQuiet, other-AllQuiet)

  checked-AllQuiet :
      (env : Environment) (ext : Text) (v : ℕ) (before : List Effect) (s : FileState)
      → AllQuiet P before
      → AllQuiet P (checked_line env f ext cl v n before s).1
  unfolding checked_line
  checked-AllQuiet env ext v before s h =
      let checked = check_line-AllQuiet env ext v s in
      elim (Bool-cases (in_asm_block s.nesting)) [
        | inl e ↦ rw (e, checked_line) h
        | inr e ↦ rw (e, checked_line) (search quiet)
      ]

  -- The effects of a line, whatever the state.
  pub line-AllQuiet :
      (env : Environment) (ext : Text) (v : ℕ) (s : FileState)
      → AllQuiet P (line_effects env f ext cl v n s).1
  unfolding line_effects
  line-AllQuiet env ext v s =
      let (t, e) = follow-found s in
      let before = nolint (line_at cl.raw_lines n) n ∷ say_all (follow_line f cl n s).1 in
      rw (e, line_effects) (checked-AllQuiet env ext v before t (search (quiet, read)))

  pub process_line_ends :
      (env : Environment) (ext : Text) (s : FileState) (w : World)
      → (p : FileState × World) × (process_line env f ext cl n s w ≡ done p)
  unfolding process_line
  process_line_ends env ext s w =
      let es = line_effects env f ext cl w.state.verbose_level n s in
      let (w', e) =
        run_effects-AllQuiet P f es.1 w (line-AllQuiet env ext w.state.verbose_level s) in
      ((es.0, w'), rw e refl)
