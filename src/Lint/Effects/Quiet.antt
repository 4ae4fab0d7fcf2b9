-- ===== src/Lint/Effects/Quiet.antt =====
-- Effects of the checks of tools/scripts/cpplint.py that raise no exception.
use jp4agent.Prelude.{
  ℕ, ◌≡◌, refl, ap, ◌∙◌, none, List, [], ◌∷◌, ◌++◌, Bool, true, false, if◌then◌else◌, Text, All,
  All-append,
}
use jp4agent.Lint.Report.{Report}
use jp4agent.Lint.Handler.{World, error, report_all}
use jp4agent.Lint.Effects.{
  Effect, nolint, say, raise, done, read_nolint, run_effect, run_effects, say_all,
}
use jp4agent.Regex.Find.{search_in}
use jp4agent.Lint.Suppress.{Suppressions, nolint_pattern, parse_nolint_suppressions}

-- Effects that raise no exception and read only NOLINT comments of lines with the property P.
abbrev IsQuiet : (Text → Type 0) → Effect → Type 0
IsQuiet P raise = ⊥
IsQuiet P (nolint raw n) = P raw
IsQuiet P (say r) = Unit {0}

-- A shut predicate, which `search` reads by its rules.
pub AllQuiet : (Text → Type 0) → List Effect → Type 0
AllQuiet P es = All (IsQuiet P) es

pub nil-AllQuiet : (P : Text → Type 0) → AllQuiet P []
unfolding AllQuiet
nil-AllQuiet P = tt

pub say-AllQuiet :
    (P : Text → Type 0) (r : Report) (es : List Effect) → AllQuiet P es → AllQuiet P (say r ∷ es)
unfolding AllQuiet
say-AllQuiet P r es h = (tt, h)

pub nolint-AllQuiet :
    (P : Text → Type 0) (raw : Text) (n : ℕ) (es : List Effect)
    → P raw
    → AllQuiet P es
    → AllQuiet P (nolint raw n ∷ es)
unfolding AllQuiet
nolint-AllQuiet P raw n es p h = (p, h)

pub say_all-AllQuiet : (P : Text → Type 0) (rs : List Report) → AllQuiet P (say_all rs)
unfolding AllQuiet
say_all-AllQuiet P [] = tt
say_all-AllQuiet P (r ∷ rs) = (tt, say_all-AllQuiet P rs)

pub append-AllQuiet :
    (P : Text → Type 0) (es fs : List Effect)
    → AllQuiet P es
    → AllQuiet P fs
    → AllQuiet P (es ++ fs)
unfolding AllQuiet
append-AllQuiet P es fs h k = All-append (IsQuiet P) es fs h k

pub if-AllQuiet :
    (P : Text → Type 0) (b : Bool) (es fs : List Effect)
    → AllQuiet P es
    → AllQuiet P fs
    → AllQuiet P (if b then es else fs)
if-AllQuiet P true es fs h k = h
if-AllQuiet P false es fs h k = k

pub ruleset quiet =
    (nil-AllQuiet, say-AllQuiet, nolint-AllQuiet, say_all-AllQuiet, append-AllQuiet, if-AllQuiet)

-- Quiet effects come to their end.
pub run_effects-AllQuiet :
    (P : Text → Type 0) (f : Text) (es : List Effect) (w : World)
    → AllQuiet P es
    → (w' : World) × (run_effects f es w ≡ done w')
unfolding run_effects run_effect AllQuiet
run_effects-AllQuiet P f [] w h = (w, refl)
run_effects-AllQuiet P f (nolint raw n ∷ es) w (_, h) =
    run_effects-AllQuiet P f es (read_nolint f raw n w) h
run_effects-AllQuiet P f (say r ∷ es) w (_, h) = run_effects-AllQuiet P f es (error r w) h
run_effects-AllQuiet P f (raise ∷ es) w (bad, h) = absurd bad

-- The line has no NOLINT comment.
abbrev pub IsPlain : Text → Type 0
IsPlain raw = search_in nolint_pattern raw ≡ none

pub says : List Effect → List Report
says [] = []
says (say r ∷ es) = r ∷ says es
says (nolint raw n ∷ es) = says es
says (raise ∷ es) = says es

unread :
    (f raw : Text) (n : ℕ) (s : Suppressions)
    → IsPlain raw
    → parse_nolint_suppressions f raw n s ≡ (s, [])
unfolding parse_nolint_suppressions
unread f raw n s h = rw (h, parse_nolint_suppressions) refl

plain_nolint : (f raw : Text) (n : ℕ) (w : World) → IsPlain raw → read_nolint f raw n w ≡ w
unfolding read_nolint report_all
plain_nolint f raw n w h =
    ap (λ (r : Suppressions × List Report). report_all r.1 (record w { suppressions = r.0 }))
      (unread f raw n w.suppressions h)

-- Quiet effects that read no NOLINT comment only report.
pub run_effects-says :
    (f : Text) (es : List Effect) (w : World)
    → AllQuiet IsPlain es
    → run_effects f es w ≡ done (report_all (says es) w)
unfolding run_effects run_effect AllQuiet says report_all
run_effects-says f [] w h = refl
run_effects-says f (nolint raw n ∷ es) w (p, h) =
    ap (run_effects f es) (plain_nolint f raw n w p) ∙ run_effects-says f es w h
run_effects-says f (say r ∷ es) w (_, h) = run_effects-says f es (error r w) h
run_effects-says f (raise ∷ es) w (bad, h) = absurd bad
