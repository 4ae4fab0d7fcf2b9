-- ===== src/Lint/Effects/Grew.antt =====
-- What the effects of the checks of tools/scripts/cpplint.py leave of the globals.
use jp4agent.Prelude.{
  ℕ, ◌+◌, ◌≡◌, refl, sym, ap, ◌∙◌, List, [], ◌∷◌, ◌++◌, Text, length, length-append, arith,
  Bool-cases, inl, inr,
}
use mathlib.Core.List.{append_assoc}
use jp4agent.Lint.Report.{Report}
use jp4agent.Lint.State.{LintState, increment_error_count}
use jp4agent.Lint.Handler.{World, should_print_error, format_report, error, report_all}
use jp4agent.Lint.Suppress.{parse_nolint_suppressions}
use jp4agent.Lint.Effects.{
  Effect, nolint, say, raise, Outcome, done, raised, ◌>>=◌, read_nolint, run_effect, run_effects,
}

-- Lines were written in front of those that were there, as many as errors were counted, and the settings
-- of the handler are the same.
pub record Grew (w w' : World) : Type 0 where
  pub out : List Text
  pub written : w'.stderr ≡ out ++ w.stderr
  pub counted : w'.state.error_count ≡ w.state.error_count + length out
  pub filters : w'.state.filters ≡ w.state.filters
  pub verbosity : w'.state.verbose_level ≡ w.state.verbose_level
  pub format : w'.state.output_format ≡ w.state.output_format

-- Both ends of a run have the property.
abbrev pub Always : {A : Type 0} → (A → Type 0) → (World → Type 0) → Outcome A → Type 0
Always P Q (done a) = P a
Always P Q (raised w) = Q w

pub Grew-refl : (w : World) → Grew w w
Grew-refl w = record {
  out = [];
  written = refl;
  counted = omega arith;
  filters = refl;
  verbosity = refl;
  format = refl;
}

pub Grew-trans : (u v w : World) → Grew u v → Grew v w → Grew u w
Grew-trans u v w g h = record {
  out = h.out ++ g.out;
  written = h.written ∙ ap (λ s. h.out ++ s) g.written ∙ sym (append_assoc h.out g.out u.stderr);
  counted = omega (arith, g.counted, h.counted, length-append h.out g.out);
  filters = h.filters ∙ g.filters;
  verbosity = h.verbosity ∙ g.verbosity;
  format = h.format ∙ g.format;
}

increment-settings :
    (category : Text) (s : LintState)
    → ((increment_error_count category s).error_count ≡ s.error_count + 1)
      × ((increment_error_count category s).filters ≡ s.filters)
      × ((increment_error_count category s).verbose_level ≡ s.verbose_level)
      × ((increment_error_count category s).output_format ≡ s.output_format)
unfolding increment_error_count
increment-settings category s = ground arith

error-Grew : (r : Report) (w : World) → Grew w (error r w)
unfolding error
error-Grew r w = elim (Bool-cases (should_print_error w r.category r.confidence r.linenum)) [
  | inl e ↦
      let (counted, filters, verbosity, format) = increment-settings r.category w.state in
      rw (e, error)
        (record {
          out = format_report w.state.output_format r ∷ [];
          written = refl;
          counted = counted;
          filters = filters;
          verbosity = verbosity;
          format = format;
        })
  | inr e ↦ rw (e, error) (Grew-refl w)
]

pub report_all-Grew : (rs : List Report) (w : World) → Grew w (report_all rs w)
unfolding report_all
report_all-Grew [] w = Grew-refl w
report_all-Grew (r ∷ rs) w =
    Grew-trans w (error r w) (report_all rs (error r w)) (error-Grew r w)
      (report_all-Grew rs (error r w))

-- A change of the NOLINT comments is no change here.
pub from_same :
    (w u : World) → (w.state ≡ u.state) × (w.stderr ≡ u.stderr) → (v : World) → Grew u v → Grew w v
from_same w u (state, stderr) v g = record {
  out = g.out;
  written = g.written ∙ ap (λ s. g.out ++ s) (sym stderr);
  counted = g.counted ∙ ap (λ (s : LintState). s.error_count + length g.out) (sym state);
  filters = g.filters ∙ ap (λ (s : LintState). s.filters) (sym state);
  verbosity = g.verbosity ∙ ap (λ (s : LintState). s.verbose_level) (sym state);
  format = g.format ∙ ap (λ (s : LintState). s.output_format) (sym state);
}

read_nolint-Grew : (f raw : Text) (n : ℕ) (w : World) → Grew w (read_nolint f raw n w)
unfolding read_nolint
read_nolint-Grew f raw n w =
    let u = record w { suppressions = (parse_nolint_suppressions f raw n w.suppressions).0 } in
    let rs = (parse_nolint_suppressions f raw n w.suppressions).1 in
    from_same w u (refl, refl) (report_all rs u) (report_all-Grew rs u)

run_effect-Grew : (f : Text) (e : Effect) (w : World) → Always (Grew w) (Grew w) (run_effect f e w)
unfolding run_effect
run_effect-Grew f (nolint raw n) w = read_nolint-Grew f raw n w
run_effect-Grew f (say r) w = error-Grew r w
run_effect-Grew f raise w = Grew-refl w

-- What holds of a run from v on holds from u on, if v has grown from u.
pub Always-Grew :
    {B : Type 0} (to : B → World) (u v : World) (o : Outcome B)
    → Grew u v
    → Always (λ b. Grew v (to b)) (Grew v) o
    → Always (λ b. Grew u (to b)) (Grew u) o
Always-Grew to u v (done b) g p = Grew-trans u v (to b) g p
Always-Grew to u v (raised w) g p = Grew-trans u v w g p

-- A run goes on with one that grows, from the end of the first.
pub bind-Grew :
    {A B : Type 0} (at : A → World) (to : B → World) (w : World) (o : Outcome A) (k : A → Outcome B)
    → Always (λ a. Grew w (at a)) (Grew w) o
    → ((a : A) → Always (λ b. Grew (at a) (to b)) (Grew (at a)) (k a))
    → Always (λ b. Grew w (to b)) (Grew w) (o >>= k)
bind-Grew at to w (raised w') k g h = g
bind-Grew at to w (done a) k g h = Always-Grew to w (at a) (k a) g (h a)

pub run_effects-Grew :
    (f : Text) (es : List Effect) (w : World) → Always (Grew w) (Grew w) (run_effects f es w)
unfolding run_effects
run_effects-Grew f [] w = Grew-refl w
run_effects-Grew f (e ∷ es) w =
    bind-Grew (λ v. v) (λ v. v) w (run_effect f e w) (run_effects f es) (run_effect-Grew f e w)
      (λ v. run_effects-Grew f es v)
