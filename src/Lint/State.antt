-- ===== src/Lint/State.antt =====
-- `_CppLintState` of tools/scripts/cpplint.py and the functions that pass on to the one instance of it.
-- The verbosity is a natural number (`--verbose=#` asks for 0-5).
pub mod Filters
pub mod Counts
use jp4agent.Prelude.{
  ℕ, suc, ◌+◌, Bool, true, false, ◌&&◌, ◌||◌, not, Option, none, some, List, [], ◌∷◌, ◌++◌,
  if◌then◌else◌, Text, codes, text_eq, mem_text, starts_with, split_on, byte_strip,
}
use jp4agent.Lint.Categories.{default_filters}

pub record LintState : Type 0 where
  pub verbose_level : ℕ
  pub error_count : ℕ
  pub filters : List Text
  pub filters_backup : List Text
  pub counting : Text
  pub errors_by_category : List (Text × ℕ)
  pub quiet : Bool
  pub output_format : Text

-- __init__
abbrev pub initial_state : LintState
initial_state = record {
  verbose_level = 1;
  error_count = 0;
  filters = default_filters;
  filters_backup = default_filters;
  counting = codes "total";
  errors_by_category = [];
  quiet = false;
  output_format = codes "emacs";
}

unfoldable set_output_format : Text → LintState → LintState
set_output_format format s = record s { output_format = format }

-- The setters of `quiet` and of the verbosity return what was set before.
unfoldable set_quiet : Bool → LintState → LintState × Bool
set_quiet quiet s = (record s { quiet = quiet }, s.quiet)

unfoldable set_verbose_level : ℕ → LintState → LintState × ℕ
set_verbose_level level s = (record s { verbose_level = level }, s.verbose_level)

unfoldable set_counting_style : Text → LintState → LintState
set_counting_style style s = record s { counting = style }

-- filt.startswith('+') or filt.startswith('-')
pub is_signed : Text → Bool
unfolding starts_with
is_signed filt = starts_with filt (codes "+") || starts_with filt (codes "-")

clean_filters : List Text → List Text
clean_filters [] = []
clean_filters (filt ∷ rest) =
    let clean = byte_strip filt in
    elim clean [ [] ↦ clean_filters rest | c ∷ f ↦ (c ∷ f) ∷ clean_filters rest ]

first_unsigned : List Text → Option Text
unfolding is_signed
first_unsigned [] = none
first_unsigned (filt ∷ rest) = if is_signed filt then first_unsigned rest else some filt

-- AddFilters. The second part is the text of the ValueError, if it raises one; the filters have been
-- added by then.
pub add_filters : Text → LintState → LintState × Option Text
unfolding clean_filters first_unsigned
add_filters filters s =
    let all = s.filters ++ clean_filters (split_on filters b',') in
    (
      record s { filters = all },
      elim (first_unsigned all) [
        | none ↦ none
        | some filt ↦ some (
            codes "Every filter in --filters must start with + or - ("
            ++ (filt ++ codes " does not)"))
      ],
    )

-- SetFilters
pub set_filters : Text → LintState → LintState × Option Text
unfolding add_filters
set_filters filters s = add_filters filters (record s { filters = default_filters })

pub backup_filters : LintState → LintState
backup_filters s = record s { filters_backup = s.filters }

pub restore_filters : LintState → LintState
restore_filters s = record s { filters = s.filters_backup }

pub reset_error_counts : LintState → LintState
reset_error_counts s = record s { error_count = 0; errors_by_category = [] }

-- `counts[category] += 1`, from 0 for a new category
pub bump : Text → List (Text × ℕ) → List (Text × ℕ)
bump category [] = (category, 1) ∷ []
bump category ((c, n) ∷ rest) =
    if text_eq c category then (c, n + 1) ∷ rest else (c, n) ∷ bump category rest

-- category.split('/')[0]
first_field : List Text → Text
first_field [] = []
first_field (f ∷ _) = f

pub top_level : Text → Text
unfolding first_field
top_level category = first_field (split_on category b'/')

-- IncrementErrorCount
unfoldable pub increment_error_count : Text → LintState → LintState
unfolding bump top_level
increment_error_count category s =
    let counted = record s { error_count = s.error_count + 1 } in
    if mem_text s.counting (codes "toplevel" ∷ codes "detailed" ∷ [])
    then record counted {
      errors_by_category =
          bump
            (if not (text_eq s.counting (codes "detailed")) then top_level category else category)
            s.errors_by_category;
    }
    else counted
