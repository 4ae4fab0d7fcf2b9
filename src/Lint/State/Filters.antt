-- ===== src/Lint/State/Filters.antt =====
-- The list of filters: every one has a sign, so that the `assert` of `_ShouldPrintError` never fails.
use jp4agent.Prelude.{
  ℕ, ◌≡◌, ◌≢◌, refl, ◌↔◌, ◌⊎◌, inl, inr, true, starts_with, Option, none, some, List, [], ◌∷◌, ◌++◌,
  arith, Text, All, split_on,
}
use jp4agent.Lint.Categories.{default_filters}
use jp4agent.Lint.State.{
  LintState, initial_state, is_signed, first_unsigned, clean_filters, add_filters, set_filters,
  backup_filters, restore_filters,
}

-- A filter that begins with + or -.
abbrev pub Signed : Text → Type 0
Signed filt = (sign : ℕ) × (rest : Text) × (filt ≡ sign ∷ rest) × ((sign ≡ b'+') ⊎ (sign ≡ b'-'))

signed-cons : (c : ℕ) (t : Text) → is_signed (c ∷ t) ≡ true → (c ≡ b'+') ⊎ (c ≡ b'-')
unfolding is_signed starts_with
signed-cons c t h = ground arith

is_signed-Signed : (filt : Text) → Signed filt → is_signed filt ≡ true
unfolding is_signed starts_with
is_signed-Signed filt (c, t, e, inl plus) = rw (e, plus) refl
is_signed-Signed filt (c, t, e, inr minus) = rw (e, minus) refl

empty_sign : is_signed [] ≢ true
unfolding is_signed starts_with
empty_sign h = cc

is_signed_iff : (filt : Text) → (is_signed filt ≡ true) ↔ Signed filt
is_signed_iff [] = (λ h. absurd (empty_sign h), λ h. is_signed-Signed [] h)
is_signed_iff (c ∷ t) = (λ h. (c, t, refl, signed-cons c t h), λ h. is_signed-Signed (c ∷ t) h)

first_unsigned_iff : (fs : List Text) → (first_unsigned fs ≡ none) ↔ All Signed fs
unfolding first_unsigned
first_unsigned_iff [] = (λ h. tt, λ h. refl)
first_unsigned_iff (f ∷ fs) =
    let (to, from) = first_unsigned_iff fs in
    let (spell, sign) = is_signed_iff f in
    (λ h. (spell (ground arith), to (ground arith)), λ (h, hs). ground (arith, sign h, from hs))

pub add_filters_iff :
    (filters : Text) (s : LintState)
    → ((add_filters filters s).1 ≡ none) ↔ All Signed (add_filters filters s).0.filters
unfolding add_filters
add_filters_iff filters s =
    let all = s.filters ++ clean_filters (split_on filters b',') in
    let (to, from) = first_unsigned_iff all in
    (λ h. to (no_error _ (first_unsigned all) h), λ h. rw (from h, add_filters))
  where
    no_error :
        (f : Text → Text) (o : Option Text)
        → elim o [ none ↦ none | some t ↦ some (f t) ] ≡ none
        → o ≡ none
    no_error f none h = refl
    no_error f (some t) h = cc

-- Both lists hold filters with a sign only.
pub record AllSigned (s : LintState) : Type 0 where
  pub current : All Signed s.filters
  pub backup : All Signed s.filters_backup

AllSigned-initial : AllSigned initial_state
AllSigned-initial = record { current = minus; backup = minus }
  where
    minus : All Signed default_filters
    minus = ((b'-', _, refl, inr refl), tt)

AllSigned-add :
    (filters : Text) (s : LintState)
    → AllSigned s
    → (add_filters filters s).1 ≡ none
    → AllSigned (add_filters filters s).0
AllSigned-add filters s h e = record {
  current = (add_filters_iff filters s).0 e;
  backup = unfold add_filters in h.backup;
}

AllSigned-set :
    (filters : Text) (s : LintState)
    → AllSigned s
    → (set_filters filters s).1 ≡ none
    → AllSigned (set_filters filters s).0
unfolding set_filters
AllSigned-set filters s h e =
    AllSigned-add filters (record s { filters = default_filters })
      (record { current = AllSigned-initial.current; backup = h.backup }) e

AllSigned-backup : (s : LintState) → AllSigned s → AllSigned (backup_filters s)
unfolding backup_filters
AllSigned-backup s h = record { current = h.current; backup = h.current }

AllSigned-restore : (s : LintState) → AllSigned s → AllSigned (restore_filters s)
unfolding restore_filters
AllSigned-restore s h = record { current = h.backup; backup = h.backup }
