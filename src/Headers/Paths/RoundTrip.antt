-- ===== src/Headers/Paths/RoundTrip.antt =====
-- PathSplitToList of tools/scripts/cpplint.py takes a path apart that os.path.join has put together.
use jp4agent.Prelude.{
  ℕ, zero, suc, ◌+◌, ◌-◌, ◌≤◌, ◌<◌, ◌≡◌, ◌≢◌, refl, sym, ap, ◌∙◌, false, List, [], ◌∷◌, ◌++◌, ◌==◌,
  none, some, Text, All, arith, Bool-cases, inl, inr, length, take, length-append, text_eq,
  text_eq_iff, text_eq_refl, rstrip_char, lstrip_char, ends_with, starts_with, reverse, codes,
}
use jp4agent.Prelude.StrLaws.{Lacks}
use mathlib.Core.List.{append_assoc, reverse-append, reverse-reverse}
use mathlib.Core.Path.{subst}
use jp4agent.Style.Texts.{from_last}
use jp4agent.Headers.Paths.{
  cut_at_slash, all_slashes, split_path, join_path, join_onto, join_all, split_from,
  path_split_to_list,
}

-- The name of a file or directory: some text without a slash.
abbrev pub IsName : Text → Type 0
IsName s = (s ≢ []) × Lacks b'/' s

-- A path that ends with another character than a slash.
abbrev EndsNamed : Text → Type 0
EndsNamed p = (q : Text) × (c : ℕ) × (p ≡ q ++ c ∷ []) × ((c == b'/') ≡ false)

append-EndsNamed : (p s : Text) → EndsNamed s → EndsNamed (p ++ s)
append-EndsNamed p s (q, c, e, h) =
    (p ++ q, c, ap (λ t. p ++ t) e ∙ sym (append_assoc p q (c ∷ [])), h)

IsName-EndsNamed : (s : Text) → IsName s → EndsNamed s
IsName-EndsNamed [] h = absurd (h.0 refl)
IsName-EndsNamed (c ∷ []) (_, lacks) = ([], c, refl, lacks.0)
IsName-EndsNamed (c ∷ d ∷ s) (_, lacks) =
    append-EndsNamed (c ∷ []) (d ∷ s) (IsName-EndsNamed (d ∷ s) ((λ e. cc), lacks.1))

from_last-Lacks : (c : ℕ) (s : Text) → Lacks c s → from_last c s ≡ none
unfolding from_last
from_last-Lacks c [] _ = refl
from_last-Lacks c (x ∷ s) (h, lacks) = rw (from_last-Lacks c s lacks, from_last) (rw h refl)

from_last-append : (c : ℕ) (p s t : Text) → from_last c s ≡ some t → from_last c (p ++ s) ≡ some t
unfolding from_last
from_last-append c [] s t h = h
from_last-append c (x ∷ p) s t h = rw (from_last-append c p s t h, from_last) refl

from_last_slash : (p x : Text) → Lacks b'/' x → from_last b'/' (p ++ b'/' ∷ x) ≡ some (b'/' ∷ x)
unfolding from_last
from_last_slash p x lacks =
    from_last-append b'/' p (b'/' ∷ x) (b'/' ∷ x)
      (rw (from_last-Lacks b'/' x lacks, from_last) refl)

take_past : (p : Text) (c : ℕ) (t : Text) → take (suc (length p)) (p ++ c ∷ t) ≡ p ++ c ∷ []
take_past [] c [] = refl
take_past [] c (d ∷ t) = refl
take_past (x ∷ p) c t = ap (λ s. x ∷ s) (take_past p c t)

-- cut_at_slash finds the last slash.
cut-append : (p x : Text) → Lacks b'/' x → cut_at_slash (p ++ b'/' ∷ x) ≡ (p ++ b'/' ∷ [], x)
unfolding cut_at_slash
cut-append p x lacks =
    let before : length (p ++ b'/' ∷ x) - suc (length x) ≡ length p =
      omega (arith, length-append p (b'/' ∷ x)) in
    rw (from_last_slash p x lacks, cut_at_slash)
      (ap (λ (s : Text). (s, x))
        (ap (λ n. take (suc n) (p ++ b'/' ∷ x)) before ∙ take_past p b'/' x))

all_slashes-append :
    (q : Text) (c : ℕ) (t : Text) → (c == b'/') ≡ false → all_slashes (q ++ c ∷ t) ≡ false
unfolding all_slashes
all_slashes-append [] c t h = ground arith
all_slashes-append (x ∷ q) c t h = ground (arith, all_slashes-append q c t h)

lstrip_other : (c : ℕ) (s : Text) → (c == b'/') ≡ false → lstrip_char b'/' (b'/' ∷ c ∷ s) ≡ c ∷ s
unfolding lstrip_char
lstrip_other c s h = rw h refl

rstrip-append :
    (q : Text) (c : ℕ)
    → (c == b'/') ≡ false
    → rstrip_char b'/' ((q ++ c ∷ []) ++ b'/' ∷ []) ≡ q ++ c ∷ []
unfolding rstrip_char
rstrip-append q c h =
    ap (λ s. reverse (lstrip_char b'/' s))
      (reverse-append (q ++ c ∷ []) (b'/' ∷ []) ∙ ap (λ s. b'/' ∷ s) (reverse-append q (c ∷ [])))
    ∙ ap reverse (lstrip_other c (reverse q) h)
    ∙ ap reverse (sym (reverse-append q (c ∷ [])))
    ∙ reverse-reverse (q ++ c ∷ [])

-- The last component of a path, and what is before its slash.
split-append : (p x : Text) → EndsNamed p → Lacks b'/' x → split_path (p ++ b'/' ∷ x) ≡ (p, x)
unfolding split_path
split-append p x (q, c, e, h) lacks =
    let not_root : all_slashes (p ++ b'/' ∷ []) ≡ false =
      ap (λ s. all_slashes (s ++ b'/' ∷ [])) e
      ∙ ap all_slashes (append_assoc q (c ∷ []) (b'/' ∷ []))
      ∙ all_slashes-append q c (b'/' ∷ []) h in
    let bare : rstrip_char b'/' (p ++ b'/' ∷ []) ≡ p =
      ap (λ s. rstrip_char b'/' (s ++ b'/' ∷ [])) e ∙ rstrip-append q c h ∙ sym e in
    rw (cut-append p x lacks, split_path) (rw (not_root, bare) refl)

cut_name : (x : Text) → Lacks b'/' x → cut_at_slash x ≡ ([], x)
unfolding cut_at_slash
cut_name x lacks = rw (from_last-Lacks b'/' x lacks, cut_at_slash) refl

split_name : (x : Text) → Lacks b'/' x → split_path x ≡ ([], x)
unfolding split_path all_slashes
split_name x lacks = rw (cut_name x lacks, split_path) refl

-- Any fuel from the length of the path on gives these components.
abbrev SplitsTo : Text → List Text → Type 0
SplitsTo p names = (f : ℕ) → length p ≤ f → split_from f p ≡ names

text_ne : (s t : Text) → s ≢ t → text_eq s t ≡ false
text_ne s t h = elim (Bool-cases (text_eq s t)) [
  | inl e ↦ absurd (h ((text_eq_iff s t).0 e))
  | inr e ↦ e
]

IsName-SplitsTo : (x : Text) → IsName x → SplitsTo x (x ∷ [])
unfolding split_from
IsName-SplitsTo [] h f le = absurd (h.0 refl)
IsName-SplitsTo (c ∷ x) h zero le = absurd (omega arith)
IsName-SplitsTo (c ∷ x) h (suc f) le =
    rw (split_name (c ∷ x) h.1, split_from)
      (rw (text_ne [] (c ∷ x) (λ e. cc), text_eq_refl (c ∷ x)) refl)

slash-EndsNamed : (x : Text) → IsName x → EndsNamed (b'/' ∷ x)
slash-EndsNamed x h = append-EndsNamed (b'/' ∷ []) x (IsName-EndsNamed x h)

regroup : (x : Text) (xs names : List Text) → reverse xs ++ x ∷ names ≡ reverse (x ∷ xs) ++ names
regroup x xs names =
    sym (append_assoc (reverse xs) (x ∷ []) names)
    ∙ ap (λ l. l ++ names) (sym (reverse-append (x ∷ []) xs))

longer : (s t : Text) → length s < length t → s ≢ t
longer s t lt e = absurd (omega (arith, ap (λ (u : Text). length u) e))

SplitsTo-append :
    (p x : Text) (names : List Text)
    → EndsNamed p
    → IsName x
    → SplitsTo p names
    → SplitsTo (p ++ b'/' ∷ x) (x ∷ names)
unfolding split_from
SplitsTo-append p x names ends h splits zero le = absurd (omega (arith, length-append p (b'/' ∷ x)))
SplitsTo-append p x names ends h splits (suc f) le =
    let total : length (p ++ b'/' ∷ x) ≡ length p + suc (length x) = length-append p (b'/' ∷ x) in
    let not_head = text_ne p (p ++ b'/' ∷ x) (longer p (p ++ b'/' ∷ x) (omega (arith, total))) in
    let not_tail = text_ne x (p ++ b'/' ∷ x) (longer x (p ++ b'/' ∷ x) (omega (arith, total))) in
    rw (split-append p x ends h.1, split_from)
      (rw (not_head, not_tail) (ap (λ l. x ∷ l) (splits f (omega (arith, total)))))

snoc_nonempty : (q : Text) (c : ℕ) → (length (q ++ c ∷ []) == 0) ≡ false
snoc_nonempty [] c = refl
snoc_nonempty (x ∷ q) c = ground arith

snoc-ends_with :
    (q : Text) (c : ℕ) → (c == b'/') ≡ false → ends_with (q ++ c ∷ []) (codes "/") ≡ false
unfolding ends_with starts_with
snoc-ends_with q c h = ap (λ s. starts_with s (codes "/")) (reverse-append q (c ∷ [])) ∙ not_first
  where
    not_first : starts_with (c ∷ reverse q) (codes "/") ≡ false
    not_first = rw h refl

snoc-join_path :
    (q : Text) (c d : ℕ) (x : Text)
    → (c == b'/') ≡ false
    → (d == b'/') ≡ false
    → join_path (q ++ c ∷ []) (d ∷ x) ≡ (q ++ c ∷ []) ++ b'/' ∷ d ∷ x
unfolding join_path starts_with
snoc-join_path q c d x h k = rw (k, snoc_nonempty q c, snoc-ends_with q c h) refl

join_path-EndsNamed : (p x : Text) → EndsNamed p → IsName x → join_path p x ≡ p ++ b'/' ∷ x
join_path-EndsNamed p [] ends h = absurd (h.0 refl)
join_path-EndsNamed p (d ∷ x) (q, c, e, other) (_, lacks) =
    ap (λ s. join_path s (d ∷ x)) e
    ∙ snoc-join_path q c d x other lacks.0
    ∙ ap (λ (s : Text). s ++ b'/' ∷ d ∷ x) (sym e)

join_onto-SplitsTo :
    (p : Text) (xs names : List Text)
    → EndsNamed p
    → All IsName xs
    → SplitsTo p names
    → SplitsTo (join_onto p xs) (reverse xs ++ names)
unfolding join_onto
join_onto-SplitsTo p [] names ends _ splits = splits
join_onto-SplitsTo p (x ∷ xs) names ends (h, all) splits =
    let longer_path = append-EndsNamed p (b'/' ∷ x) (slash-EndsNamed x h) in
    let later =
      join_onto-SplitsTo (p ++ b'/' ∷ x) xs (x ∷ names) longer_path all
        (SplitsTo-append p x names ends h splits) in
    subst (λ l. SplitsTo (join_onto p (x ∷ xs)) l) (regroup x xs names)
      (subst (λ t. SplitsTo (join_onto t xs) (reverse xs ++ x ∷ names))
        (sym (join_path-EndsNamed p x ends h)) later)

-- PathSplitToList gives the names that os.path.join has joined, for one name or more.
pub path_split_to_list-join_all :
    (x : Text) (xs : List Text)
    → IsName x
    → All IsName xs
    → path_split_to_list (join_all (x ∷ xs)) ≡ x ∷ xs
unfolding path_split_to_list join_all
path_split_to_list-join_all x xs h all =
    ap reverse (
      join_onto-SplitsTo x xs (x ∷ []) (IsName-EndsNamed x h) all (IsName-SplitsTo x h)
        (length (join_onto x xs)) (omega arith))
    ∙ reverse-append (reverse xs) (x ∷ [])
    ∙ ap (λ l. x ∷ l) (reverse-reverse xs)
