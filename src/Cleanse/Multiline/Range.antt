-- ===== src/Cleanse/Multiline/Range.antt =====
-- The searches of RemoveMultiLineComments in tools/scripts/cpplint.py, and the range that it clears.
use jp4agent.Prelude.{
  ℕ, suc, ◌+◌, ◌<◌, ◌≤◌, ◌≡◌, refl, ap, ◌∙◌, Bool, true, false, List, [], ◌∷◌, ◌++◌, ◌⊎◌, inl, inr,
  ltb, leb, Text, length, drop, arith, Bool-cases,
}
use jp4agent.Cleanse.Multiline.{first_line, clear_from, remove_comments_from_range}
use jp4agent.Cleanse.Multiline.Sweep.{Fails, comments, plus_zero}

-- A list up to the first line that passes the test, if there is one.
abbrev CutAt : (Text → Bool) → List Text → Type 0
CutAt test lines =
    Fails test lines
    ⊎ ((a : List Text) × (line : Text) × (b : List Text) × (lines ≡ a ++ line ∷ b)
        × Fails test a
        × (test line ≡ true))

pub cut_at : (test : Text → Bool) (lines : List Text) → CutAt test lines
cut_at test [] = inl tt
cut_at test (line ∷ lines) = elim (Bool-cases (test line)) [
  | inl e ↦ inr ([], line, lines, refl, tt, e)
  | inr e ↦ elim (cut_at test lines) [
    | inl h ↦ inl (e, h)
    | inr (a, l, b, cut, h, p) ↦ inr (line ∷ a, l, b, ap (◌∷◌ line) cut, (e, h), p)
  ]
]

suc_plus : (i n : ℕ) → suc i + n ≡ i + suc n
suc_plus i n = omega arith

pub leb-false : (b i : ℕ) → i < b → leb b i ≡ false
leb-false b i h = ground arith

pub leb-true : (b i : ℕ) → b ≤ i → leb b i ≡ true
leb-true b i h = ground arith

ltb-false : (i e : ℕ) → e ≤ i → ltb i e ≡ false
ltb-false i e h = ground arith

pub ltb-true : (i e : ℕ) → i < e → ltb i e ≡ true
ltb-true i e h = ground arith

pub first_line-Fails :
    (test : Text → Bool) (a : List Text) (i : ℕ) → Fails test a → first_line test a i ≡ i + length a
unfolding first_line
first_line-Fails test [] i h = omega arith
first_line-Fails test (l ∷ a) i (e, h) = rw (e, first_line-Fails test a (suc i) h) (omega arith)

pub first_line-passes :
    (test : Text → Bool) (a b : List Text) (line : Text) (i : ℕ)
    → Fails test a
    → test line ≡ true
    → first_line test (a ++ line ∷ b) i ≡ i + length a
unfolding first_line
first_line-passes test [] b line i h e = rw e (omega arith)
first_line-passes test (l ∷ a) b line i (n, h) e =
    rw (n, first_line-passes test a b line (suc i) h e) (omega arith)

pub drop-append : (p r : List Text) → drop (length p) (p ++ r) ≡ r
drop-append [] r = refl
drop-append (x ∷ p) r = drop-append p r

clear-before :
    (p r : List Text) (i b e : ℕ)
    → i + length p ≤ b
    → clear_from i (p ++ r) b e ≡ p ++ clear_from (i + length p) r b e
unfolding clear_from
clear-before [] r i b e h = rw (plus_zero i) refl
clear-before (x ∷ p) r i b e h =
    rw
      (
        leb-false b i (omega arith),
        clear-before p r (suc i) b e (omega arith),
        suc_plus i (length p),
      )
      refl

clear-in :
    (m r : List Text) (i b e : ℕ)
    → b ≤ i
    → i + length m ≤ e
    → clear_from i (m ++ r) b e ≡ comments m ++ clear_from (i + length m) r b e
unfolding clear_from
clear-in [] r i b e h k = rw (plus_zero i) refl
clear-in (x ∷ m) r i b e h k =
    rw
      (
        leb-true b i h,
        ltb-true i e (omega arith),
        clear-in m r (suc i) b e (omega arith) (omega arith),
        suc_plus i (length m),
      )
      refl

clear-after : (r : List Text) (i b e : ℕ) → e ≤ i → clear_from i r b e ≡ r
unfolding clear_from
clear-after [] i b e h = refl
clear-after (x ∷ r) i b e h = elim (Bool-cases (leb b i)) [
  | inl c ↦ rw (c, ltb-false i e h, clear-after r (suc i) b e (omega arith)) refl
  | inr c ↦ rw (c, clear-after r (suc i) b e (omega arith)) refl
]

-- Clearing the range of `m` makes every line of it a comment.
pub clear-range :
    (p m r : List Text) (e : ℕ)
    → e ≡ length p + length m
    → remove_comments_from_range (p ++ (m ++ r)) (length p) e ≡ p ++ (comments m ++ r)
unfolding remove_comments_from_range
clear-range p m r e h =
    clear-before p (m ++ r) 0 (length p) e (omega arith)
    ∙ ap (◌++◌ p) (
        clear-in m r (0 + length p) (length p) e (omega arith) (omega arith)
        ∙ ap (◌++◌ (comments m))
            (clear-after r (0 + length p + length m) (length p) e (omega arith)))
