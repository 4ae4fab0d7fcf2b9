-- ===== src/Regex/Meaning/Relation.antt =====
-- The relation, by recursion on the pattern: a sum for an alternative, steps for a star.
use jp4agent.Prelude.{ℕ, ◌≡◌, true, ◌⊎◌, ◌∷◌}
use jp4agent.Regex.{
  CharClass, in_class, Regex, eps, cls, seq, alt, star, star_lazy, group, line_start, line_end,
  boundary, ahead, not_ahead, Place, is_empty, at_end, at_boundary, capture, progress,
}

-- `q` is `p` with one character of the class read.
pub record OneStep (c : CharClass) (p q : Place) : Type 0 where
  pub char : ℕ
  pub accepted : in_class c char ≡ true
  pub read : p.after ≡ char ∷ q.after
  pub moved : q ≡ record p { before = char ∷ p.before; after = q.after }

-- Rounds of a star, each of which gets on.
pub data Rounds (R : Place → Place → Type 0) : Place → Place → Type 0 where
  stop : {p : Place} → Rounds R p p
  round : {p q t : Place} → R p q → progress p q ≡ true → Rounds R q t → Rounds R p t

abbrev pub Matches : Regex → Place → Place → Type 0
Matches eps p q = q ≡ p
Matches (cls c) p q = OneStep c p q
Matches (seq a b) p q = (t : Place) × Matches a p t × Matches b t q
Matches (alt a b) p q = Matches a p q ⊎ Matches b p q
Matches (star a) p q = Rounds (Matches a) p q
Matches (star_lazy a) p q = Rounds (Matches a) p q
Matches (group n a) p q = (t : Place) × Matches a p t × (q ≡ capture n p t)
Matches line_start p q = (is_empty p.before ≡ true) × (q ≡ p)
Matches line_end p q = (at_end p.after ≡ true) × (q ≡ p)
Matches boundary p q = (at_boundary p ≡ true) × (q ≡ p)
Matches (ahead a) p q = (t : Place) × Matches a p t × (q ≡ p)
Matches (not_ahead a) p q = (q ≡ p) × ((t : Place) → ¬ Matches a p t)
