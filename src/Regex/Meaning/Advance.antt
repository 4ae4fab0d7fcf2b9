-- ===== src/Regex/Meaning/Advance.antt =====
-- What a match of tools/scripts/cpplint.py has read: never more than the text.
use jp4agent.Prelude.{
  ℕ, suc, ◌+◌, ◌≤◌, List, ◌∷◌, ◌≡◌, refl, ap, ◌∙◌, sym, inl, inr, some, [], Text, length, arith,
  length-take, ◌-◌, Option-cases,
}
use jp4agent.Regex.{
  CharClass, Regex, eps, cls, seq, alt, star, star_lazy, group, line_start, line_end, boundary,
  ahead, not_ahead, Place, capture, Capture, between, run,
}
use jp4agent.Regex.Find.{group_of, group_or, Found, found, place_at, match_at, match}
use jp4agent.Regex.Meaning.Relation.{OneStep, Rounds, stop, round, Matches}
use jp4agent.Regex.Meaning.Decides.{run-Agrees}

pub one_shorter :
    {c : CharClass} {p q : Place} → OneStep c p q → length p.after ≡ suc (length q.after)
one_shorter o = ap length o.read

rounds_advance :
    {R : Place → Place → Type 0} {p q : Place}
    → ((s t : Place) → R s t → length t.after ≤ length s.after)
    → Rounds R p q
    → length q.after ≤ length p.after
rounds_advance h stop = omega arith
rounds_advance h (round {p} {q = u} r on rs) = omega (arith, h p u r, rounds_advance h rs)

-- What is left after a match is no longer than what was there before.
pub advances : (r : Regex) (p q : Place) → Matches r p q → length q.after ≤ length p.after
unfolding capture
advances eps p q e = omega (arith, ap (λ x. length x.after) e)
advances (cls c) p q o = omega (arith, one_shorter o)
advances (seq a b) p q (t, m, n) = omega (arith, advances a p t m, advances b t q n)
advances (alt a b) p q (inl m) = advances a p q m
advances (alt a b) p q (inr m) = advances b p q m
advances (star a) p q m = rounds_advance (advances a) m
advances (star_lazy a) p q m = rounds_advance (advances a) m
advances (group n a) p q (t, m, e) = omega (arith, advances a p t m, ap (λ x. length x.after) e)
advances line_start p q (_, e) = omega (arith, ap (λ x. length x.after) e)
advances line_end p q (_, e) = omega (arith, ap (λ x. length x.after) e)
advances boundary p q (_, e) = omega (arith, ap (λ x. length x.after) e)
advances (ahead a) p q (t, m, e) = omega (arith, ap (λ x. length x.after) e)
advances (not_ahead a) p q (e, _) = omega (arith, ap (λ x. length x.after) e)

some-injective : {A : Type 0} {a b : A} → some a ≡ some b → a ≡ b
some-injective e = cc

match-run :
    (r : Regex) (s : Text) (a : Place)
    → run r some (place_at [] s) ≡ some a
    → match r s ≡ some (found (place_at [] s) a)
unfolding match match_at
match-run r s a e = rw (e, match_at) refl

-- A match object is that of a match in the relation.
pub match_sound :
    (r : Regex) (s : Text) (m : Found)
    → match r s ≡ some m
    → (q : Place) × Matches r (place_at [] s) q × (m ≡ found (place_at [] s) q)
unfolding match match_at
match_sound r s m h = elim (Option-cases (run r some (place_at [] s))) [
  | inl e ↦ cc
  | inr (a, e) ↦
      let (q, matched, same) = (run-Agrees r).sound some (place_at [] s) a e in
      (
        q,
        matched,
        some-injective (sym h ∙ match-run r s a e)
            ∙ sym (ap (found (place_at [] s)) (some-injective same)),
      )
]

-- The text of a group that was captured is no longer than what was there when it began.
pub length-between : (p q : Place) → length (between p q) ≤ length p.after
unfolding between
length-between p q = omega (arith, length-take (length q.before - length p.before) p.after)

-- The number of characters before a place and after it.
abbrev pub size : Place → ℕ
size p = length p.before + length p.after

step_size : {c : CharClass} {p q : Place} → OneStep c p q → size q ≡ size p
step_size o = omega (arith, one_shorter o, ap (λ x. length x.before) o.moved)

rounds_size :
    {R : Place → Place → Type 0} {p q : Place}
    → ((s t : Place) → R s t → size t ≡ size s)
    → Rounds R p q
    → size q ≡ size p
rounds_size h stop = refl
rounds_size h (round {p} {q = u} r on rs) = rounds_size h rs ∙ h p u r

-- A match moves over the text and changes none of it.
same_size : (r : Regex) (p q : Place) → Matches r p q → size q ≡ size p
unfolding capture
same_size eps p q e = ap size e
same_size (cls c) p q o = step_size o
same_size (seq a b) p q (t, m, n) = same_size b t q n ∙ same_size a p t m
same_size (alt a b) p q (inl m) = same_size a p q m
same_size (alt a b) p q (inr m) = same_size b p q m
same_size (star a) p q m = rounds_size (same_size a) m
same_size (star_lazy a) p q m = rounds_size (same_size a) m
same_size (group n a) p q (t, m, e) = ap size e ∙ same_size a p t m
same_size line_start p q (_, e) = ap size e
same_size line_end p q (_, e) = ap size e
same_size boundary p q (_, e) = ap size e
same_size (ahead a) p q (t, m, e) = ap size e
same_size (not_ahead a) p q (e, _) = ap size e

-- The text of a group is what was read for it.
pub between_size :
    (r : Regex) (p q : Place)
    → Matches r p q
    → length (between p q) + length q.after ≡ length p.after
unfolding between
between_size r p q m = omega (
  arith,
  same_size r p q m,
  advances r p q m,
  length-take (length q.before - length p.before) p.after,
)

-- A character, or a star of them, captures nothing.
pub step_captures : {c : CharClass} {p q : Place} → OneStep c p q → q.captures ≡ p.captures
step_captures o = ap (λ x. x.captures) o.moved

pub rounds_captures :
    {c : CharClass} {p q : Place} → Rounds (OneStep c) p q → q.captures ≡ p.captures
rounds_captures stop = refl
rounds_captures (round r on rs) = rounds_captures rs ∙ step_captures r

-- A match object whose captures are those of three groups, in order.
pub three_groups :
    (m : Found) (i j k : ℕ) (t u v : Text) (rest : List Capture)
    → m.captures
      ≡ record { index = 3; start = i; text = t }
        ∷ record { index = 2; start = j; text = u }
        ∷ record { index = 1; start = k; text = v }
        ∷ rest
    → (group_or 3 m ≡ t) × (group_or 1 m ≡ v)
unfolding group_or group_of
three_groups m i j k t u v rest e = (rw e refl, rw e refl)
