-- ===== src/Cleanse/Multiline/Rounds.antt =====
-- One round of the loop of RemoveMultiLineComments in tools/scripts/cpplint.py.
use jp4agent.Prelude.{
  ℕ, suc, ◌+◌, ◌<◌, ◌≤◌, ◌≡◌, refl, ap, sym, ◌∙◌, true, false, List, [], ◌∷◌, ◌++◌, inl, inr, ltb,
  Text, length, arith, Bool-cases, length-append,
}
use mathlib.Core.List.{append_assoc}
use jp4agent.Cleanse.Multiline.{
  opens_comment, closes_comment, unclosed_comment, first_line, find_next_comment_start,
  find_next_comment_end, remove_comments_from_range, remove_from,
}
use jp4agent.Cleanse.Multiline.Sweep.{
  sweep, Fails, sweep-outside, some_closes-none, sweep-unclosed, sweep-none,
}
use jp4agent.Cleanse.Multiline.Range.{
  leb-false, leb-true, ltb-true, first_line-Fails, first_line-passes, drop-append,
}

-- The result of the loop, where the lines before `lineix` are done with.
unfoldable pub Swept : Text → ℕ → List Text → List Text → Type 0
Swept f fuel done rest =
    remove_from fuel f (done ++ rest) (length done)
    ≡ (done ++ (sweep f false rest (length done)).0, (sweep f false rest (length done)).1)

find_start :
    (done rest : List Text)
    → find_next_comment_start (done ++ rest) (length done)
      ≡ first_line opens_comment rest (length done)
unfolding find_next_comment_start
find_start done rest = rw (drop-append done rest) refl

find_end :
    (done rest : List Text) (n : ℕ)
    → n ≡ length done
    → find_next_comment_end (done ++ rest) n ≡ first_line closes_comment rest n
unfolding find_next_comment_end
find_end done rest n e = rw (e, drop-append done rest) refl

-- A round of the loop, by where the next comment begins and ends.
round-none :
    (f : Text) (fuel : ℕ) (lines : List Text) (i : ℕ)
    → length lines ≤ find_next_comment_start lines i
    → remove_from (suc fuel) f lines i ≡ (lines, [])
unfolding remove_from
round-none f fuel lines i h = elim (Bool-cases (ltb i (length lines))) [
  | inl e ↦ rw (e, leb-true (length lines) (find_next_comment_start lines i) h) refl
  | inr e ↦ rw e refl
]

round-unclosed :
    (f : Text) (fuel : ℕ) (lines : List Text) (i start : ℕ)
    → i < length lines
    → find_next_comment_start lines i ≡ start
    → start < length lines
    → length lines ≤ find_next_comment_end lines start
    → remove_from (suc fuel) f lines i ≡ (lines, unclosed_comment f start ∷ [])
unfolding remove_from
round-unclosed f fuel lines i start inside e before h =
    rw
      (
        e,
        ltb-true i (length lines) inside,
        leb-false (length lines) start before,
        leb-true (length lines) (find_next_comment_end lines start) h,
      )
      refl

pub round-comment :
    (f : Text) (fuel : ℕ) (lines : List Text) (i start end : ℕ)
    → i < length lines
    → find_next_comment_start lines i ≡ start
    → start < length lines
    → find_next_comment_end lines start ≡ end
    → end < length lines
    → remove_from (suc fuel) f lines i
      ≡ remove_from fuel f (remove_comments_from_range lines start (end + 1)) (end + 1)
unfolding remove_from
round-comment f fuel lines i start end inside e before e' h =
    rw
      (
        e,
        ltb-true i (length lines) inside,
        leb-false (length lines) start before,
        e',
        leb-false (length lines) end h,
      )
      refl

-- No comment begins any more.
pub Swept-none :
    (f : Text) (fuel : ℕ) (done rest : List Text)
    → Fails opens_comment rest
    → Swept f (suc fuel) done rest
unfolding Swept
Swept-none f fuel done rest h = rw (sweep-none f rest (length done) h) (
    round-none f fuel (done ++ rest) (length done) (
      rw (find_start done rest, first_line-Fails opens_comment rest (length done) h)
        (omega (arith, length-append done rest))))

pub open_start :
    (done a c : List Text) (line : Text)
    → Fails opens_comment a
    → opens_comment line ≡ true
    → find_next_comment_start (done ++ (a ++ line ∷ c)) (length done) ≡ length (done ++ a)
open_start done a c line h o =
    find_start done (a ++ line ∷ c)
    ∙ first_line-passes opens_comment a c line (length done) h o
    ∙ sym (length-append done a)

pub length-three :
    (done a m : List Text) → length (done ++ (a ++ m)) ≡ length done + (length a + length m)
length-three done a m = length-append done (a ++ m) ∙ ap (λ n. length done + n) (length-append a m)

pub end_from :
    (done a m : List Text)
    → find_next_comment_end (done ++ (a ++ m)) (length (done ++ a))
      ≡ first_line closes_comment m (length (done ++ a))
end_from done a m =
    ap (λ lines. find_next_comment_end lines (length (done ++ a))) (sym (append_assoc done a m))
    ∙ find_end (done ++ a) m (length (done ++ a)) refl

-- A comment begins behind `a` that no line ends.
pub Swept-unclosed :
    (f : Text) (fuel : ℕ) (done a c : List Text) (line : Text)
    → Fails opens_comment a
    → opens_comment line ≡ true
    → Fails closes_comment (line ∷ c)
    → Swept f (suc fuel) done (a ++ line ∷ c)
unfolding Swept
Swept-unclosed f fuel done a c line h o k =
    let lines = length-three done a (line ∷ c) in
    let start = length-append done a in
    round-unclosed f fuel (done ++ (a ++ line ∷ c)) (length done) (length (done ++ a)) (omega arith)
      (open_start done a c line h o) (omega arith)
      (rw
        (
          end_from done a (line ∷ c),
          first_line-Fails closes_comment (line ∷ c) (length (done ++ a)) k,
        )
        (omega arith))
    ∙ sym (
        rw
          (
            sweep-outside f a (line ∷ c) (length done) h,
            start,
            sweep-unclosed f line c (length done + length a) o (some_closes-none (line ∷ c) k),
          )
          refl)
