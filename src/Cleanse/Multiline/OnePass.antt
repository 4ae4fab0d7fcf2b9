-- ===== src/Cleanse/Multiline/OnePass.antt =====
-- RemoveMultiLineComments of tools/scripts/cpplint.py is the one pass of `Sweep`.
use jp4agent.Prelude.{
  ℕ, zero, suc, ◌+◌, ◌<◌, ◌≡◌, refl, ap, sym, ◌∙◌, true, false, List, [], ◌∷◌, ◌++◌, inl, inr, Text,
  length, arith, length-append,
}
use mathlib.Core.List.{append_assoc}
use jp4agent.Cleanse.Multiline.{
  opens_comment, closes_comment, first_line, find_next_comment_start, remove_comments_from_range,
  remove_from, remove_multi_line_comments,
}
use jp4agent.Cleanse.Multiline.Sweep.{
  sweep, Fails, comments, sweep-outside, sweep-inside, some_closes-here, sweep-open,
}
use jp4agent.Cleanse.Multiline.Range.{cut_at, first_line-passes, clear-range}
use jp4agent.Cleanse.Multiline.Rounds.{
  Swept, round-comment, Swept-none, open_start, length-three, end_from, Swept-unclosed,
}

-- The lines of a comment: `c`, and the one that ends it.
abbrev Ended : List Text → List Text → Text → List Text → Type 0
Ended b c line d = (b ≡ c ++ line ∷ d) × Fails closes_comment c × (closes_comment line ≡ true)

length-comments : (m : List Text) → length (comments m) ≡ length m
length-comments [] = refl
length-comments (l ∷ m) = ap suc (length-comments m)

-- What the round leaves: the lines up to the end of the comment are done with.
cleared :
    (done a b c d : List Text) (line : Text)
    → b ≡ c ++ line ∷ d
    → remove_comments_from_range
        (done ++ (a ++ b))
        (length (done ++ a))
        (length (done ++ a) + length c + 1)
      ≡ (done ++ a ++ comments (c ++ line ∷ [])) ++ d
cleared done a b c d line e =
    let s = length (done ++ a) in
    let m = c ++ line ∷ [] in
    ap (λ lines. remove_comments_from_range lines s (s + length c + 1))
      (sym (append_assoc done a b) ∙ ap (◌++◌ (done ++ a)) (e ∙ sym (append_assoc c (line ∷ []) d)))
    ∙ clear-range (done ++ a) m d (s + length c + 1) (omega (arith, length-append c (line ∷ [])))
    ∙ sym (append_assoc (done ++ a) (comments m) d)

sweep-comment :
    (f : Text) (a b c d : List Text) (line : Text) (n : ℕ)
    → Fails opens_comment a
    → Ended b c line d
    → ((i : ℕ) → sweep f false b i ≡ sweep f true b i)
    → let m = c ++ line ∷ [] in
      let rest = sweep f false d (n + length a + length m) in
      sweep f false (a ++ b) n ≡ (a ++ (comments m ++ rest.0), rest.1)
sweep-comment f a b c d line n h (e, k, p) same =
    rw (sweep-outside f a b n h, same (n + length a), e, sweep-inside f c d line (n + length a) k p)
      refl

-- The lines that are done with, put together.
regroup : (done a m r : List Text) → done ++ a ++ m ++ r ≡ done ++ (a ++ (m ++ r))
regroup done a m r = append_assoc (done ++ a) m r ∙ append_assoc done a (m ++ r)

one_round :
    (f : Text) (fuel : ℕ) (done a b c d : List Text) (line : Text)
    → find_next_comment_start (done ++ (a ++ b)) (length done) ≡ length (done ++ a)
    → Ended b c line d
    → remove_from (suc fuel) f (done ++ (a ++ b)) (length done)
      ≡ remove_from fuel f
          (done ++ a ++ comments (c ++ line ∷ []) ++ d)
          (length (done ++ a ++ comments (c ++ line ∷ [])))
one_round f fuel done a b c d line begins (e, k, p) =
    let m = c ++ line ∷ [] in
    let s = length (done ++ a) in
    let all = length-three done a b in
    let size : length b ≡ length c + suc (length d) = ap length e ∙ length-append c (line ∷ d) in
    let start = length-append done a in
    let index : s + length c + 1 ≡ length (done ++ a ++ comments m) = omega (
      arith,
      length-append (done ++ a) (comments m),
      length-comments m,
      length-append c (line ∷ []),
    ) in
    let ends =
      end_from done a b
      ∙ ap (λ lines. first_line closes_comment lines s) e
      ∙ first_line-passes closes_comment c d line s k p in
    round-comment f fuel (done ++ (a ++ b)) (length done) s (s + length c) (omega arith) begins
      (omega arith) ends (omega arith)
    ∙ ap (λ lines. remove_from fuel f lines (s + length c + 1)) (cleared done a b c d line e)
    ∙ ap (remove_from fuel f (done ++ a ++ comments m ++ d)) index

Swept-comment :
    (f : Text) (fuel : ℕ) (done a b c d : List Text) (line : Text)
    → Fails opens_comment a
    → find_next_comment_start (done ++ (a ++ b)) (length done) ≡ length (done ++ a)
    → Ended b c line d
    → ((i : ℕ) → sweep f false b i ≡ sweep f true b i)
    → Swept f fuel (done ++ a ++ comments (c ++ line ∷ [])) d
    → Swept f (suc fuel) done (a ++ b)
unfolding Swept
Swept-comment f fuel done a b c d line h begins ended same later =
    let m = c ++ line ∷ [] in
    let index : length (done ++ a ++ comments m) ≡ length done + length a + length m =
      omega
        (arith, length-append (done ++ a) (comments m), length-append done a, length-comments m) in
    let S = sweep f false d (length done + length a + length m) in
    one_round f fuel done a b c d line begins ended
    ∙ later
    ∙ ap (λ n. (done ++ a ++ comments m ++ (sweep f false d n).0, (sweep f false d n).1)) index
    ∙ ap (λ lines. (lines, S.1)) (regroup done a (comments m) S.0)
    ∙ ap (λ r. (done ++ r.0, r.1)) (sym (sweep-comment f a b c d line (length done) h ended same))

swept : (f : Text) (fuel : ℕ) (done rest : List Text) → length rest < fuel → Swept f fuel done rest
swept f zero done rest lt = absurd (omega arith)
swept f (suc fuel) done rest lt = elim (cut_at opens_comment rest) [
  | inl h ↦ Swept-none f fuel done rest h
  | inr (a, o, b, e, h, opened) ↦ rw e (elim (cut_at closes_comment (o ∷ b)) [
    | inl k ↦ Swept-unclosed f fuel done a b o h opened k
    | inr (c, line, d, e', k, p) ↦
        Swept-comment f fuel done a (o ∷ b) c d line h (open_start done a b o h opened) (e', k, p)
          (λ i. sweep-open f o b i opened (rw e' (some_closes-here c d line p)))
          (swept f fuel (done ++ a ++ comments (c ++ line ∷ [])) d (
            omega (
              arith,
              ap length e ∙ length-append a (o ∷ b),
              ap length e' ∙ length-append c (line ∷ d),
            )))
  ])
]

-- RemoveMultiLineComments gives what one pass over the lines gives, whatever they are.
pub remove-sweep :
    (filename : Text) (lines : List Text)
    → remove_multi_line_comments filename lines ≡ sweep filename false lines 0
unfolding remove_multi_line_comments Swept
remove-sweep filename lines = swept filename (length lines + 1) [] lines (omega arith)
