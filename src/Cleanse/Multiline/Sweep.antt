-- ===== src/Cleanse/Multiline/Sweep.antt =====
-- RemoveMultiLineComments of tools/scripts/cpplint.py in one pass over the lines, which knows whether it is
-- inside a comment.
use jp4agent.Prelude.{
  ℕ, suc, ◌+◌, ◌≡◌, refl, Bool, true, false, ◌||◌, not, List, [], ◌∷◌, ◌++◌, if◌then◌else◌, Text,
  codes, All, length, arith, map,
}
use jp4agent.Lint.Report.{Report}
use jp4agent.Cleanse.Multiline.{opens_comment, closes_comment, unclosed_comment}

-- Does some line end a comment?
pub some_closes : List Text → Bool
some_closes [] = false
some_closes (line ∷ lines) = closes_comment line || some_closes lines

-- Outside, a comment that some line ends is begun, and one that none ends is reported and stays, with
-- all behind it. Inside, every line is a comment up to the one that ends it.
pub sweep : Text → Bool → List Text → ℕ → List Text × List Report
sweep filename inside [] i = ([], [])
sweep filename true (line ∷ lines) i =
    let (rest, reports) = sweep filename (not (closes_comment line)) lines (i + 1) in
    (codes "/**/" ∷ rest, reports)
sweep filename false (line ∷ lines) i =
    let (outside, later) = sweep filename false lines (i + 1) in
    let (rest, reports) = sweep filename (not (closes_comment line)) lines (i + 1) in
    if opens_comment line
    then (if some_closes (line ∷ lines)
        then (codes "/**/" ∷ rest, reports)
        else (line ∷ lines, unclosed_comment filename i ∷ []))
    else (line ∷ outside, later)

abbrev pub Fails : (Text → Bool) → List Text → Type 0
Fails test = All (λ line. test line ≡ false)

abbrev pub comments : List Text → List Text
comments = map (λ line. codes "/**/")

pub plus_zero : (i : ℕ) → i + 0 ≡ i
plus_zero i = omega arith

plus_suc : (i n : ℕ) → i + 1 + n ≡ i + suc n
plus_suc i n = omega arith

pub sweep-outside :
    (f : Text) (a b : List Text) (i : ℕ)
    → Fails opens_comment a
    → sweep f false (a ++ b) i
      ≡ (a ++ (sweep f false b (i + length a)).0, (sweep f false b (i + length a)).1)
unfolding sweep
sweep-outside f [] b i h = rw (plus_zero i) refl
sweep-outside f (l ∷ a) b i (e, h) =
    rw (e, sweep-outside f a b (i + 1) h, plus_suc i (length a)) refl

pub sweep-inside :
    (f : Text) (c d : List Text) (line : Text) (i : ℕ)
    → Fails closes_comment c
    → closes_comment line ≡ true
    → sweep f true (c ++ line ∷ d) i ≡ (
      comments (c ++ line ∷ []) ++ (sweep f false d (i + length (c ++ line ∷ []))).0,
      (sweep f false d (i + length (c ++ line ∷ []))).1,
    )
unfolding sweep
sweep-inside f [] d line i h e = rw e refl
sweep-inside f (l ∷ c) d line i (n, h) e =
    rw (n, sweep-inside f c d line (i + 1) h e, plus_suc i (length (c ++ line ∷ []))) refl

pub some_closes-here :
    (c d : List Text) (line : Text)
    → closes_comment line ≡ true
    → some_closes (c ++ line ∷ d) ≡ true
unfolding some_closes
some_closes-here [] d line e = ground arith
some_closes-here (l ∷ c) d line e = ground (arith, some_closes-here c d line e)

pub some_closes-none : (c : List Text) → Fails closes_comment c → some_closes c ≡ false
unfolding some_closes
some_closes-none [] h = refl
some_closes-none (l ∷ c) (e, h) = ground (arith, some_closes-none c h)

pub sweep-open :
    (f line : Text) (lines : List Text) (i : ℕ)
    → opens_comment line ≡ true
    → some_closes (line ∷ lines) ≡ true
    → sweep f false (line ∷ lines) i ≡ sweep f true (line ∷ lines) i
unfolding sweep
sweep-open f line lines i opened closed = rw (opened, closed) refl

pub sweep-unclosed :
    (f line : Text) (lines : List Text) (i : ℕ)
    → opens_comment line ≡ true
    → some_closes (line ∷ lines) ≡ false
    → sweep f false (line ∷ lines) i ≡ (line ∷ lines, unclosed_comment f i ∷ [])
unfolding sweep
sweep-unclosed f line lines i opened closed = rw (opened, closed) refl

pub sweep-none :
    (f : Text) (a : List Text) (i : ℕ) → Fails opens_comment a → sweep f false a i ≡ (a, [])
unfolding sweep
sweep-none f [] i h = refl
sweep-none f (l ∷ a) i (e, h) = rw (e, sweep-none f a (i + 1) h) refl
