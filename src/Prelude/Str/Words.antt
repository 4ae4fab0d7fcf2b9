-- ===== src/Prelude/Str/Words.antt =====
-- The words of a text.
use Prim.Native.Nat.{ℕ}
use mathlib.Core.Path.{ap}
use mathlib.Core.Logic.{◌≢◌}
use mathlib.Core.Bool.{Bool, true, false}
use mathlib.Core.List.{List, [], ◌∷◌, reverse}
use native.Mathlib.Omega.{arith}
use jp4agent.Prelude.Tests.{Text, if◌then◌else◌}
use jp4agent.Prelude.Lists.{All, length, length-reverse}
use jp4agent.Prelude.Str.{flush, words_onto, words, is_blank_char}

abbrev pub IsNonempty : Text → Type 0
IsNonempty s = s ≢ []

reverse-IsNonempty : (c : ℕ) (s : Text) → IsNonempty (reverse (c ∷ s))
reverse-IsNonempty c s e = omega (arith, ap length e, length-reverse (c ∷ s))

flush-IsNonempty :
    (word : Text) (ws : List Text) → All IsNonempty ws → All IsNonempty (flush word ws)
unfolding flush
flush-IsNonempty [] ws all = all
flush-IsNonempty (c ∷ word) ws all = (reverse-IsNonempty c word, all)

if-IsNonempty :
    (b : Bool) (us vs : List Text)
    → All IsNonempty us
    → All IsNonempty vs
    → All IsNonempty (if b then us else vs)
if-IsNonempty true us vs h k = h
if-IsNonempty false us vs h k = k

words_onto-IsNonempty :
    (blank : ℕ → Bool) (word s : Text) → All IsNonempty (words_onto blank word s)
unfolding words_onto
words_onto-IsNonempty blank word [] = flush-IsNonempty word [] tt
words_onto-IsNonempty blank word (c ∷ s) =
    if-IsNonempty (blank c) (flush word (words_onto blank [] s)) (words_onto blank (c ∷ word) s)
      (flush-IsNonempty word (words_onto blank [] s) (words_onto-IsNonempty blank [] s))
      (words_onto-IsNonempty blank (c ∷ word) s)

-- No word is empty.
pub words-IsNonempty : (s : Text) → All IsNonempty (words s)
unfolding words
words-IsNonempty s = words_onto-IsNonempty is_blank_char [] s
