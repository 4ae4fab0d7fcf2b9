-- ===== src/Prelude/StrLaws.antt =====
-- Laws of the text operations of `Str`.
use Prim.Native.Nat.{ℕ}
use mathlib.Core.Path.{◌≡◌, refl}
use mathlib.Core.Logic.{inl, inr}
use mathlib.Core.Bool.{false}
use mathlib.Core.List.{[], ◌∷◌}
use native.Mathlib.Omega.{arith}
use jp4agent.Prelude.Tests.{◌==◌, Text, Bool-cases}
use jp4agent.Prelude.Lists.{All}
use jp4agent.Prelude.Str.{starts_with, replace_all, replace_from, lower, to_lower}

-- The character does not stand in the text.
abbrev pub Lacks : ℕ → Text → Type 0
Lacks d s = All (λ c. (c == d) ≡ false) s

starts_with-Lacks : (d c : ℕ) (s p : Text) → (c == d) ≡ false → starts_with (c ∷ s) (d ∷ p) ≡ false
unfolding starts_with
starts_with-Lacks d c s p h = ground arith

replace_from-Lacks : (d : ℕ) (p q s : Text) → Lacks d s → replace_from 0 s (d ∷ p) q ≡ s
unfolding replace_from
replace_from-Lacks d p q [] h = refl
replace_from-Lacks d p q (c ∷ s) h =
    ground (arith, starts_with-Lacks d c s p h.0, replace_from-Lacks d p q s h.1)

-- A text without the first character of the pattern stays as it is.
pub replace_all-Lacks : (d : ℕ) (p q s : Text) → Lacks d s → replace_all s (d ∷ p) q ≡ s
unfolding replace_all
replace_all-Lacks = replace_from-Lacks

replace_one-Lacks :
    (d e : ℕ) (s : Text) → (e == d) ≡ false → Lacks d (replace_from 0 s (d ∷ []) (e ∷ []))
unfolding replace_from starts_with
replace_one-Lacks d e [] h = tt
replace_one-Lacks d e (c ∷ s) h = elim (Bool-cases (c == d)) [
  | inl hit ↦ rw hit (h, replace_one-Lacks d e s h)
  | inr miss ↦ rw miss (miss, replace_one-Lacks d e s h)
]

-- Where one character is replaced by another, it is gone.
pub replace_all_one-Lacks :
    (d e : ℕ) (s : Text) → (e == d) ≡ false → Lacks d (replace_all s (d ∷ []) (e ∷ []))
unfolding replace_all
replace_all_one-Lacks = replace_one-Lacks

to_lower_idem : (c : ℕ) → to_lower (to_lower c) ≡ to_lower c
unfolding to_lower
to_lower_idem c = ground arith

pub lower_idem : (s : Text) → lower (lower s) ≡ lower s
unfolding lower
lower_idem [] = refl
lower_idem (c ∷ s) = cc (to_lower_idem c, lower_idem s)
