-- ===== src/Naming/Underscores.antt =====
-- The names that the checks JuniperCheck* of tools/scripts/cpplint.py report for their underscores.
use jp4agent.Prelude.{
  ℕ, zero, suc, ◌≡◌, refl, ap, sym, ◌∙◌, ◌↔◌, Bool, true, ◌&&◌, ◌||◌, [], ◌∷◌, ◌++◌, ==_iff, leb,
  Text, arith,
}
use jp4agent.Regex.{CharClass, one, range, either, in_class, Place, progress}
use jp4agent.Regex.Find.{place_at, searches}
use jp4agent.Regex.Meaning.Relation.{OneStep, Rounds, stop, round, Matches}
use jp4agent.Regex.Meaning.Find.{onto, MatchesAt, searches_iff}
use jp4agent.Naming.Names.{underscore_pattern}

-- A letter or a digit.
pub is_alnum : ℕ → Bool
is_alnum c =
    (leb b'a' c && leb c b'z') || ((leb b'A' c && leb c b'Z') || (leb b'0' c && leb c b'9'))

abbrev pub underscores : ℕ → Text
underscores zero = []
underscores (suc n) = b'_' ∷ underscores n

-- Somewhere in the name, underscores stand between two letters or digits.
abbrev pub HasInnerUnderscore : Text → Type 0
HasInnerUnderscore s =
    (a : Text) × (c : ℕ) × (n : ℕ) × (d : ℕ) × (b : Text) × (s
      ≡ a ++ c ∷ b'_' ∷ (underscores n ++ d ∷ b))
    × (is_alnum c ≡ true)
    × (is_alnum d ≡ true)

abbrev alnum_class : CharClass
alnum_class = either (range b'a' b'z') (either (range b'A' b'Z') (range b'0' b'9'))

in_alnum : (c : ℕ) → in_class alnum_class c ≡ is_alnum c
unfolding in_class is_alnum
in_alnum c = refl

underscore_read : {p q : Place} → OneStep (one b'_') p q → p.after ≡ b'_' ∷ q.after
unfolding in_class
underscore_read {q} o = o.read ∙ ap (λ c. c ∷ q.after) ((==_iff o.char b'_').0 o.accepted)

rounds_read :
    {p q : Place} → Rounds (OneStep (one b'_')) p q → (n : ℕ) × (p.after ≡ underscores n ++ q.after)
rounds_read stop = (0, refl)
rounds_read (round o progressed r) =
    let (n, e) = rounds_read r in (suc n, underscore_read o ∙ ap (◌∷◌ b'_') e)

-- What the pattern reads.
Matches→text :
    (p q : Place)
    → Matches underscore_pattern p q
    → (c : ℕ) × (n : ℕ) × (d : ℕ) × (p.after ≡ c ∷ b'_' ∷ (underscores n ++ d ∷ q.after))
      × (is_alnum c ≡ true)
      × (is_alnum d ≡ true)
Matches→text p q (t, first, (v, (u, under, more), last)) =
    let (n, e) = rounds_read more in
    (
      first.char,
      n,
      last.char,
      first.read
          ∙ ap (◌∷◌ first.char)
              (underscore_read under ∙ ap (◌∷◌ b'_') (e ∙ ap (◌++◌ (underscores n)) last.read)),
      sym (in_alnum first.char) ∙ first.accepted,
      sym (in_alnum last.char) ∙ last.accepted,
    )

abbrev place : Text → Text → Place
place before after = record { before = before; after = after; captures = [] }

step_here :
    (k : CharClass) (x : ℕ) (before s : Text)
    → in_class k x ≡ true
    → OneStep k (place before (x ∷ s)) (place (x ∷ before) s)
step_here k x before s e = record { char = x; accepted = e; read = refl; moved = refl }

rounds_here :
    (n : ℕ) (before s : Text)
    → Rounds
        (OneStep (one b'_'))
        (place before (underscores n ++ s))
        (place (onto (underscores n) before) s)
unfolding progress in_class
rounds_here zero before s = stop
rounds_here (suc n) before s =
    round (step_here (one b'_') b'_' before (underscores n ++ s) refl) (ground arith)
      (rounds_here n (b'_' ∷ before) s)

text→Matches :
    (before : Text) (c n d : ℕ) (b : Text)
    → is_alnum c ≡ true
    → is_alnum d ≡ true
    → MatchesAt underscore_pattern (place before (c ∷ b'_' ∷ (underscores n ++ d ∷ b)))
unfolding in_class
text→Matches before c n d b first last =
    let after_run = onto (underscores n) (b'_' ∷ c ∷ before) in
    (
      place (d ∷ after_run) b,
      (
        place (c ∷ before) (b'_' ∷ (underscores n ++ d ∷ b)),
        step_here alnum_class c before _ (in_alnum c ∙ first),
        (
          place after_run (d ∷ b),
          (
            place (b'_' ∷ c ∷ before) (underscores n ++ d ∷ b),
            step_here (one b'_') b'_' (c ∷ before) _ refl,
            rounds_here n (b'_' ∷ c ∷ before) (d ∷ b),
          ),
          step_here alnum_class d after_run b (in_alnum d ∙ last),
        ),
      ),
    )

-- A name is searched with success for an underscore between letters exactly if it has one.
pub underscore_iff :
    (name : Text) → (searches underscore_pattern name ≡ true) ↔ HasInnerUnderscore name
unfolding place_at
underscore_iff name =
    let (to, from) = searches_iff underscore_pattern name in
    (
      λ h.
          let (a, b, cut, (q, m)) = to h in
          let (c, n, d, e, first, last) = Matches→text (place (onto a []) b) q m in
          (a, c, n, d, q.after, cut ∙ ap (◌++◌ a) e, first, last),
      λ (a, c, n, d, b, cut, first, last). from (
        a,
        c ∷ b'_' ∷ (underscores n ++ d ∷ b),
        cut,
        text→Matches (onto a []) c n d b first last,
      ),
    )
