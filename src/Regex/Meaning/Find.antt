-- ===== src/Regex/Meaning/Find.antt =====
-- Search of tools/scripts/cpplint.py against the relation of `Relation`.
use jp4agent.Prelude.{
  ℕ, ◌≡◌, refl, ap, ◌↔◌, inl, inr, true, some, [], ◌∷◌, ◌++◌, arith, is_some, Text, Option-cases,
}
use jp4agent.Regex.{Regex, Place, run}
use jp4agent.Regex.Find.{place_at, match_at, search_from, search_in, searches}
use jp4agent.Regex.Meaning.Relation.{Matches}
use jp4agent.Regex.Meaning.Decides.{run-Agrees, is_some→some}

-- There is a match that begins at the place.
abbrev pub MatchesAt : Regex → Place → Type 0
MatchesAt r p = (q : Place) × Matches r p q

match_at_iff : (r : Regex) (p : Place) → (is_some (match_at r p) ≡ true) ↔ MatchesAt r p
unfolding match_at run
match_at_iff r p = (to, from)
  where
    agrees : (h : is_some (run r some p) ≡ true) → MatchesAt r p
    agrees h =
        let (a, e) = is_some→some (run r some p) h in
        let (q, m, g) = (run-Agrees r).sound some p a e in (q, m)

    to : is_some (match_at r p) ≡ true → MatchesAt r p
    to h = agrees (ground arith)

    from : MatchesAt r p → is_some (match_at r p) ≡ true
    from (q, m) = let seen = (run-Agrees r).complete some p q m refl in ground arith

-- `a`, last character first, before `before`.
abbrev pub onto : Text → Text → Text
onto [] before = before
onto (c ∷ a) before = onto a (c ∷ before)

-- There is a match that begins behind some part `a` of the text.
abbrev pub MatchesIn : Regex → Text → Text → Type 0
MatchesIn r before s =
    (a : Text) × (b : Text) × (s ≡ a ++ b) × MatchesAt r (place_at (onto a before) b)

search_from→MatchesIn :
    (r : Regex) (before s : Text) → is_some (search_from r before s) ≡ true → MatchesIn r before s
unfolding search_from
search_from→MatchesIn r before [] h = ([], [], refl, (match_at_iff r (place_at before [])).0 h)
search_from→MatchesIn r before (c ∷ s) h =
    elim (Option-cases (match_at r (place_at before (c ∷ s)))) [
      | inr (m, e) ↦ ([], c ∷ s, refl, (match_at_iff r (place_at before (c ∷ s))).0 (ap is_some e))
      | inl e ↦
          let (a, b, cut, m) = search_from→MatchesIn r (c ∷ before) s (ground arith) in
          (c ∷ a, b, ap (◌∷◌ c) cut, m)
    ]

search_from-here :
    (r : Regex) (before s : Text)
    → MatchesAt r (place_at before s)
    → is_some (search_from r before s) ≡ true
unfolding search_from
search_from-here r before [] m = (match_at_iff r (place_at before [])).1 m
search_from-here r before (c ∷ s) m =
    let seen = (match_at_iff r (place_at before (c ∷ s))).1 m in ground arith

search_from-later :
    (r : Regex) (c : ℕ) (before s : Text)
    → is_some (search_from r (c ∷ before) s) ≡ true
    → is_some (search_from r before (c ∷ s)) ≡ true
unfolding search_from
search_from-later r c before s h = ground arith

MatchesIn→search_from :
    (r : Regex) (a b before s : Text)
    → s ≡ a ++ b
    → MatchesAt r (place_at (onto a before) b)
    → is_some (search_from r before s) ≡ true
MatchesIn→search_from r [] b before s e m = rw e (search_from-here r before b m)
MatchesIn→search_from r (c ∷ a) b before s e m = rw e (
    search_from-later r c before (a ++ b)
      (MatchesIn→search_from r a b (c ∷ before) (a ++ b) refl m))

-- Search(pattern, s) gives a match object exactly when the pattern matches at some place in s.
pub searches_iff : (r : Regex) (s : Text) → (searches r s ≡ true) ↔ MatchesIn r [] s
unfolding searches search_in
searches_iff r s = (search_from→MatchesIn r [] s, λ m. MatchesIn→search_from r m.0 m.1 [] s m.2 m.3)
