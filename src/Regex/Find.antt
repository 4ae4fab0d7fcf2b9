-- ===== src/Regex/Find.antt =====
-- Match, Search and ReplaceAll of tools/scripts/cpplint.py, and the match objects that they return.
-- The cache of compiled patterns does not show in the results and is not modelled.
use jp4agent.Prelude.{
  ℕ, zero, suc, ◌-◌, Bool, Option, none, some, List, [], ◌∷◌, ◌++◌, ◌==◌, if◌then◌else◌, is_some,
  Text, reverse, length,
}
use jp4agent.Regex.{Regex, Capture, Place, run, between}

-- A match object.
pub record Found : Type 0 where
  pub start : ℕ
  pub end : ℕ
  pub text : Text
  pub rest : Text
  pub captures : List Capture

unfoldable pub place_at : Text → Text → Place
place_at before after = record { before = before; after = after; captures = [] }

unfoldable pub found : Place → Place → Found
unfolding between
found p q = record {
  start = length p.before;
  end = length q.before;
  text = between p q;
  rest = q.after;
  captures = q.captures;
}

unfoldable pub match_at : Regex → Place → Option Found
unfolding run found
match_at r p = elim (run r some p) [ none ↦ none | some q ↦ some (found p q) ]

-- Match(pattern, s)
unfoldable pub match : Regex → Text → Option Found
unfolding match_at place_at
match r s = match_at r (place_at [] s)

unfoldable pub search_from : Regex → Text → Text → Option Found
search_from r before [] = match_at r (place_at before [])
search_from r before (c ∷ s) = elim (match_at r (place_at before (c ∷ s))) [
  | some m ↦ some m
  | none ↦ search_from r (c ∷ before) s
]

-- Search(pattern, s)
unfoldable pub search_in : Regex → Text → Option Found
unfolding search_from match_at place_at
search_in r s = search_from r [] s

unfoldable pub matches : Regex → Text → Bool
unfolding match
matches r s = is_some (match r s)

unfoldable pub searches : Regex → Text → Bool
unfolding search_in
searches r s = is_some (search_in r s)

find_capture : ℕ → List Capture → Option Capture
find_capture n [] = none
find_capture n (c ∷ cs) = if c.index == n then some c else find_capture n cs

-- m.group(n), with `none` for a group that took no part
unfoldable pub group_of : ℕ → Found → Option Text
unfolding find_capture
group_of n m = elim (find_capture n m.captures) [ none ↦ none | some c ↦ some c.text ]

-- m.group(n) of a group that always takes part, or `m.group(n) or ''`
unfoldable pub group_or : ℕ → Found → Text
unfolding group_of
group_or n m = elim (group_of n m) [ none ↦ [] | some t ↦ t ]

-- m.start(n), with 0 for a group that took no part
unfoldable pub group_start : ℕ → Found → ℕ
unfolding find_capture
group_start n m = elim (find_capture n m.captures) [ none ↦ 0 | some c ↦ c.start ]

-- ReplaceAll(pattern, '', s): the text with every match taken out. After an empty match a character is
-- passed on. `skip` is what is left of the last match.
erase_from : Regex → ℕ → Text → Text → Text
erase_from r skip before [] = []
erase_from r (suc skip) before (c ∷ s) = erase_from r skip (c ∷ before) s
erase_from r zero before (c ∷ s) = elim (match_at r (place_at before (c ∷ s))) [
  | none ↦ c ∷ erase_from r 0 (c ∷ before) s
  | some m ↦ elim m.text [
    | [] ↦ c ∷ erase_from r 0 (c ∷ before) s
    | x ∷ t ↦ erase_from r (length t) (c ∷ before) s
  ]
]

unfoldable pub erase_all : Regex → Text → Text
unfolding erase_from match_at place_at
erase_all r s = erase_from r 0 [] s

-- ReplaceAll(pattern, rep, s), for a pattern that no empty text matches and a text without groups in it.
substitute_from : Regex → Text → ℕ → Text → Text → Text
substitute_from r rep skip before [] = []
substitute_from r rep (suc skip) before (c ∷ s) = substitute_from r rep skip (c ∷ before) s
substitute_from r rep zero before (c ∷ s) = elim (match_at r (place_at before (c ∷ s))) [
  | none ↦ c ∷ substitute_from r rep 0 (c ∷ before) s
  | some m ↦ rep ++ substitute_from r rep (length m.text - 1) (c ∷ before) s
]

unfoldable pub replace_matches : Regex → Text → Text → Text
unfolding substitute_from match_at place_at
replace_matches r rep s = substitute_from r rep 0 [] s

-- re.findall(pattern, s): the matches from left to right that do not overlap.
find_from : Regex → ℕ → Text → Text → List Found
find_from r skip before [] = elim (match_at r (place_at before [])) [ none ↦ [] | some m ↦ m ∷ [] ]
find_from r (suc skip) before (c ∷ s) = find_from r skip (c ∷ before) s
find_from r zero before (c ∷ s) = elim (match_at r (place_at before (c ∷ s))) [
  | none ↦ find_from r 0 (c ∷ before) s
  | some m ↦ m ∷ find_from r (length m.text - 1) (c ∷ before) s
]

unfoldable pub find_all : Regex → Text → List Found
unfolding find_from match_at place_at
find_all r s = find_from r 0 [] s

-- re.split(pattern, s), for a pattern that no empty text matches. `token` is what was read of the current
-- part, last character first.
split_at_from : Regex → ℕ → Text → Text → Text → List Text
split_at_from r skip before token [] = reverse token ∷ []
split_at_from r (suc skip) before token (c ∷ s) = split_at_from r skip (c ∷ before) token s
split_at_from r zero before token (c ∷ s) = elim (match_at r (place_at before (c ∷ s))) [
  | none ↦ split_at_from r 0 (c ∷ before) (c ∷ token) s
  | some m ↦ reverse token ∷ split_at_from r (length m.text - 1) (c ∷ before) [] s
]

unfoldable pub split_matches : Regex → Text → List Text
unfolding split_at_from match_at place_at
split_matches r s = split_at_from r 0 [] [] s
