-- ===== src/Include/Alphabet.antt =====
-- The path that headers are compared by, and the list of headers seen.
use jp4agent.Prelude.{
  ℕ, ◌≡◌, refl, ap, ◌∙◌, false, none, some, List, [], ◌∷◌, ◌++◌, arith, if◌then◌else◌, ◌==◌, Text,
  codes, text_eq, lower, to_lower, replace_all,
}
use jp4agent.Prelude.StrLaws.{Lacks, replace_all-Lacks, replace_all_one-Lacks, lower_idem}
use jp4agent.Include.{canonicalize_alphabetical_order, find_header, find_in, append_last}

to_lower-dash : (c : ℕ) → (c == b'-') ≡ false → (to_lower c == b'-') ≡ false
unfolding to_lower
to_lower-dash c h = ground arith

lower-Lacks : (s : Text) → Lacks b'-' s → Lacks b'-' (lower s)
unfolding lower
lower-Lacks [] h = tt
lower-Lacks (c ∷ s) h = (to_lower-dash c h.0, lower-Lacks s h.1)

canonical-Lacks : (s : Text) → Lacks b'-' (canonicalize_alphabetical_order s)
unfolding canonicalize_alphabetical_order
canonical-Lacks s = lower-Lacks _ (replace_all_one-Lacks b'-' b'_' _ refl)

-- A canonical path is its own canonical path: comparing headers by it is consistent.
canonicalize_idem :
    (s : Text)
    → canonicalize_alphabetical_order (canonicalize_alphabetical_order s)
      ≡ canonicalize_alphabetical_order s
unfolding canonicalize_alphabetical_order
canonicalize_idem s =
    let once = canonicalize_alphabetical_order s in
    let plain = canonical-Lacks s in
    let inl_stays = replace_all-Lacks b'-' (codes "inl.h") (codes ".h") once plain in
    let dash_stays = replace_all-Lacks b'-' [] (codes "_") once plain in
    ap lower (ap (λ t. replace_all t (codes "-") (codes "_")) inl_stays ∙ dash_stays) ∙ lower_idem _

find_in-append :
    (header name : Text) (line : ℕ) (l : List (Text × ℕ))
    → find_in header (l ++ (name, line) ∷ []) ≡ elim (find_in header l) [
      | some n ↦ some n
      | none ↦ if text_eq name header then some line else none
    ]
unfolding find_in
find_in-append header name line [] = refl
find_in-append header name line ((other, n) ∷ l) = ground (arith, find_in-append header name line l)

-- After a header was listed, a header is found on the line where it was listed first, and a new one on
-- the line given with it.
find_header-append_last :
    (header name : Text) (line : ℕ) (first : List (Text × ℕ)) (rest : List (List (Text × ℕ)))
    → find_header header (append_last (name, line) (first ∷ rest))
      ≡ elim (find_header header (first ∷ rest)) [
        | some n ↦ some n
        | none ↦ if text_eq name header then some line else none
      ]
unfolding find_header append_last
find_header-append_last header name line first [] =
    ground (arith, find_in-append header name line first)
find_header-append_last header name line first (l ∷ rest) =
    ground (arith, find_header-append_last header name line l rest)
