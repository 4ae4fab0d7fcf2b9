-- ===== src/Include/Order.antt =====
-- The order of headers that `CheckNextIncludeOrder` accepts.
use jp4agent.Prelude.{
  ℕ, ◌≤◌, ◌≡◌, ◌≢◌, refl, ap, ◌↔◌, ◌⊎◌, inl, inr, none, some, List, [], ◌∷◌, ◌++◌, arith, Text, All,
  Option-cases,
}
use jp4agent.Include.{
  HeaderType, c_sys, cpp_sys, likely_my, possible_my, other, IncludeState, check_next_include_order,
  next_section,
}

-- The section never moves back.
section_mono :
    (t : HeaderType) (s : IncludeState)
    → s.section ≤ 4
    → (s.section ≤ (check_next_include_order t s).0.section)
      × ((check_next_include_order t s).0.section ≤ 4)
unfolding check_next_include_order
section_mono c_sys s h = ground arith
section_mono cpp_sys s h = ground arith
section_mono _ s h = ground arith

-- No header of the list gets a message.
abbrev pub AllInOrder : IncludeState → List HeaderType → Type 0
AllInOrder s [] = Unit
AllInOrder s (t ∷ ts) =
    ((check_next_include_order t s).1 ≡ []) × AllInOrder (check_next_include_order t s).0 ts

abbrev IsC : HeaderType → Type 0
IsC t = t ≡ c_sys

abbrev IsCpp : HeaderType → Type 0
IsCpp t = t ≡ cpp_sys

abbrev IsMine : HeaderType → Type 0
IsMine t = (t ≡ likely_my) ⊎ (t ≡ possible_my)

abbrev IsLocal : HeaderType → Type 0
IsLocal t = (t ≡ likely_my) ⊎ (t ≡ possible_my) ⊎ (t ≡ other)

-- The list is in two parts, of each of which something is known.
abbrev pub Cut : (HeaderType → Type 0) → (List HeaderType → Type 0) → List HeaderType → Type 0
Cut P Q ts = (a : List HeaderType) × (b : List HeaderType) × (ts ≡ a ++ b) × All P a × Q b

abbrev LocalOnly : List HeaderType → Type 0
LocalOnly = All IsLocal

abbrev FromCpp : List HeaderType → Type 0
FromCpp = Cut IsCpp LocalOnly

abbrev FromC : List HeaderType → Type 0
FromC = Cut IsC FromCpp

-- Headers of the file itself, then C system headers, then C++ system headers, then any that are not
-- system headers.
abbrev pub FromMine : List HeaderType → Type 0
FromMine = Cut IsMine FromC

Cut-cons :
    {P : HeaderType → Type 0} {Q : List HeaderType → Type 0} (t : HeaderType) (ts : List HeaderType)
    → P t
    → Cut P Q ts
    → Cut P Q (t ∷ ts)
Cut-cons t ts h (a, b, e, ha, hb) = (t ∷ a, b, ap (◌∷◌ t) e, (h, ha), hb)

Cut-nil :
    {P : HeaderType → Type 0} {Q : List HeaderType → Type 0} (ts : List HeaderType)
    → Q ts
    → Cut P Q ts
Cut-nil ts h = ([], ts, refl, tt, h)

-- What the order of headers asks, over the section alone.
Runs : ℕ → List HeaderType → Type 0
Runs section [] = Unit
Runs section (t ∷ ts) = elim (next_section t section) [ none ↦ ⊥ | some next ↦ Runs next ts ]

check-refused :
    (t : HeaderType) (s : IncludeState)
    → next_section t s.section ≡ none
    → (check_next_include_order t s).1 ≢ []
unfolding check_next_include_order
check-refused t s e h = absurd (message-ne-nil (rw (e, check_next_include_order) at h))
  where
    message-ne-nil : {c : ℕ} {m : Text} → c ∷ m ≡ [] → ⊥
    message-ne-nil e = cc

check-accepted :
    (t : HeaderType) (s : IncludeState) (k : ℕ)
    → next_section t s.section ≡ some k
    → ((check_next_include_order t s).1 ≡ []) × ((check_next_include_order t s).0.section ≡ k)
unfolding check_next_include_order
check-accepted t s k e = (rw (e, check_next_include_order), rw (e, check_next_include_order))

AllInOrder_iff : (ts : List HeaderType) (s : IncludeState) → AllInOrder s ts ↔ Runs s.section ts
unfolding Runs
AllInOrder_iff [] s = (λ h. h, λ h. h)
AllInOrder_iff (t ∷ ts) s = elim (Option-cases (next_section t s.section)) [
  | inl e ↦ (λ h. absurd (check-refused t s e h.0), λ r. absurd (rw (e, Runs) at r))
  | inr (k, e) ↦
      let (message, section) = check-accepted t s k e in
      let (to, from) = AllInOrder_iff ts (check_next_include_order t s).0 in
      (
        λ h. rw (e, Runs) (rw section at (to h.1)),
        λ r. (message, from (rw section (rw (e, Runs) at r))),
      )
]

from_other : (ts : List HeaderType) → Runs 4 ts → LocalOnly ts
unfolding Runs next_section
from_other [] h = tt
from_other (likely_my ∷ ts) h = (inl refl, from_other ts h)
from_other (possible_my ∷ ts) h = (inr (inl refl), from_other ts h)
from_other (other ∷ ts) h = (inr (inr refl), from_other ts h)
from_other (c_sys ∷ ts) h = absurd h
from_other (cpp_sys ∷ ts) h = absurd h

from_cpp : (ts : List HeaderType) → Runs 3 ts → FromCpp ts
unfolding Runs next_section
from_cpp [] h = Cut-nil [] tt
from_cpp (likely_my ∷ ts) h = Cut-nil (likely_my ∷ ts) (inl refl, from_other ts h)
from_cpp (possible_my ∷ ts) h = Cut-nil (possible_my ∷ ts) (inr (inl refl), from_other ts h)
from_cpp (other ∷ ts) h = Cut-nil (other ∷ ts) (inr (inr refl), from_other ts h)
from_cpp (c_sys ∷ ts) h = absurd h
from_cpp (cpp_sys ∷ ts) h = Cut-cons cpp_sys ts refl (from_cpp ts h)

from_c : (ts : List HeaderType) → Runs 2 ts → FromC ts
unfolding Runs next_section
from_c [] h = Cut-nil [] (from_cpp [] h)
from_c (likely_my ∷ ts) h = Cut-nil (likely_my ∷ ts) (from_cpp (likely_my ∷ ts) h)
from_c (possible_my ∷ ts) h = Cut-nil (possible_my ∷ ts) (from_cpp (possible_my ∷ ts) h)
from_c (other ∷ ts) h = Cut-nil (other ∷ ts) (from_cpp (other ∷ ts) h)
from_c (c_sys ∷ ts) h = Cut-cons c_sys ts refl (from_c ts h)
from_c (cpp_sys ∷ ts) h = Cut-nil (cpp_sys ∷ ts) (from_cpp (cpp_sys ∷ ts) h)

from_mine : (ts : List HeaderType) → Runs 1 ts → FromMine ts
unfolding Runs next_section
from_mine [] h = Cut-nil [] (from_c [] h)
from_mine (likely_my ∷ ts) h = Cut-cons likely_my ts (inl refl) (from_mine ts h)
from_mine (possible_my ∷ ts) h = Cut-cons possible_my ts (inr refl) (from_mine ts h)
from_mine (other ∷ ts) h = Cut-nil (other ∷ ts) (from_c (other ∷ ts) h)
from_mine (c_sys ∷ ts) h = Cut-nil (c_sys ∷ ts) (from_c (c_sys ∷ ts) h)
from_mine (cpp_sys ∷ ts) h = Cut-nil (cpp_sys ∷ ts) (from_c (cpp_sys ∷ ts) h)

-- An earlier section accepts what a later one does.
down-cpp : (ts : List HeaderType) → Runs 4 ts → Runs 3 ts
unfolding Runs next_section
down-cpp [] h = h
down-cpp (c_sys ∷ ts) h = absurd h
down-cpp (cpp_sys ∷ ts) h = absurd h
down-cpp (likely_my ∷ ts) h = h
down-cpp (possible_my ∷ ts) h = h
down-cpp (other ∷ ts) h = h

down-c : (ts : List HeaderType) → Runs 3 ts → Runs 2 ts
unfolding Runs next_section
down-c [] h = h
down-c (c_sys ∷ ts) h = absurd h
down-c (cpp_sys ∷ ts) h = h
down-c (likely_my ∷ ts) h = h
down-c (possible_my ∷ ts) h = h
down-c (other ∷ ts) h = h

down-mine : (ts : List HeaderType) → Runs 2 ts → Runs 1 ts
unfolding Runs next_section
down-mine [] h = h
down-mine (c_sys ∷ ts) h = h
down-mine (cpp_sys ∷ ts) h = h
down-mine (likely_my ∷ ts) h = down-mine ts (down-c ts (down-cpp ts h))
down-mine (possible_my ∷ ts) h = down-mine ts (down-c ts (down-cpp ts h))
down-mine (other ∷ ts) h = h

down-initial : (ts : List HeaderType) → Runs 1 ts ↔ Runs 0 ts
unfolding Runs next_section
down-initial [] = (λ h. h, λ h. h)
down-initial (c_sys ∷ ts) = (λ h. h, λ h. h)
down-initial (cpp_sys ∷ ts) = (λ h. h, λ h. h)
down-initial (likely_my ∷ ts) = (λ h. h, λ h. h)
down-initial (possible_my ∷ ts) = (λ h. h, λ h. h)
down-initial (other ∷ ts) = (λ h. h, λ h. h)

to_other : (ts : List HeaderType) → LocalOnly ts → Runs 4 ts
unfolding Runs next_section
to_other [] h = tt
to_other (likely_my ∷ ts) (_, h) = to_other ts h
to_other (possible_my ∷ ts) (_, h) = to_other ts h
to_other (other ∷ ts) (_, h) = to_other ts h
to_other (c_sys ∷ ts) (e, h) = ground arith
to_other (cpp_sys ∷ ts) (e, h) = ground arith

to_cpp : (a ts : List HeaderType) → All IsCpp a → LocalOnly ts → Runs 3 (a ++ ts)
unfolding Runs next_section
to_cpp [] ts ha h = down-cpp ts (to_other ts h)
to_cpp (t ∷ a) ts (e, ha) h = rw e (to_cpp a ts ha h)

to_c : (a ts : List HeaderType) → All IsC a → FromCpp ts → Runs 2 (a ++ ts)
unfolding Runs next_section
to_c [] ts ha (b, rest, cut, hb, h) = down-c ts (rw cut (to_cpp b rest hb h))
to_c (t ∷ a) ts (e, ha) h = rw e (to_c a ts ha h)

to_mine : (a ts : List HeaderType) → All IsMine a → FromC ts → Runs 1 (a ++ ts)
unfolding Runs next_section
to_mine [] ts ha (b, rest, cut, hb, h) = down-mine ts (rw cut (to_c b rest hb h))
to_mine (t ∷ a) ts (inl e, ha) h = rw e (to_mine a ts ha h)
to_mine (t ∷ a) ts (inr e, ha) h = rw e (to_mine a ts ha h)

-- From a fresh section, no header gets a message exactly if the headers come in this order: those of
-- the file itself, C system headers, C++ system headers, headers that are not of the system.
pub AllInOrder-FromMine :
    (ts : List HeaderType) (s : IncludeState) → s.section ≡ 0 → AllInOrder s ts ↔ FromMine ts
AllInOrder-FromMine ts s fresh =
    let (to, from) = AllInOrder_iff ts s in
    let (up, down) = down-initial ts in
    (
      λ h. from_mine ts (down (rw fresh at (to h))),
      λ (a, b, cut, ha, hb). from (rw fresh (up (rw cut (to_mine a b ha hb)))),
    )
