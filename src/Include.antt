-- ===== src/Include.antt =====
-- `_IncludeState` of tools/scripts/cpplint.py: the headers that were included, and the order of them.
pub mod Order
pub mod Alphabet
use jp4agent.Prelude.{
  ℕ, suc, Bool, true, false, ◌&&◌, not, Option, none, some, List, [], ◌∷◌, ◌++◌, ltb, leb, ◌==◌,
  if◌then◌else◌, Text, codes, text_eq, mem_text, replace_all, lower, get_or, ◌-◌,
}
use jp4agent.Regex.{Regex, line_start, boundary}
use jp4agent.Regex.Notation.{lit, spaces, ◌▹◌}
use jp4agent.Regex.Find.{matches}

-- _C_SYS_HEADER to _OTHER_HEADER
pub data HeaderType : Type 0 where
  c_sys cpp_sys likely_my possible_my other : HeaderType

abbrev initial_section : ℕ
initial_section = 0

abbrev my_h_section : ℕ
my_h_section = 1

abbrev c_section : ℕ
c_section = 2

abbrev cpp_section : ℕ
cpp_section = 3

abbrev other_h_section : ℕ
other_h_section = 4

-- _TYPE_NAMES
type_name : HeaderType → Text
type_name c_sys = codes "C system header"
type_name cpp_sys = codes "C++ system header"
type_name likely_my = codes "header this file implements"
type_name possible_my = codes "header this file may implement"
type_name other = codes "other header"

-- _SECTION_NAMES
section_name : ℕ → Text
section_name section =
    if section == initial_section
    then codes "... nothing. (This can't be an error.)"
    else if section == my_h_section
    then codes "a header this file implements"
    else if section == c_section
    then codes "C system header"
    else if section == cpp_section
    then codes "C++ system header"
    else codes "other header"

pub record IncludeState : Type 0 where
  pub include_list : List (List (Text × ℕ))
  pub section : ℕ
  pub last_header : Text

find_in : Text → List (Text × ℕ) → Option ℕ
find_in header [] = none
find_in header ((name, line) ∷ rest) =
    if text_eq name header then some line else find_in header rest

-- FindHeader, with `none` for -1
pub find_header : Text → List (List (Text × ℕ)) → Option ℕ
unfolding find_in
find_header header [] = none
find_header header (section_list ∷ rest) = elim (find_in header section_list) [
  | some line ↦ some line
  | none ↦ find_header header rest
]

-- include_list[-1] = []
clear_last : List (List (Text × ℕ)) → List (List (Text × ℕ))
clear_last [] = []
clear_last (l ∷ []) = [] ∷ []
clear_last (l ∷ m ∷ rest) = l ∷ clear_last (m ∷ rest)

-- include_list[-1].append((header, line))
pub append_last : Text × ℕ → List (List (Text × ℕ)) → List (List (Text × ℕ))
append_last entry [] = []
append_last entry (l ∷ []) = (l ++ entry ∷ []) ∷ []
append_last entry (l ∷ m ∷ rest) = l ∷ append_last entry (m ∷ rest)

-- ResetSection
pub reset_section : Text → IncludeState → IncludeState
unfolding clear_last
reset_section directive s = record {
  section = initial_section;
  last_header = [];
  include_list =
      if mem_text directive (codes "if" ∷ codes "ifdef" ∷ codes "ifndef" ∷ [])
      then s.include_list ++ [] ∷ []
      else if mem_text directive (codes "else" ∷ codes "elif" ∷ [])
      then clear_last s.include_list
      else s.include_list;
}

-- __init__
unfoldable pub initial_include_state : IncludeState
unfolding reset_section
initial_include_state =
    reset_section []
      (record { include_list = [] ∷ []; section = initial_section; last_header = [] })

unfoldable pub set_last_header : Text → IncludeState → IncludeState
set_last_header header_path s = record s { last_header = header_path }

-- CanonicalizeAlphabeticalOrder
pub canonicalize_alphabetical_order : Text → Text
canonicalize_alphabetical_order header_path =
    lower
      (replace_all (replace_all header_path (codes "-inl.h") (codes ".h")) (codes "-") (codes "_"))

-- `s < t` on texts
text_lt : Text → Text → Bool
text_lt s [] = false
text_lt [] (d ∷ t) = true
text_lt (c ∷ s) (d ∷ t) = if ltb c d then true else (c == d && text_lt s t)

-- ^\s*#\s*include\b
abbrev include_start_pattern : Regex
include_start_pattern = line_start ▹ spaces ▹ lit "#" ▹ spaces ▹ lit "include" ▹ boundary

-- IsInAlphabeticalOrder; `previous_line` is clean_lines.elided[linenum - 1]
unfoldable pub is_in_alphabetical_order : IncludeState → Text → Text → Bool
unfolding text_lt
is_in_alphabetical_order s previous_line header_path =
    if text_lt header_path s.last_header && matches include_start_pattern previous_line
    then false
    else true

-- The section in which a header leaves the state, or `none` where the source returns the message.
next_section : HeaderType → ℕ → Option ℕ
next_section c_sys section = if leb section c_section then some c_section else none
next_section cpp_sys section = if leb section cpp_section then some cpp_section else none
next_section likely_my section =
    if leb section my_h_section then some my_h_section else some other_h_section
next_section possible_my section =
    if leb section my_h_section then some my_h_section else some other_h_section
next_section other section = some other_h_section

-- CheckNextIncludeOrder: the state and the message, which is empty if the order is right
pub check_next_include_order : HeaderType → IncludeState → IncludeState × Text
unfolding next_section type_name section_name
check_next_include_order header_type s = elim (next_section header_type s.section) [
  | none ↦ (
    record s { last_header = [] },
    codes "Found " ++ (type_name header_type ++ (codes " after " ++ section_name s.section)),
  )
  | some section ↦ (
    record s {
      section = section;
      last_header = if not (s.section == section) then [] else s.last_header;
    },
    [],
  )
]
