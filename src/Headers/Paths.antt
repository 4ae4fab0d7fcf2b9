-- ===== src/Headers/Paths.antt =====
-- The functions of os.path that tools/scripts/cpplint.py calls on texts, and PathSplitToList.
pub mod RoundTrip
use jp4agent.Prelude.{
  ℕ, zero, suc, ◌+◌, ◌-◌, Bool, true, false, ◌&&◌, ◌||◌, not, Option, none, some, List, [], ◌∷◌,
  ◌++◌, ◌==◌, leb, if◌then◌else◌, Text, text_eq, starts_with, ends_with, rstrip_char, split_on,
  length, take, drop, codes, reverse,
}
use jp4agent.Style.Texts.{from_last}

-- `path[:n], path[n:]`, with n behind the last slash
pub cut_at_slash : Text → Text × Text
cut_at_slash path = elim (from_last b'/' path) [
  | none ↦ ([], path)
  | some t ↦ (take (suc (length path - length t)) path, drop 1 t)
]

pub all_slashes : Text → Bool
all_slashes [] = true
all_slashes (c ∷ s) = c == b'/' && all_slashes s

-- os.path.split
pub split_path : Text → Text × Text
unfolding cut_at_slash
split_path path =
    let (head, tail) = cut_at_slash path in
    (if all_slashes head then head else rstrip_char b'/' head, tail)

-- os.path.dirname
unfoldable pub dirname : Text → Text
dirname path = (split_path path).0

all_dots : Text → Bool
all_dots [] = true
all_dots (c ∷ s) = c == b'.' && all_dots s

-- os.path.splitext: the last dot of the last component, if another character than a dot is before it.
unfoldable pub splitext : Text → Text × Text
unfolding all_dots
splitext path = elim (from_last b'.' (cut_at_slash path).1) [
  | none ↦ (path, [])
  | some extension ↦
      let name = (cut_at_slash path).1 in
      if all_dots (take (length name - length extension) name)
      then (path, [])
      else (take (length path - length extension) path, extension)
]

-- os.path.join of two paths
pub join_path : Text → Text → Text
join_path path name =
    if starts_with name (codes "/")
    then name
    else if length path == 0 || ends_with path (codes "/")
    then path ++ name
    else path ++ b'/' ∷ name

pub join_onto : Text → List Text → Text
join_onto path [] = path
join_onto path (name ∷ names) = join_onto (join_path path name) names

-- os.path.join(*names)
pub join_all : List Text → Text
unfolding join_onto
join_all [] = []
join_all (name ∷ names) = join_onto name names

-- os.path.commonprefix of two paths
unfoldable pub common_prefix : Text → Text → Text
common_prefix [] t = []
common_prefix (c ∷ s) [] = []
common_prefix (c ∷ s) (d ∷ t) = if c == d then c ∷ common_prefix s t else []

-- The loop of PathSplitToList, last component first. A round takes the last component off the path, so
-- that its length is enough fuel.
pub split_from : ℕ → Text → List Text
split_from zero path = path ∷ []
split_from (suc fuel) path =
    let (head, tail) = split_path path in
    let rest = split_from fuel head in
    if text_eq head path then head ∷ [] else if text_eq tail path then tail ∷ [] else tail ∷ rest

-- PathSplitToList
pub path_split_to_list : Text → List Text
unfolding split_from
path_split_to_list path = reverse (split_from (length path) path)

-- StripListPrefix
unfoldable pub strip_list_prefix : List Text → List Text → Option (List Text)
strip_list_prefix lst [] = some lst
strip_list_prefix [] (p ∷ prefix) = none
strip_list_prefix (x ∷ lst) (p ∷ prefix) =
    if text_eq x p then strip_list_prefix lst prefix else none

-- A round of os.path.normpath, with the components kept so far, the last one first.
keep_component : Bool → List Text → Text → List Text
keep_component absolute [] name =
    if length name == 0 || text_eq name (codes ".") || (absolute && text_eq name (codes ".."))
    then []
    else name ∷ []
keep_component absolute (top ∷ kept) name =
    if length name == 0 || text_eq name (codes ".")
    then top ∷ kept
    else if text_eq name (codes "..") && not (text_eq top (codes ".."))
    then kept
    else name ∷ top ∷ kept

keep_components : Bool → List Text → List Text → List Text
unfolding keep_component
keep_components absolute kept [] = kept
keep_components absolute kept (name ∷ names) =
    keep_components absolute (keep_component absolute kept name) names

-- `'/'.join(...)`
join_slash : List Text → Text
join_slash [] = []
join_slash (name ∷ []) = name
join_slash (name ∷ next ∷ names) = name ++ b'/' ∷ join_slash (next ∷ names)

-- Two slashes at the start stay, three or more count as one.
initial_slashes : Text → Text
initial_slashes path =
    if starts_with path (codes "//") && not (starts_with path (codes "///"))
    then codes "//"
    else if starts_with path (codes "/")
    then codes "/"
    else []

-- os.path.normpath
unfoldable pub normpath : Text → Text
unfolding keep_components join_slash initial_slashes
normpath path =
    let slashes = initial_slashes path in
    let names = reverse (keep_components (not (length slashes == 0)) [] (split_on path b'/')) in
    let result = slashes ++ join_slash names in if length result == 0 then codes "." else result
