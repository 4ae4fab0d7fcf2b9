-- ===== src/Prelude/Str.antt =====
-- The methods of Python's `unicode` and `str` that the scripts call, on lists of code points or bytes. Case is
-- that of ASCII.
pub mod Words
use Prim.Native.Nat.{ℕ, zero, suc, ◌+◌, ◌-◌, ◌/◌, ◌%◌}
use mathlib.Core.Bool.{Bool, true, false, ◌&&◌, ◌||◌}
use mathlib.Core.List.{List, [], ◌∷◌, ◌++◌, map, reverse}
use mathlib.Core.Option.{Option, none, some}
use mathlib.Core.Option
use jp4agent.Prelude.Tests.{leb, ◌==◌, if◌then◌else◌, Text, text_eq, is_some}
use jp4agent.Prelude.Lists.{length, drop}

-- s.startswith(p)
unfoldable pub starts_with : Text → Text → Bool
starts_with s [] = true
starts_with [] (p ∷ ps) = false
starts_with (c ∷ s) (p ∷ ps) = c == p && starts_with s ps

-- s.endswith(p)
unfoldable pub ends_with : Text → Text → Bool
unfolding starts_with
ends_with s p = starts_with (reverse s) (reverse p)

-- s.find(p), with `none` for -1
unfoldable pub find : Text → Text → Option ℕ
unfolding starts_with
find [] p = if starts_with [] p then some 0 else none
find (c ∷ s) p =
    let later = Option.map (λ i. suc i) (find s p) in
    if starts_with (c ∷ s) p then some 0 else later

-- `p in s`
unfoldable pub contains : Text → Text → Bool
unfolding find
contains s p = is_some (find s p)

-- The scan behind `count`, `replace` and `split`: `skip` characters of the last hit are still to be
-- passed over. Python's result for an empty `p` is not modelled: no call has one.
count_from : ℕ → Text → Text → ℕ
count_from skip [] p = 0
count_from (suc skip) (c ∷ s) p = count_from skip s p
count_from zero (c ∷ s) p =
    let hit = suc (count_from (length p - 1) s p) in
    let miss = count_from 0 s p in if starts_with (c ∷ s) p then hit else miss

-- s.count(p)
unfoldable pub count : Text → Text → ℕ
unfolding count_from starts_with
count s p = count_from 0 s p

unfoldable pub replace_from : ℕ → Text → Text → Text → Text
replace_from skip [] p q = []
replace_from (suc skip) (c ∷ s) p q = replace_from skip s p q
replace_from zero (c ∷ s) p q =
    let hit = replace_from (length p - 1) s p q in
    let miss = replace_from 0 s p q in if starts_with (c ∷ s) p then q ++ hit else c ∷ miss

-- s.replace(p, q)
unfoldable pub replace_all : Text → Text → Text → Text
unfolding replace_from starts_with
replace_all s p q = replace_from 0 s p q

-- s.split(c), for a separator of one character
split_onto : Text → ℕ → Text → List Text
split_onto field c [] = reverse field ∷ []
split_onto field c (x ∷ s) =
    let cut = reverse field ∷ split_onto [] c s in
    let keep = split_onto (x ∷ field) c s in if x == c then cut else keep

unfoldable pub split_on : Text → ℕ → List Text
unfolding split_onto
split_on s c = split_onto [] c s

-- the characters of `string.whitespace`, which are those that a byte string is stripped of and split at
unfoldable pub is_space_char : ℕ → Bool
is_space_char c = c == 32 || (leb 9 c && leb c 13)

-- the white space of Unicode, at which a `unicode` text is split; Python 2 has U+180E in it
unfoldable pub is_blank_char : ℕ → Bool
unfolding is_space_char
is_blank_char c =
    is_space_char c
    || (leb 28 c && leb c 31)
    || c == 133
    || c == 160
    || c == 5760
    || c == 6158
    || (leb 8192 c && leb c 8202)
    || c == 8232
    || c == 8233
    || c == 8239
    || c == 8287
    || c == 12288

-- s.isspace()
all_space : Text → Bool
unfolding is_blank_char
all_space [] = true
all_space (c ∷ s) = is_blank_char c && all_space s

unfoldable pub is_space : Text → Bool
unfolding all_space
is_space [] = false
is_space (c ∷ s) = all_space (c ∷ s)

drop_while : (ℕ → Bool) → Text → Text
drop_while blank [] = []
drop_while blank (c ∷ s) = if blank c then drop_while blank s else c ∷ s

-- s.lstrip()
unfoldable pub lstrip : Text → Text
unfolding drop_while is_blank_char
lstrip s = drop_while is_blank_char s

-- s.rstrip()
unfoldable pub rstrip : Text → Text
unfolding lstrip
rstrip s = reverse (lstrip (reverse s))

-- s.strip()
unfoldable pub strip : Text → Text
unfolding lstrip rstrip
strip s = rstrip (lstrip s)

-- s.strip() for a byte string
unfoldable pub byte_strip : Text → Text
unfolding drop_while is_space_char
byte_strip s = reverse (drop_while is_space_char (reverse (drop_while is_space_char s)))

-- s.lstrip(c), for one character
unfoldable pub lstrip_char : ℕ → Text → Text
lstrip_char d [] = []
lstrip_char d (c ∷ s) = if c == d then lstrip_char d s else c ∷ s

-- s.rstrip(c), for one character
unfoldable pub rstrip_char : ℕ → Text → Text
unfolding lstrip_char
rstrip_char d s = reverse (lstrip_char d (reverse s))

unfoldable pub to_lower : ℕ → ℕ
to_lower c = if leb 65 c && leb c 90 then c + 32 else c

unfoldable pub to_upper : ℕ → ℕ
to_upper c = if leb 97 c && leb c 122 then c - 32 else c

-- s.lower(), s.upper()
unfoldable pub lower : Text → Text
unfolding to_lower
lower = map to_lower

unfoldable pub upper : Text → Text
unfolding to_upper
upper = map to_upper

flush : Text → List Text → List Text
flush [] ws = ws
flush (c ∷ word) ws = reverse (c ∷ word) ∷ ws

words_onto : (ℕ → Bool) → Text → Text → List Text
words_onto blank word [] = flush word []
words_onto blank word (c ∷ s) =
    let cut = flush word (words_onto blank [] s) in
    let keep = words_onto blank (c ∷ word) s in if blank c then cut else keep

-- s.split(), at runs of white space
unfoldable pub words : Text → List Text
unfolding words_onto flush is_blank_char
words s = words_onto is_blank_char [] s

-- s.split() for a byte string
unfoldable pub byte_words : Text → List Text
unfolding words_onto flush is_space_char
byte_words s = words_onto is_space_char [] s

-- `s in l`, for a list or a set of texts
unfoldable pub mem_text : Text → List Text → Bool
unfolding text_eq
mem_text s [] = false
mem_text s (t ∷ l) = text_eq s t || mem_text s l

-- the text up to the first `c`, and from there on
unfoldable pub span_to_char : ℕ → Text → Text × Text
span_to_char c [] = ([], [])
span_to_char c (x ∷ s) = let (a, b) = span_to_char c s in if x == c then ([], x ∷ s) else (x ∷ a, b)

-- s.partition(c): what stands before the first `c`, and what stands after it
unfoldable pub partition : ℕ → Text → Text × Text
unfolding span_to_char
partition c s = let (a, b) = span_to_char c s in (a, drop 1 b)

digits_onto : ℕ → ℕ → Text → Text
digits_onto zero n out = out
digits_onto (suc f) n out =
    let more = digits_onto f (n / 10) ((48 + n % 10) ∷ out) in if n == 0 then out else more

-- '%d' of a natural number
unfoldable pub decimal : ℕ → Text
unfolding digits_onto
decimal n = if n == 0 then 48 ∷ [] else digits_onto n n []
