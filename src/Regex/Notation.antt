-- ===== src/Regex/Notation.antt =====
-- Names for the notation in which tools/scripts/cpplint.py writes its patterns.
use jp4agent.Prelude.{List, [], ◌∷◌, Text, String, codes, to_lower, to_upper}
use jp4agent.Regex.{
  CharClass, one, range, dot, space, word, either, other, Regex, eps, cls, seq, alt, star,
}

abbrev pub lit_codes : Text → Regex
lit_codes [] = eps
lit_codes (c ∷ []) = cls (one c)
lit_codes (c ∷ d ∷ s) = seq (cls (one c)) (lit_codes (d ∷ s))

abbrev pub lit : String → Regex
lit s = lit_codes (codes s)

-- One of the characters of a text.
abbrev pub class_of : Text → CharClass
class_of [] = other (either dot (one 10))
class_of (c ∷ []) = one c
class_of (c ∷ d ∷ s) = either (one c) (class_of (d ∷ s))

abbrev pub any_of : String → Regex
any_of s = cls (class_of (codes s))

abbrev pub none_of : String → Regex
none_of s = cls (other (class_of (codes s)))

abbrev pub opt : Regex → Regex
opt r = alt r eps

abbrev pub plus : Regex → Regex
plus r = seq r (star r)

-- \s*, \s+, .*
abbrev pub spaces : Regex
spaces = star (cls space)

abbrev pub spaces1 : Regex
spaces1 = plus (cls space)

abbrev pub any : Regex
any = star (cls dot)

infixr 60 ◌▹◌
abbrev pub ◌▹◌ : Regex → Regex → Regex
a ▹ b = seq a b

infixr 55 ◌∣∣◌
abbrev pub ◌∣∣◌ : Regex → Regex → Regex
a ∣∣ b = alt a b

-- \S, [^\s...], \w+
abbrev pub nonspace : Regex
nonspace = cls (other space)

abbrev pub no_space_nor : String → Regex
no_space_nor s = cls (other (either space (class_of (codes s))))

abbrev pub words1 : Regex
words1 = plus (cls word)

-- r{0,2}, r{0,3}
abbrev pub up_to_two : Regex → Regex
up_to_two r = opt (r ▹ opt r)

abbrev pub up_to_three : Regex → Regex
up_to_three r = opt (r ▹ up_to_two r)

-- [a-zA-Z_]
abbrev pub letter_or_line : CharClass
letter_or_line = either (either (range b'a' b'z') (range b'A' b'Z')) (one b'_')

-- One of some words.
abbrev pub one_of : List String → Regex
one_of [] = cls (other (either dot (one 10)))
one_of (s ∷ []) = lit s
one_of (s ∷ t ∷ rest) = lit s ∣∣ one_of (t ∷ rest)

-- [a-zA-Z0-9_]
abbrev pub identifier_char : CharClass
identifier_char = either letter_or_line (range b'0' b'9')

-- A word in any case of its letters, as under the flag (?i).
abbrev pub lit_any_case : Text → Regex
lit_any_case [] = eps
lit_any_case (c ∷ s) = seq (cls (either (one (to_lower c)) (one (to_upper c)))) (lit_any_case s)
