-- ===== src/Headers/Guards/Macro.antt =====
-- The variable that GetHeaderGuardCPPVariable of tools/scripts/cpplint.py asks for.
use jp4agent.Prelude.{ℕ, ◌≤◌, ◌≡◌, ◌⊎◌, inr, refl, [], ◌∷◌, ◌++◌, Text, All, All-append, arith, map}
use jp4agent.Headers.Info.{FileSystem}
use jp4agent.Headers.Guards.{
  guard_char, without_flymake, fixup_path_from_root, get_header_guard_cpp_variable,
}

-- A letter in upper case, a digit or _.
abbrev pub IsMacroChar : ℕ → Type 0
IsMacroChar c = ((b'A' ≤ c) × (c ≤ b'Z')) ⊎ ((b'0' ≤ c) × (c ≤ b'9')) ⊎ (c ≡ b'_')

guard_char-IsMacroChar : (c : ℕ) → IsMacroChar (guard_char c)
unfolding guard_char
guard_char-IsMacroChar c = grind arith

map-IsMacroChar : (s : Text) → All IsMacroChar (map guard_char s)
map-IsMacroChar [] = tt
map-IsMacroChar (c ∷ s) = (guard_char-IsMacroChar c, map-IsMacroChar s)

-- Whatever the path, the variable has letters in upper case, digits and underscores only, and ends with an
-- underscore.
pub guard-IsMacroName :
    (fs : FileSystem) (root filename : Text)
    → All IsMacroChar (get_header_guard_cpp_variable fs root filename)
      × ((s : Text) × (get_header_guard_cpp_variable fs root filename ≡ s ++ b'_' ∷ []))
unfolding get_header_guard_cpp_variable
guard-IsMacroName fs root filename =
    let path = fixup_path_from_root fs root (without_flymake filename) in
    (
      All-append IsMacroChar (map guard_char path) (b'_' ∷ []) (map-IsMacroChar path)
          (inr (inr refl), tt),
      (map guard_char path, refl),
    )
