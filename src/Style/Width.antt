-- ===== src/Style/Width.antt =====
-- GetLineWidth of tools/scripts/cpplint.py. The tables of Unicode are those of the module unicodedata, a
-- parameter of the model, and so is the length of a line that --linelength sets.
use jp4agent.Prelude.{ℕ, ◌+◌, Bool, [], ◌∷◌, if◌then◌else◌, Text}

pub record Settings : Type 0 where
  pub normalize : Text → Text
  pub is_wide : ℕ → Bool
  pub is_combining : ℕ → Bool
  pub line_length : ℕ

-- The settings of a program whose texts are ASCII, with the default of _line_length.
abbrev pub ascii_settings : Settings
ascii_settings = record {
  normalize = λ line. line;
  is_wide = λ _. Bool.false;
  is_combining = λ _. Bool.false;
  line_length = 80;
}

width_of : Settings → Text → ℕ
width_of settings [] = 0
width_of settings (c ∷ line) =
    (if settings.is_wide c then 2 else if settings.is_combining c then 0 else 1)
    + width_of settings line

-- GetLineWidth, of a text
unfoldable pub get_line_width : Settings → Text → ℕ
unfolding width_of
get_line_width settings line = width_of settings (settings.normalize line)
