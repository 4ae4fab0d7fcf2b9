-- ===== src/Samples/Inside.antt =====
-- The text in the brackets of a call, at a concrete input.
use jp4agent.Prelude.{◌≡◌, refl, some, [], Text, codes}
use jp4agent.Regex.{Regex}
use jp4agent.Regex.Notation.{lit}
use jp4agent.Regex.Find.{Found, search_in}
use jp4agent.Expression.Inside.{get_text_inside, matching_punctuation, is_closing_punctuation}
use jp4agent.Expression.Inside.Enclosed.{
  Enclosed, empty, ordinary, pair, is_ordinary, get_text_inside-Enclosed,
}

abbrev call_text : Text
call_text = codes "x = printf(a, b[0]);"

abbrev printf_pattern : Regex
printf_pattern = lit "printf("

abbrev printf_found : Found
printf_found = record {
  start = 4;
  end = 11;
  text = codes "printf(";
  rest = codes "a, b[0]);";
  captures = [];
}

arguments-Enclosed : Enclosed (codes "a, b[0]")
unfolding is_ordinary is_closing_punctuation matching_punctuation
arguments-Enclosed = ordinary b'a' refl (
    ordinary b',' refl (
      ordinary b' ' refl
        (ordinary b'b' refl (pair b'[' b']' refl (ordinary b'0' refl empty) empty))))

printf_search : search_in printf_pattern call_text ≡ some printf_found
unfolding search_in
printf_search = refl

get_text_inside-Enclosed_example : get_text_inside call_text printf_pattern ≡ some (codes "a, b[0]")
unfolding matching_punctuation
get_text_inside-Enclosed_example =
    get_text_inside-Enclosed call_text printf_pattern printf_found b'(' b')' (codes ";")
      printf_search refl refl refl arguments-Enclosed
