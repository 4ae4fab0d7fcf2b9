-- ===== src/Samples/Files.antt =====
-- The headers and the lines of a file at concrete inputs.
use jp4agent.Prelude.{◌≡◌, refl, ◌↔◌, List, [], ◌∷◌, Text, codes}
use jp4agent.Include.{c_sys, cpp_sys, likely_my, other, IncludeState}
use jp4agent.Include.Order.{AllInOrder, FromMine, AllInOrder-FromMine}
use jp4agent.Prelude.{false}
use jp4agent.Cleanse.Multiline.{remove_multi_line_comments}
use jp4agent.Cleanse.Multiline.Sweep.{sweep}
use jp4agent.Cleanse.Multiline.OnePass.{remove-sweep}

abbrev fresh_includes : IncludeState
fresh_includes = record { include_list = [] ∷ []; section = 0; last_header = [] }

AllInOrder-FromMine_example :
    AllInOrder fresh_includes (likely_my ∷ c_sys ∷ cpp_sys ∷ other ∷ [])
    ↔ FromMine (likely_my ∷ c_sys ∷ cpp_sys ∷ other ∷ [])
AllInOrder-FromMine_example =
    AllInOrder-FromMine (likely_my ∷ c_sys ∷ cpp_sys ∷ other ∷ []) fresh_includes refl

abbrev commented : List Text
commented = codes "a;" ∷ codes "/* b" ∷ codes "c */" ∷ codes "d;" ∷ codes "/* e" ∷ []

remove-sweep_example :
    remove_multi_line_comments (codes "a.cc") commented ≡ sweep (codes "a.cc") false commented 0
remove-sweep_example = remove-sweep (codes "a.cc") commented
