-- ===== src/Samples/Headers.antt =====
-- Paths, guards and modules of headers at concrete inputs.
use jp4agent.Prelude.{
  List, ◌≡◌, ◌≢◌, ◌↔◌, refl, sym, ◌∙◌, true, [], ◌∷◌, ◌++◌, Text, All, codes, ends_with,
  replace_all,
}
use jp4agent.Headers.Info.{empty_file_system, is_source}
use jp4agent.Headers.Paths.{join_all, path_split_to_list}
use jp4agent.Headers.Paths.RoundTrip.{IsName, path_split_to_list-join_all}
use jp4agent.Headers.Guards.{find_guard, no_guard, get_header_guard_cpp_variable}
use jp4agent.Headers.Guards.Macro.{IsMacroChar, guard-IsMacroName}
use jp4agent.Headers.Guards.Seen.{first_named, last_starting, or_else, find_guard_lem}
use jp4agent.Headers.Modules.{source_module, header_module, files_belong_to_same_module}
use jp4agent.Headers.Modules.Prefix.{files_belong_iff}

abbrev src_name : Text
src_name = codes "src"

abbrev file_name : Text
file_name = codes "a.h"

src-IsName : IsName src_name
src-IsName = (λ e. cc, (refl, (refl, (refl, tt))))

file-IsName : IsName file_name
file-IsName = (λ e. cc, (refl, (refl, (refl, tt))))

path_split_to_list-join_all_example :
    path_split_to_list (join_all (src_name ∷ file_name ∷ [])) ≡ src_name ∷ file_name ∷ []
path_split_to_list-join_all_example =
    path_split_to_list-join_all src_name (file_name ∷ []) src-IsName (file-IsName, tt)

guard-IsMacroName_example :
    All IsMacroChar (get_header_guard_cpp_variable empty_file_system [] (codes "src/Afi/a-b.h"))
    × ((s : Text) × (get_header_guard_cpp_variable empty_file_system [] (codes "src/Afi/a-b.h")
          ≡ s ++ b'_' ∷ []))
guard-IsMacroName_example = guard-IsMacroName empty_file_system [] (codes "src/Afi/a-b.h")

header_name : header_module (codes "tree-inl.h") ≡ codes "tree"
unfolding header_module replace_all ends_with
header_name = refl

some_header : header_module (codes "tree-inl.h") ≢ []
some_header e = cc (sym header_name ∙ e)

files_belong_iff_example :
    (files_belong_to_same_module empty_file_system (codes "src/tree_test.cc") (codes "tree-inl.h")
      ≡ (true, codes "src/"))
    ↔ ((is_source empty_file_system (codes "src/tree_test.cc") ≡ true)
        × (ends_with (codes "tree-inl.h") (codes ".h") ≡ true)
        × (source_module empty_file_system (codes "src/tree_test.cc")
            ≡ codes "src/" ++ header_module (codes "tree-inl.h")))
files_belong_iff_example =
    files_belong_iff empty_file_system (codes "src/tree_test.cc") (codes "tree-inl.h") some_header
      (codes "src/")

abbrev guarded_lines : List Text
guarded_lines =
    codes "#ifndef"
    ∷ codes "#ifndef A_H_"
    ∷ codes "#define A_H_"
    ∷ codes "#ifndef B"
    ∷ codes "#endif"
    ∷ codes "#endif  // A_H_"
    ∷ []

find_guard_example :
    ((find_guard 0 guarded_lines no_guard).ifndef ≡ first_named (codes "#ifndef") guarded_lines)
    × ((find_guard 0 guarded_lines no_guard).define ≡ first_named (codes "#define") guarded_lines)
    × ((find_guard 0 guarded_lines no_guard).endif
        ≡ or_else [] (last_starting (codes "#endif") guarded_lines))
find_guard_example = find_guard_lem guarded_lines
