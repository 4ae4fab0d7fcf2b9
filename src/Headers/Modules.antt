-- ===== src/Headers/Modules.antt =====
-- FilesBelongToSameModule and CheckHeaderFileIncluded of tools/scripts/cpplint.py.
pub mod Prefix
use jp4agent.Prelude.{
  ℕ, zero, suc, ◌+◌, ◌-◌, Bool, true, false, ◌&&◌, ◌||◌, not, Option, none, some, List, [], ◌∷◌,
  ◌++◌, ◌==◌, if◌then◌else◌, is_some, Text, codes, contains, ends_with, replace_all, length, take,
  drop,
}
use jp4agent.Regex.{Regex, group, line_end}
use jp4agent.Regex.Notation.{one_of, ◌▹◌}
use jp4agent.Regex.Find.{search_in, searches, group_or}
use jp4agent.Lint.Report.{Report, report}
use jp4agent.Include.{IncludeState}
use jp4agent.Headers.Info.{FileSystem, repository_name, base_name, extension_of, is_source}

-- `s[:-n]`
pub without_last : ℕ → Text → Text
without_last n s = if n == 0 then [] else take (length s - n) s

-- _TEST_FILE_SUFFIX: (_test|_unittest|_regtest)$
abbrev test_file_suffix : Regex
test_file_suffix = group 1 (one_of ("_test" ∷ "_unittest" ∷ "_regtest" ∷ [])) ▹ line_end

-- Without /public/ and /internal/ in the path
one_directory : Text → Text
one_directory filename =
    replace_all (replace_all filename (codes "/public/") (codes "/")) (codes "/internal/")
      (codes "/")

-- The path of a source file without its extension and the suffix of a test.
pub source_module : FileSystem → Text → Text
unfolding without_last one_directory
source_module fs filename_cc =
    let base = without_last (length (extension_of fs filename_cc)) filename_cc in
    one_directory (elim (search_in test_file_suffix (base_name fs filename_cc)) [
      | none ↦ base
      | some m ↦ without_last (length (group_or 1 m)) base
    ])

-- The path of a header without .h and -inl.
unfoldable pub header_module : Text → Text
unfolding without_last one_directory
header_module filename_h =
    let base = without_last 2 filename_h in
    one_directory (if ends_with base (codes "-inl") then without_last 4 base else base)

-- FilesBelongToSameModule
pub files_belong_to_same_module : FileSystem → Text → Text → Bool × Text
unfolding source_module header_module without_last
files_belong_to_same_module fs filename_cc filename_h =
    if not (is_source fs filename_cc) || not (ends_with filename_h (codes ".h"))
    then (false, [])
    else if ends_with (source_module fs filename_cc) (header_module filename_h)
    then (true, without_last (length (header_module filename_h)) (source_module fs filename_cc))
    else (false, [])

-- The header is in one of the paths, or the path in it.
names_header : Text → Text → Bool
names_header headername include = contains include headername || contains headername include

any_names_header : Text → List (Text × ℕ) → Bool
unfolding names_header
any_names_header headername [] = false
any_names_header headername ((include, linenum) ∷ rest) =
    names_header headername include || any_names_header headername rest

pub flatten : List (List (Text × ℕ)) → List (Text × ℕ)
flatten [] = []
flatten (l ∷ rest) = l ++ flatten rest

-- `first_include`: the first line number in the list that is not 0
first_include : List (Text × ℕ) → ℕ
first_include [] = 0
first_include ((include, linenum) ∷ rest) =
    let later = first_include rest in if linenum == 0 then later else linenum

-- CheckHeaderFileIncluded
unfoldable pub check_header_file_included : FileSystem → Text → IncludeState → List Report
unfolding any_names_header flatten first_include
check_header_file_included fs filename s =
    let headerfile =
      take (length filename - length (extension_of fs filename)) filename ++ codes ".h" in
    let headername = repository_name fs headerfile in
    if searches test_file_suffix (base_name fs filename)
      || not (fs.exists headerfile)
      || any_names_header headername (flatten s.include_list)
    then []
    else report filename (first_include (flatten s.include_list)) "build/include" 5
        (repository_name fs filename ++ (codes " should include its header file " ++ headername))
      ∷ []
