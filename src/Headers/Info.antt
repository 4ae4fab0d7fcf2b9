-- ===== src/Headers/Info.antt =====
-- FileInfo of tools/scripts/cpplint.py. What it asks the file system is a parameter.
pub mod Ends
use jp4agent.Prelude.{
  ℕ, zero, suc, ◌≤◌, ◌≡◌, refl, some, arith, Bool, false, ◌||◌, Option, none, List, [], ◌∷◌, ◌++◌,
  if◌then◌else◌, String, Text, codes, text_eq, mem_text, replace_all, length, drop,
}
use jp4agent.Headers.Paths.{split_path, dirname, splitext, join_path, common_prefix}

-- The k-th directory above a path.
abbrev above : ℕ → Text → Text
above zero path = path
above (suc k) path = above k (dirname path)

-- FullName, with what os.path.abspath gives.
abbrev pub with_slashes : Text → Text
with_slashes path = replace_all path (codes "\\") (codes "/")

-- os.path.exists, os.path.abspath and the lines that a file has for io.open. A Subversion checkout has a
-- top: above the directory of a file, at the root at the latest, is a directory without .svn. Where the
-- root holds one, the loop of RepositoryName does not end; such a file system is left out.
pub record FileSystem : Type 0 where
  pub exists : Text → Bool
  pub abspath : Text → Text
  pub read_lines : Text → Option (List Text)
  pub has_top :
      (filename : Text)
      → let up = dirname (dirname (with_slashes (abspath filename))) in
        (k : ℕ) × (k ≤ length up) × (exists (join_path (above k up) (codes ".svn")) ≡ false)

-- The root of a file system without files, and the current directory there.
abbrev pub empty_file_system : FileSystem
empty_file_system = record {
  exists = λ _. false;
  abspath = λ path. b'/' ∷ path;
  read_lines = λ _. none;
  has_top = λ filename. (0, omega arith, refl);
}

module _ (fs : FileSystem) where
  -- FullName, with the slashes of Unix
  pub full_name : Text → Text
  full_name filename = with_slashes (fs.abspath filename)

  abbrev pub holds : Text → String → Bool
  holds dir name = fs.exists (join_path dir (codes name))

  pub is_checkout : Text → Bool
  is_checkout dir = holds dir ".git" || holds dir ".hg" || holds dir ".svn"

  -- The loop up from a Subversion checkout, with none if the fuel does not reach its end.
  pub svn_root : ℕ → Text → Text → Option Text
  svn_root zero root one_up = none
  svn_root (suc fuel) root one_up =
      let next = svn_root fuel (dirname root) (dirname one_up) in
      if holds one_up ".svn" then next else some root

  -- The highest directory with a checkout in it; the length of the path is enough fuel.
  pub checkout_root : ℕ → Text → Text → Text
  unfolding is_checkout
  checkout_root zero root current = root
  checkout_root (suc fuel) root current =
      let next =
        checkout_root fuel (if is_checkout current then current else root) (dirname current) in
      if text_eq current (dirname current) then root else next

  without_prefix : Text → Text → Text → Text
  without_prefix fullname root_dir project_dir =
      drop (suc (length (common_prefix root_dir project_dir))) fullname

  -- RepositoryName. The fuel of the loop reaches its end (Ends), so that none does not come up.
  unfoldable pub repository_name : Text → Text
  unfolding full_name svn_root checkout_root without_prefix is_checkout
  repository_name filename =
      let fullname = full_name filename in
      let project_dir = dirname fullname in
      let root_dir = checkout_root (length fullname) project_dir project_dir in
      if fs.exists fullname
      then (if holds project_dir ".svn"
          then (elim (svn_root (suc (length (dirname project_dir))) project_dir
              (dirname project_dir)) [
                | none ↦ fullname
                | some top ↦ without_prefix fullname top project_dir
              ])
          else if is_checkout root_dir
          then without_prefix fullname root_dir project_dir
          else fullname)
      else fullname

  -- Split, BaseName, Extension
  pub split_name : Text → Text × Text × Text
  split_name filename =
      let (project, rest) = split_path (repository_name filename) in
      let (base, extension) = splitext rest in (project, base, extension)

  unfoldable pub base_name : Text → Text
  unfolding split_name
  base_name filename = (split_name filename).1

  unfoldable pub extension_of : Text → Text
  unfolding split_name
  extension_of filename = (split_name filename).2

  -- NoExtension
  unfoldable pub no_extension : Text → Text
  unfolding split_name
  no_extension filename = let (project, base, _) = split_name filename in project ++ b'/' ∷ base

-- _IsSourceExtension
pub is_source_extension : Text → Bool
is_source_extension s = mem_text s (codes "c" ∷ codes "cc" ∷ codes "cpp" ∷ codes "cxx" ∷ [])

-- IsSource
unfoldable pub is_source : FileSystem → Text → Bool
unfolding is_source_extension
is_source fs filename = is_source_extension (drop 1 (extension_of fs filename))

-- IsHeaderExtension, for the extensions that _hpp_headers holds.
unfoldable pub is_header_extension : List Text → Text → Bool
is_header_extension hpp_headers file_extension = mem_text file_extension hpp_headers
