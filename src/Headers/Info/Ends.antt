-- ===== src/Headers/Info/Ends.antt =====
-- The loop of RepositoryName up a Subversion checkout in tools/scripts/cpplint.py ends within its fuel.
use jp4agent.Prelude.{
  ℕ, zero, suc, ◌<◌, ◌≡◌, refl, false, some, inl, inr, Text, codes, length, arith, Bool-cases,
}
use jp4agent.Headers.Paths.{dirname, join_path}
use jp4agent.Headers.Info.{FileSystem, above, holds, full_name, svn_root}

-- The loop from a directory ends if there is one without .svn above it, not more than the fuel away.
svn_root-below :
    (fs : FileSystem) (k fuel : ℕ) (root one_up : Text)
    → k < fuel
    → fs.exists (join_path (above k one_up) (codes ".svn")) ≡ false
    → (top : Text) × (svn_root fs fuel root one_up ≡ some top)
unfolding svn_root
svn_root-below fs k zero root one_up lt h = absurd (omega arith)
svn_root-below fs zero (suc fuel) root one_up lt h = (root, rw h refl)
svn_root-below fs (suc k) (suc fuel) root one_up lt h =
    let (top, e) = svn_root-below fs k fuel (dirname root) (dirname one_up) (omega arith) h in
    elim (Bool-cases (holds fs one_up ".svn")) [ inl b ↦ (top, rw b e) | inr b ↦ (root, rw b refl) ]

-- The loop comes to the top of the checkout with the fuel that repository_name gives it.
svn_root_ends :
    (fs : FileSystem) (root filename : Text)
    → let up = dirname (dirname (full_name fs filename)) in
      (top : Text) × (svn_root fs (suc (length up)) root up ≡ some top)
unfolding full_name
svn_root_ends fs root filename =
    let up = dirname (dirname (full_name fs filename)) in
    let (k, le, h) = fs.has_top filename in
    svn_root-below fs k (suc (length up)) root up (omega arith) h
