-- ===== src/Function/Size.antt =====
-- When a function is reported as too long, and with what confidence.
use native.Mathlib.Nat.{pow-suc}
use jp4agent.Prelude.{
  ℕ, zero, suc, ◌*◌, ◌/◌, ◌^◌, ◌≤◌, ◌<◌, ◌≡◌, true, false, [], ◌∷◌, arith, ltb, Text, All,
  Bool-cases, inl, inr, ltb→lt, ltb-false→le, refl, codes,
}
use jp4agent.Function.{
  FunctionState, base_trigger, log2_fuel, log2, error_level, size_report, check,
}

log2_fuel-small : (f n : ℕ) → ltb n 2 ≡ true → log2_fuel (suc f) n ≡ 0
unfolding log2_fuel
log2_fuel-small f n e = ground arith

log2_fuel-large : (f n : ℕ) → ltb n 2 ≡ false → log2_fuel (suc f) n ≡ suc (log2_fuel f (n / 2))
unfolding log2_fuel
log2_fuel-large f n e = ground arith

log2_fuel_bounds : (f n : ℕ) → 0 < n → n ≤ f → (2 ^ log2_fuel f n ≤ n) × (n < 2 * 2 ^ log2_fuel f n)
log2_fuel_bounds zero n pos le = absurd (omega arith)
log2_fuel_bounds (suc f) n pos le = elim (Bool-cases (ltb n 2)) [
  | inl e ↦ rw (log2_fuel-small f n e) (omega (arith, ltb→lt n 2 e))
  | inr e ↦
      let (lower, upper) =
        log2_fuel_bounds f (n / 2) (omega (arith, ltb-false→le n 2 e)) (omega arith) in
      rw (log2_fuel-large f n e, pow-suc) (omega arith)
]

pow-pos : (n : ℕ) → 0 < 2 ^ n
pow-pos zero = omega arith
pow-pos (suc n) = rw pow-suc (omega (arith, pow-pos n))

exponent-le : (v k : ℕ) → 2 ^ v < 2 * 2 ^ k → v ≤ k
exponent-le zero k h = omega arith
exponent-le (suc v) zero h = absurd (omega (arith, pow-pos v, rw pow-suc at h))
exponent-le (suc v) (suc k) h =
    let smaller : 2 ^ v * 2 < 2 * (2 ^ k * 2) = rw (pow-suc 2 v) at (rw (pow-suc 2 k) at h) in
    omega (arith, exponent-le v k (omega arith))

base_trigger_pos : (s : FunctionState) → 0 < base_trigger s
unfolding base_trigger
base_trigger_pos s = ground arith

-- The quotient whose logarithm is taken is at least 2^v: the logarithm is defined.
ratio-ge : (lines base v : ℕ) → 0 < base → base * 2 ^ v < lines → 2 ^ v ≤ lines / base
ratio-ge lines base v pos h = grind arith

error_level-ge : (v ratio : ℕ) → v ≤ 5 → 2 ^ v ≤ ratio → v ≤ error_level ratio
unfolding error_level log2
error_level-ge v ratio small h =
    let (lower, upper) = log2_fuel_bounds ratio ratio (omega (arith, pow-pos v)) (omega arith) in
    let up = exponent-le v (log2_fuel ratio ratio) (omega arith) in ground arith

pub check-long :
    (s : FunctionState) (v : ℕ) (f : Text) (l : ℕ)
    → s.in_a_function ≡ true
    → base_trigger s * 2 ^ v < s.lines_in_function
    → check s v f l ≡ size_report s v f l ∷ []
unfolding check
check-long s v f l inside h = ground arith

pub check-short :
    (s : FunctionState) (v : ℕ) (f : Text) (l : ℕ)
    → s.lines_in_function ≤ base_trigger s * 2 ^ v
    → check s v f l ≡ []
unfolding check
check-short s v f l h = ground arith

pub size_report-place :
    (s : FunctionState) (v : ℕ) (f : Text) (l : ℕ)
    → ((size_report s v f l).filename ≡ f)
      × ((size_report s v f l).linenum ≡ l)
      × ((size_report s v f l).category ≡ codes "readability/fn_size")
unfolding size_report
size_report-place s v f l = (refl, refl, refl)

size_report-confidence :
    (s : FunctionState) (v : ℕ) (f : Text) (l : ℕ)
    → v ≤ 5
    → base_trigger s * 2 ^ v < s.lines_in_function
    → (v ≤ (size_report s v f l).confidence) × ((size_report s v f l).confidence ≤ 5)
unfolding size_report error_level
size_report-confidence s v f l small h =
    let ratio = s.lines_in_function / base_trigger s in
    let ge =
      error_level-ge v ratio small
        (ratio-ge s.lines_in_function (base_trigger s) v (base_trigger_pos s) h) in
    (ge, ground arith)

-- At a verbosity of at most 5, what is reported has a confidence that the verbosity lets through.
pub check-confidence :
    (s : FunctionState) (v : ℕ) (f : Text) (l : ℕ)
    → v ≤ 5
    → All (λ r. (v ≤ r.confidence) × (r.confidence ≤ 5)) (check s v f l)
unfolding check
check-confidence s v f l small = ground (arith, size_report-confidence s v f l small)
