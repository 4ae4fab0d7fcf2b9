-- ===== src/Headers/Modules/Prefix.antt =====
-- What FilesBelongToSameModule of tools/scripts/cpplint.py answers.
use jp4agent.Prelude.{
  suc, ◌-◌, ◌≡◌, ◌≢◌, ◌↔◌, refl, sym, ap, ◌∙◌, true, false, [], ◌∷◌, ◌++◌, ◌==◌, ==_iff, Text,
  arith, Bool-cases, inl, inr, starts_with, ends_with, codes, reverse, length, take, length-append,
  if◌then◌else◌,
}
use mathlib.Core.List.{reverse-append, reverse-reverse}
use jp4agent.Headers.Info.{FileSystem, is_source}
use jp4agent.Headers.Modules.{
  without_last, source_module, header_module, files_belong_to_same_module,
}

starts_with_split : (s p : Text) → starts_with s p ≡ true → (t : Text) × (s ≡ p ++ t)
unfolding starts_with
starts_with_split s [] h = (s, refl)
starts_with_split [] (d ∷ p) h = absurd (cc h)
starts_with_split (c ∷ s) (d ∷ p) h = elim (Bool-cases (c == d)) [
  | inl e ↦
      let (t, same) = starts_with_split s p (rw e at h) in
      (t, ap (λ x. x ∷ s) ((==_iff c d).0 e) ∙ ap (λ u. d ∷ u) same)
  | inr e ↦ absurd (ground arith)
]

starts_with-append : (p t : Text) → starts_with (p ++ t) p ≡ true
unfolding starts_with
starts_with-append [] t = refl
starts_with-append (c ∷ p) t = rw ((==_iff c c).1 refl) (starts_with-append p t)

ends_with_iff : (s p : Text) → (ends_with s p ≡ true) ↔ ((t : Text) × (s ≡ t ++ p))
unfolding ends_with
ends_with_iff s p = (to, from)
  where
    to : starts_with (reverse s) (reverse p) ≡ true → (t : Text) × (s ≡ t ++ p)
    to h =
        let (t, e) = starts_with_split (reverse s) (reverse p) h in
        (
          reverse t,
          sym (reverse-reverse s)
              ∙ ap reverse e
              ∙ reverse-append (reverse p) t
              ∙ ap (λ u. reverse t ++ u) (reverse-reverse p),
        )

    from : (t : Text) × (s ≡ t ++ p) → starts_with (reverse s) (reverse p) ≡ true
    from (t, e) =
        ap (λ u. starts_with u (reverse p)) (ap reverse e ∙ reverse-append t p)
        ∙ starts_with-append (reverse p) (reverse t)

take-append : (p t : Text) → take (length p) (p ++ t) ≡ p
take-append [] [] = refl
take-append [] (c ∷ t) = refl
take-append (x ∷ p) t = ap (λ s. x ∷ s) (take-append p t)

without_last-append : (p t : Text) → t ≢ [] → without_last (length t) (p ++ t) ≡ p
unfolding without_last
without_last-append p [] h = absurd (h refl)
without_last-append p (c ∷ t) h =
    let before : length (p ++ c ∷ t) - suc (length t) ≡ length p =
      omega (arith, length-append p (c ∷ t)) in
    let some_text : (suc (length t) == 0) ≡ false = ground arith in
    rw some_text (ap (λ n. take n (p ++ c ∷ t)) before ∙ take-append p (c ∷ t))

not_source :
    (fs : FileSystem) (cc_file h_file : Text)
    → is_source fs cc_file ≡ false
    → (files_belong_to_same_module fs cc_file h_file).0 ≡ false
unfolding files_belong_to_same_module
not_source fs cc_file h_file h = ground arith

not_header :
    (fs : FileSystem) (cc_file h_file : Text)
    → ends_with h_file (codes ".h") ≡ false
    → (files_belong_to_same_module fs cc_file h_file).0 ≡ false
unfolding files_belong_to_same_module
not_header fs cc_file h_file h = ground arith

both :
    (fs : FileSystem) (cc_file h_file : Text)
    → is_source fs cc_file ≡ true
    → ends_with h_file (codes ".h") ≡ true
    → files_belong_to_same_module fs cc_file h_file ≡ (
        if ends_with (source_module fs cc_file) (header_module h_file)
        then (true, without_last (length (header_module h_file)) (source_module fs cc_file))
        else (false, []))
unfolding files_belong_to_same_module
both fs cc_file h_file a b = rw a (rw b refl)

ends_in_belongs :
    (fs : FileSystem) (cc_file h_file : Text)
    → is_source fs cc_file ≡ true
    → ends_with h_file (codes ".h") ≡ true
    → ends_with (source_module fs cc_file) (header_module h_file) ≡ true
    → files_belong_to_same_module fs cc_file h_file
      ≡ (true, without_last (length (header_module h_file)) (source_module fs cc_file))
ends_in_belongs fs cc_file h_file a b e = both fs cc_file h_file a b ∙ rw e refl

belongs_not :
    (fs : FileSystem) (cc_file h_file : Text)
    → is_source fs cc_file ≡ true
    → ends_with h_file (codes ".h") ≡ true
    → ends_with (source_module fs cc_file) (header_module h_file) ≡ false
    → files_belong_to_same_module fs cc_file h_file ≡ (false, [])
belongs_not fs cc_file h_file a b e = both fs cc_file h_file a b ∙ rw e refl

belongs_ends_in :
    (fs : FileSystem) (cc_file h_file : Text)
    → is_source fs cc_file ≡ true
    → ends_with h_file (codes ".h") ≡ true
    → (files_belong_to_same_module fs cc_file h_file).0 ≡ true
    → ends_with (source_module fs cc_file) (header_module h_file) ≡ true
belongs_ends_in fs cc_file h_file a b h =
    elim (Bool-cases (ends_with (source_module fs cc_file) (header_module h_file))) [
      | inl e ↦ e
      | inr e ↦ absurd (cc (sym h ∙ ap (λ r. r.0) (belongs_not fs cc_file h_file a b e)))
    ]

belongs_splits :
    (fs : FileSystem) (cc_file h_file : Text)
    → (files_belong_to_same_module fs cc_file h_file).0 ≡ true
    → (is_source fs cc_file ≡ true)
      × (ends_with h_file (codes ".h") ≡ true)
      × ((p : Text) × (source_module fs cc_file ≡ p ++ header_module h_file))
belongs_splits fs cc_file h_file h = elim (Bool-cases (is_source fs cc_file)) [
  | inr a ↦ absurd (cc (sym h ∙ not_source fs cc_file h_file a))
  | inl a ↦ elim (Bool-cases (ends_with h_file (codes ".h"))) [
    | inr b ↦ absurd (cc (sym h ∙ not_header fs cc_file h_file b))
    | inl b ↦ (
      a,
      b,
      (ends_with_iff (source_module fs cc_file) (header_module h_file)).0
          (belongs_ends_in fs cc_file h_file a b h),
    )
  ]
]

-- For a header whose path is not empty without .h, -inl, /public/ and /internal/, FilesBelongToSameModule
-- answers true with a text p exactly if the first file is a source file, the second ends with .h, and the
-- path of the first, without extension, suffix of a test, /public/ and /internal/, is p and then the path
-- of the header.
pub files_belong_iff :
    (fs : FileSystem) (cc_file h_file : Text)
    → header_module h_file ≢ []
    → (p : Text)
    → (files_belong_to_same_module fs cc_file h_file ≡ (true, p)) ↔ (
        (is_source fs cc_file ≡ true)
        × (ends_with h_file (codes ".h") ≡ true)
        × (source_module fs cc_file ≡ p ++ header_module h_file))
files_belong_iff fs cc_file h_file nonempty p = (to, from)
  where
    from :
        (is_source fs cc_file ≡ true)
          × (ends_with h_file (codes ".h") ≡ true)
          × (source_module fs cc_file ≡ p ++ header_module h_file)
        → files_belong_to_same_module fs cc_file h_file ≡ (true, p)
    from (a, b, same) =
        ends_in_belongs fs cc_file h_file a b
          ((ends_with_iff (source_module fs cc_file) (header_module h_file)).1 (p, same))
        ∙ ap (λ s. (true, without_last (length (header_module h_file)) s)) same
        ∙ ap (λ s. (true, s)) (without_last-append p (header_module h_file) nonempty)

    to :
        files_belong_to_same_module fs cc_file h_file ≡ (true, p)
        → (is_source fs cc_file ≡ true)
          × (ends_with h_file (codes ".h") ≡ true)
          × (source_module fs cc_file ≡ p ++ header_module h_file)
    to h =
        let (a, b, split) = belongs_splits fs cc_file h_file (ap (λ r. r.0) h) in
        let (q, same) = split in
        let found =
          ends_in_belongs fs cc_file h_file a b
            ((ends_with_iff (source_module fs cc_file) (header_module h_file)).1 (q, same)) in
        let front =
          sym (without_last-append q (header_module h_file) nonempty)
          ∙ ap (without_last (length (header_module h_file))) (sym same)
          ∙ ap (λ r. r.1) (sym found ∙ h) in
        (a, b, same ∙ ap (λ s. s ++ header_module h_file) front)
