-- ===== src/Regex/Meaning/Decides.antt =====
-- The matcher finds a match exactly when there is one: its order of search loses none.
use jp4agent.Prelude.{
  ℕ, zero, suc, ◌≤◌, ◌<◌, ◌≡◌, refl, ap, Bool, true, Option, none, some, arith, [], ◌∷◌, ltb→lt,
  is_some, inl, inr, Text, length, Option-cases, Bool-cases,
}
use jp4agent.Regex.{
  CharClass, in_class, Regex, eps, cls, seq, alt, star, star_lazy, group, line_start, line_end,
  boundary, ahead, not_ahead, Place, Rest, is_empty, at_end, at_boundary, capture, progress,
  step_to, resume, rounds, rounds_lazy, guarded, run,
}
use jp4agent.Regex.Meaning.Relation.{OneStep, Rounds, stop, round, Matches}

-- A matcher finds only what the relation allows, and finds something where the relation leads to a
-- place from which the rest can go on.
pub record Agrees (m : Rest → Rest) (R : Place → Place → Type 0) : Type 0 where
  pub sound : (k : Rest) (p a : Place) → m k p ≡ some a → (q : Place) × R p q × (k q ≡ some a)
  pub complete : (k : Rest) (p q : Place) → R p q → is_some (k q) ≡ true → is_some (m k p) ≡ true

-- The place after one character more.
abbrev after_char : Place → ℕ → Text → Place
after_char p x s = record p { before = x ∷ p.before; after = s }

step_to_sound :
    (c : CharClass) (k : Rest) (p : Place) (s : Text) (a : Place)
    → p.after ≡ s
    → step_to c s p k ≡ some a
    → (q : Place) × OneStep c p q × (k q ≡ some a)
unfolding step_to
step_to_sound c k p [] a e h = cc
step_to_sound c k p (x ∷ s) a e h = elim (Bool-cases (in_class c x)) [
  | inl ok ↦
      (after_char p x s, record { char = x; accepted = ok; read = e; moved = refl }, rw ok at h)
  | inr bad ↦ absurd (none-ne-some (rw bad at h))
]
  where
    none-ne-some : none ≡ some a → ⊥
    none-ne-some e = cc

step_to_complete :
    (c : CharClass) (k : Rest) (p q : Place) (s : Text)
    → p.after ≡ s
    → OneStep c p q
    → is_some (k q) ≡ true
    → is_some (step_to c s p k) ≡ true
unfolding step_to
step_to_complete c k p q [] e o h = cc (o.read)
step_to_complete c k p q (x ∷ s) e o h =
    let same : after_char p x s ≡ q = cc (e, o.read, o.moved) in
    let ok : in_class c x ≡ true = cc (e, o.read, o.accepted) in rw (ok, same) h

progress→lt : (p q : Place) → progress p q ≡ true → length q.after < length p.after
unfolding progress
progress→lt p q h = ltb→lt _ _ h

pub is_some→some : (o : Option Place) → is_some o ≡ true → (a : Place) × (o ≡ some a)
is_some→some (some a) h = (a, refl)
is_some→some none h = cc

module _ (m : Rest → Rest) (R : Place → Place → Type 0) (agrees : Agrees m R) where
  resume_sound :
      (next : Rest) (p q a : Place)
      → resume next p q ≡ some a
      → (progress p q ≡ true) × (next q ≡ some a)
  unfolding resume
  resume_sound next p q a h = ground arith

  resume_complete :
      (next : Rest) (p q : Place)
      → progress p q ≡ true
      → is_some (next q) ≡ true
      → is_some (resume next p q) ≡ true
  unfolding resume
  resume_complete next p q on h = ground arith

  rounds_sound :
      (f : ℕ) (k : Rest) (p a : Place)
      → rounds f m k p ≡ some a
      → (q : Place) × Rounds R p q × (k q ≡ some a)
  unfolding rounds
  rounds_sound zero k p a h = (p, stop, h)
  rounds_sound (suc f) k p a h = elim (Option-cases (m (resume (rounds f m k) p) p)) [
    | inl e ↦ (p, stop, ground arith)
    | inr (b, e) ↦
        let (q, r, h') = agrees.sound (resume (rounds f m k) p) p b e in
        let (on, g) = resume_sound (rounds f m k) p q b h' in
        let (t, rs, ht) = rounds_sound f k q b g in (t, round r on rs, ground arith)
  ]

  rounds_complete :
      (f : ℕ) (k : Rest) (p t : Place)
      → length p.after ≤ f
      → Rounds R p t
      → is_some (k t) ≡ true
      → is_some (rounds f m k p) ≡ true
  unfolding rounds
  rounds_complete zero k p t le stop h = h
  rounds_complete (suc f) k p t le stop h = ground arith
  rounds_complete zero k p t le (round {q} r on rs) h = absurd (omega (arith, progress→lt p q on))
  rounds_complete (suc f) k p t le (round {q} r on rs) h =
      let later = rounds_complete f k q t (omega (arith, progress→lt p q on)) rs h in
      let here =
        agrees.complete (resume (rounds f m k) p) p q r
          (resume_complete (rounds f m k) p q on later) in
      ground arith

  rounds_lazy_sound :
      (f : ℕ) (k : Rest) (p a : Place)
      → rounds_lazy f m k p ≡ some a
      → (q : Place) × Rounds R p q × (k q ≡ some a)
  unfolding rounds_lazy
  rounds_lazy_sound zero k p a h = (p, stop, h)
  rounds_lazy_sound (suc f) k p a h = elim (Option-cases (k p)) [
    | inr (b, e) ↦ (p, stop, ground arith)
    | inl e ↦
        let (q, r, h') = agrees.sound (resume (rounds_lazy f m k) p) p a (ground arith) in
        let (on, g) = resume_sound (rounds_lazy f m k) p q a h' in
        let (t, rs, ht) = rounds_lazy_sound f k q a g in (t, round r on rs, ht)
  ]

  rounds_lazy_complete :
      (f : ℕ) (k : Rest) (p t : Place)
      → length p.after ≤ f
      → Rounds R p t
      → is_some (k t) ≡ true
      → is_some (rounds_lazy f m k p) ≡ true
  unfolding rounds_lazy
  rounds_lazy_complete zero k p t le stop h = h
  rounds_lazy_complete (suc f) k p t le stop h = ground arith
  rounds_lazy_complete zero k p t le (round {q} r on rs) h =
      absurd (omega (arith, progress→lt p q on))
  rounds_lazy_complete (suc f) k p t le (round {q} r on rs) h =
      let later = rounds_lazy_complete f k q t (omega (arith, progress→lt p q on)) rs h in
      let here =
        agrees.complete (resume (rounds_lazy f m k) p) p q r
          (resume_complete (rounds_lazy f m k) p q on later) in
      ground arith

refute : (o : Option Place) → o ≡ none → is_some o ≡ true → ⊥
refute none e h = cc
refute (some a) e h = cc

guarded-Agrees :
    (b : Place → Bool) → Agrees (λ k p. guarded (b p) k p) (λ p q. (b p ≡ true) × (q ≡ p))
unfolding guarded
guarded-Agrees b = record {
  sound = λ k p a h. elim (Bool-cases (b p)) [ inl e ↦ (p, (e, refl), rw e at h) | inr e ↦ cc ];
  complete = λ k p q r h. ground (arith, ap (λ t. is_some (k t)) r.1);
}

-- Of every pattern: the matcher agrees with the relation.
pub run-Agrees : (r : Regex) → Agrees (run r) (Matches r)
unfolding run
run-Agrees eps = record { sound = λ k p a h. (p, refl, h); complete = λ k p q r h. rw r at h }
run-Agrees (cls c) = record {
  sound = λ k p a h. step_to_sound c k p p.after a refl h;
  complete = λ k p q r h. step_to_complete c k p q p.after refl r h;
}
run-Agrees (seq a b) =
    let m = run-Agrees a in
    let n = run-Agrees b in
    record {
      sound = λ k p x h.
          let (t, r, h') = m.sound (run b k) p x h in
          let (q, s, g) = n.sound k t x h' in (q, (t, r, s), g);
      complete = λ k p q r h. m.complete (run b k) p r.0 r.1 (n.complete k r.0 q r.2 h);
    }
run-Agrees (alt a b) = record {
  sound = λ k p x h. elim (Option-cases (run a k p)) [
    | inr (y, e) ↦ let (q, r, g) = (run-Agrees a).sound k p y e in (q, inl r, ground arith)
    | inl e ↦ let (q, r, g) = (run-Agrees b).sound k p x (ground arith) in (q, inr r, g)
  ];
  complete = λ k p q r h. elim r [
    | inl ra ↦ let found_a = (run-Agrees a).complete k p q ra h in ground arith
    | inr rb ↦ let found_b = (run-Agrees b).complete k p q rb h in ground arith
  ];
}
run-Agrees (star a) = record {
  sound = λ k p x h. rounds_sound (run a) (Matches a) (run-Agrees a) (length p.after) k p x h;
  complete = λ k p q r h.
      rounds_complete (run a) (Matches a) (run-Agrees a) (length p.after) k p q (omega arith) r h;
}
run-Agrees (star_lazy a) = record {
  sound = λ k p x h. rounds_lazy_sound (run a) (Matches a) (run-Agrees a) (length p.after) k p x h;
  complete = λ k p q r h.
      rounds_lazy_complete (run a) (Matches a) (run-Agrees a) (length p.after) k p q (omega arith) r
        h;
}
run-Agrees (group n a) =
    let m = run-Agrees a in
    record {
      sound = λ k p x h.
          let (t, r, h') = m.sound (λ q. k (capture n p q)) p x h in
          (capture n p t, (t, r, refl), h');
      complete = λ k p q r h. m.complete (λ t. k (capture n p t)) p r.0 r.1 (rw r.2 at h);
    }
run-Agrees line_start = guarded-Agrees (λ p. is_empty p.before)
run-Agrees line_end = guarded-Agrees (λ p. at_end p.after)
run-Agrees boundary = guarded-Agrees at_boundary
run-Agrees (ahead a) = record {
  sound = λ k p x h. elim (Option-cases (run a some p)) [
    | inl e ↦ cc
    | inr (y, e) ↦
        let (q, r, g) = (run-Agrees a).sound some p y e in (p, (q, r, refl), ground arith)
  ];
  complete = λ k p q r h.
      let seen = (run-Agrees a).complete some p r.0 r.1 refl in
      ground (arith, ap (λ t. is_some (k t)) r.2);
}
run-Agrees (not_ahead a) = record {
  sound = λ k p x h. elim (Option-cases (run a some p)) [
    | inr e ↦ cc
    | inl e ↦ (
      p,
      (
        refl,
        λ t r. let seen = (run-Agrees a).complete some p t r refl in refute (run a some p) e seen,
      ),
      ground arith,
    )
  ];
  complete = λ k p q r h. elim (Option-cases (run a some p)) [
    | inr (y, e) ↦ let (t, m, g) = (run-Agrees a).sound some p y e in absurd (r.1 t m)
    | inl e ↦ ground (arith, ap (λ t. is_some (k t)) r.0)
  ];
}
