-- ===== src/Cli/Rounds.antt =====
-- What one round of the loop of cli/cli.py does with an input.
use jp4agent.Prelude.{
  ℕ, ◌≡◌, ◌≢◌, refl, text_eq, text_eq_iff, ap, ◌∙◌, sym, Bool, true, false, List, [], ◌∷◌, Text,
  ◌↔◌, ◌⊎◌, inl, inr, byte_words, arith, mem_text, codes, Bool-cases, List-cases,
}
use jp4agent.Cli.{
  Input, typed, interrupted, Outcome, go_on, leave, send, index_error, round, dispatch, p4_cmds,
  p4_cmds_full,
}
use jp4agent.Cli.Session.{IsBlank}

-- The first word of the line is a command.
pub begins_with_command : Text → Bool
begins_with_command t = elim (byte_words t) [ [] ↦ false | w ∷ _ ↦ mem_text w p4_cmds ]

dispatch-nil : (t : Text) → byte_words t ≡ [] → dispatch t ≡ index_error
unfolding dispatch
dispatch-nil t e = rw (e, dispatch) refl

dispatch-cons :
    (t w : Text) (ws : List Text)
    → byte_words t ≡ w ∷ ws
    → ((mem_text w p4_cmds ≡ true) × (dispatch t ≡ send t))
      ⊎ (dispatch t ≡ go_on (codes "Invalid command. Supported commands are:" ∷ p4_cmds_full))
unfolding dispatch
dispatch-cons t w ws e = elim (Bool-cases (mem_text w p4_cmds)) [
  | inl m ↦ inl (m, rw (e, dispatch) (rw m refl))
  | inr m ↦ inr (rw (e, dispatch) (rw m refl))
]

pub crash-send : {u : Text} → index_error ≢ send u
crash-send e = cc

pub crash-go : {ls : List Text} → index_error ≢ go_on ls
crash-go e = cc

dispatch_crash : (t : Text) → dispatch t ≡ index_error → byte_words t ≡ []
dispatch_crash t h = elim (List-cases (byte_words t)) [
  | inl e ↦ e
  | inr (w, ws, e) ↦ elim (dispatch-cons t w ws e) [
    | inl (m, d) ↦ absurd (crash-send (sym h ∙ d))
    | inr d ↦ absurd (crash-go (sym h ∙ d))
  ]
]

-- A blank line differs from every text that has a word.
blank_ne :
    (s w x : Text) (xs : List Text)
    → byte_words w ≡ x ∷ xs
    → byte_words s ≡ []
    → text_eq s w ≡ false
blank_ne s w x xs has blank = elim (Bool-cases (text_eq s w)) [
  | inr e ↦ e
  | inl e ↦ absurd (nil-cons (sym blank ∙ (ap byte_words ((text_eq_iff s w).0 e) ∙ has)))
]
  where
    nil-cons : {y : Text} {ys : List Text} → [] ≢ y ∷ ys
    nil-cons e = cc

blank-not_help :
    (s : Text) → byte_words s ≡ [] → mem_text s (codes "help" ∷ codes "h" ∷ codes "?" ∷ []) ≡ false
unfolding byte_words mem_text
blank-not_help s blank =
    rw
      (
        blank_ne s (codes "help") (codes "help") [] refl blank,
        blank_ne s (codes "h") (codes "h") [] refl blank,
        blank_ne s (codes "?") (codes "?") [] refl blank,
      )
      refl

blank-not_quit :
    (s : Text) → byte_words s ≡ [] → mem_text s (codes "quit" ∷ codes "exit" ∷ []) ≡ false
unfolding byte_words mem_text
blank-not_quit s blank =
    rw
      (
        blank_ne s (codes "quit") (codes "quit") [] refl blank,
        blank_ne s (codes "exit") (codes "exit") [] refl blank,
      )
      refl

round-typed_blank :
    (c : ℕ) (t : Text) → byte_words (c ∷ t) ≡ [] → round (typed (c ∷ t)) ≡ index_error
unfolding round
round-typed_blank c t blank =
    rw (blank-not_help (c ∷ t) blank, blank-not_quit (c ∷ t) blank) (dispatch-nil (c ∷ t) blank)

round_typed-crash :
    (c : ℕ) (t : Text) → round (typed (c ∷ t)) ≡ index_error → byte_words (c ∷ t) ≡ []
unfolding round
round_typed-crash c t h = dispatch_crash (c ∷ t) (ground arith)

round-interrupted : round interrupted ≡ go_on []
unfolding round
round-interrupted = refl

round-empty : round (typed []) ≡ go_on []
unfolding round
round-empty = refl

-- One round fails with the IndexError exactly for a line that is not empty and has no word.
pub round_crash_iff : (i : Input) → (round i ≡ index_error) ↔ IsBlank i
round_crash_iff interrupted = (λ h. absurd (crash-go (sym h ∙ round-interrupted)), λ b. cc)
round_crash_iff (typed []) = (λ h. absurd (crash-go (sym h ∙ round-empty)), λ b. cc)
round_crash_iff (typed (c ∷ t)) = (
  λ h. (c, t, refl, round_typed-crash c t h),
  λ (d, u, e, blank). rw e (round-typed_blank d u blank),
)

dispatch_send : (t u : Text) → dispatch t ≡ send u → begins_with_command u ≡ true
unfolding begins_with_command
dispatch_send t u h = elim (List-cases (byte_words t)) [
  | inl e ↦ absurd (crash-send (sym (dispatch-nil t e) ∙ h))
  | inr (w, ws, e) ↦ elim (dispatch-cons t w ws e) [
    | inr d ↦ absurd (go-send (sym d ∙ h))
    | inl (m, d) ↦
        let same = send-injective (sym d ∙ h) in rw (sym same) (rw (e, begins_with_command) m)
  ]
]
  where
    go-send : {ls : List Text} → go_on ls ≢ send u
    go-send e = cc

    send-injective : {a b : Text} → send a ≡ send b → a ≡ b
    send-injective e = cc

pub round_send : (i : Input) (u : Text) → round i ≡ send u → begins_with_command u ≡ true
unfolding round
round_send interrupted u h = cc
round_send (typed []) u h = cc
round_send (typed (c ∷ t)) u h = dispatch_send (c ∷ t) u (ground arith)

-- The lines that end a session.
abbrev pub IsQuit : Input → Type 0
IsQuit i = (i ≡ typed (codes "quit")) ⊎ (i ≡ typed (codes "exit"))

dispatch-leave : (t l : Text) → dispatch t ≢ leave l
dispatch-leave t l h = elim (List-cases (byte_words t)) [
  | inl e ↦ apart (sym (dispatch-nil t e) ∙ h)
  | inr (w, ws, e) ↦ elim (dispatch-cons t w ws e) [
    | inl (m, d) ↦ apart_send (sym d ∙ h)
    | inr d ↦ apart_go (sym d ∙ h)
  ]
]
  where
    apart : index_error ≢ leave l
    apart e = cc

    apart_send : {u : Text} → send u ≢ leave l
    apart_send e = cc

    apart_go : {ls : List Text} → go_on ls ≢ leave l
    apart_go e = cc

mem-IsQuit : (s : Text) → mem_text s (codes "quit" ∷ codes "exit" ∷ []) ≡ true → IsQuit (typed s)
unfolding mem_text
mem-IsQuit s h = elim (Bool-cases (text_eq s (codes "quit"))) [
  | inl e ↦ inl (ap typed ((text_eq_iff s (codes "quit")).0 e))
  | inr e ↦ elim (Bool-cases (text_eq s (codes "exit"))) [
    | inl f ↦ inr (ap typed ((text_eq_iff s (codes "exit")).0 f))
    | inr f ↦ absurd (false-true (rw (e, f) at h))
  ]
]
  where
    false-true : false ≢ true
    false-true e = cc

pub round_leave : (i : Input) (l : Text) → round i ≡ leave l → IsQuit i
unfolding round
round_leave interrupted l h = cc
round_leave (typed []) l h = cc
round_leave (typed (c ∷ t)) l h =
    elim (Bool-cases (mem_text (c ∷ t) (codes "quit" ∷ codes "exit" ∷ []))) [
      | inl m ↦ mem-IsQuit (c ∷ t) m
      | inr m ↦ absurd (dispatch-leave (c ∷ t) l (ground arith))
    ]

pub round_quit : (i : Input) → IsQuit i → round i ≡ leave (codes "Exiting JP4Agent CLI.")
unfolding round mem_text
round_quit i (inl e) = rw e refl
round_quit i (inr e) = rw e refl

pub Outcome-cases :
    (o : Outcome)
    → ((ls : List Text) × (o ≡ go_on ls))
      ⊎ ((l : Text) × (o ≡ leave l))
      ⊎ ((u : Text) × (o ≡ send u))
      ⊎ (o ≡ index_error)
Outcome-cases (go_on ls) = inl (ls, refl)
Outcome-cases (leave l) = inr (inl (l, refl))
Outcome-cases (send u) = inr (inr (inl (u, refl)))
Outcome-cases index_error = inr (inr (inr refl))
