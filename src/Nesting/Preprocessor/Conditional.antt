-- ===== src/Nesting/Preprocessor/Conditional.antt =====
-- What a conditional of the preprocessor does to the stacks of NestingState in tools/scripts/cpplint.py.
use jp4agent.Prelude.{ℕ, ◌+◌, ◌≡◌, refl, ap, ◌∙◌, true, false, List, [], ◌∷◌, Text, map}
use jp4agent.Regex.Find.{matches}
use jp4agent.Nesting.Blocks.{Block, PreprocessorInfo, NestingState, copy_stack}
use jp4agent.Nesting.Preprocessor.{
  if_pattern, else_pattern, endif_pattern, begin_if, begin_else, end_if, update_preprocessor,
}

-- The lines of the directives, and the others.
abbrev pub IsIf : Text → Type 0
IsIf line = matches if_pattern line ≡ true

abbrev pub IsElse : Text → Type 0
IsElse line = (matches if_pattern line ≡ false) × (matches else_pattern line ≡ true)

abbrev pub IsEndif : Text → Type 0
IsEndif line =
    (matches if_pattern line ≡ false)
    × (matches else_pattern line ≡ false)
    × (matches endif_pattern line ≡ true)

abbrev pub IsOther : Text → Type 0
IsOther line =
    (matches if_pattern line ≡ false)
    × (matches else_pattern line ≡ false)
    × (matches endif_pattern line ≡ false)

update-if : (line : Text) (s : NestingState) → IsIf line → update_preprocessor line s ≡ begin_if s
unfolding update_preprocessor
update-if line s e = rw (e, update_preprocessor) refl

update-else :
    (line : Text) (s : NestingState)
    → IsElse line
    → update_preprocessor line s ≡ begin_else s.pp_stack s
unfolding update_preprocessor
update-else line s (n, e) = rw (n, e, update_preprocessor) refl

update-endif :
    (line : Text) (s : NestingState)
    → IsEndif line
    → update_preprocessor line s ≡ end_if s.pp_stack s
unfolding update_preprocessor
update-endif line s (n, m, e) = rw (n, m, e, update_preprocessor) refl

update-other : (line : Text) (s : NestingState) → IsOther line → update_preprocessor line s ≡ s
unfolding update_preprocessor
update-other line s (n, m, e) = rw (n, m, e, update_preprocessor) refl

-- The blocks of a stack without the identities that copies change.
abbrev forget : Block → Block
forget b = record b { ident = 0 }

abbrev pub blocks : List Block → List Block
blocks = map forget

blocks-copy : (i : ℕ) (stack : List Block) → blocks (copy_stack i stack) ≡ blocks stack
unfolding copy_stack
blocks-copy i [] = refl
blocks-copy i (b ∷ stack) = ap (◌∷◌ (forget b)) (blocks-copy (i + 1) stack)

-- The first #else saves the stack and goes back to that before #if.
begin_else-first :
    (s t : NestingState)
    → t.pp_stack ≡ (begin_if s).pp_stack
    → (blocks (begin_else t.pp_stack t).stack ≡ blocks s.stack)
      × ((begin_else t.pp_stack t).pp_stack
          ≡ record {
            stack_before_if = copy_stack s.fresh s.stack;
            stack_before_else = copy_stack t.fresh t.stack;
            seen_else = true;
          }
            ∷ s.pp_stack)
unfolding begin_if begin_else
begin_else-first s t e =
    rw e (blocks-copy _ (copy_stack s.fresh s.stack) ∙ blocks-copy s.fresh s.stack, refl)

-- #endif after it goes back to the saved stack.
end_if-seen :
    (p : PreprocessorInfo) (rest : List PreprocessorInfo) (u : NestingState)
    → u.pp_stack ≡ p ∷ rest
    → p.seen_else ≡ true
    → ((end_if u.pp_stack u).stack ≡ p.stack_before_else) × ((end_if u.pp_stack u).pp_stack ≡ rest)
unfolding end_if
end_if-seen p rest u e seen = rw (e, end_if) (rw seen refl, refl)

-- A conditional with one #else: the blocks at its #else are those at its #if again, and those at its
-- #endif are those at the end of the first branch, if each branch leaves the stack of conditionals as it
-- found it.
pub conditional-blocks :
    (if_line else_line endif_line : Text) (s t u : NestingState)
    → IsIf if_line
    → IsElse else_line
    → IsEndif endif_line
    → t.pp_stack ≡ (update_preprocessor if_line s).pp_stack
    → u.pp_stack ≡ (update_preprocessor else_line t).pp_stack
    → (blocks (update_preprocessor else_line t).stack ≡ blocks s.stack)
      × (blocks (update_preprocessor endif_line u).stack ≡ blocks t.stack)
      × ((update_preprocessor endif_line u).pp_stack ≡ s.pp_stack)
conditional-blocks if_line else_line endif_line s t u i e n first second =
    let at_if : t.pp_stack ≡ (begin_if s).pp_stack =
      first ∙ ap (λ x. x.pp_stack) (update-if if_line s i) in
    let (back, saved) = begin_else-first s t at_if in
    let at_else : u.pp_stack ≡ (begin_else t.pp_stack t).pp_stack =
      second ∙ ap (λ x. x.pp_stack) (update-else else_line t e) in
    let (stack, pp) = end_if-seen _ s.pp_stack u (at_else ∙ saved) refl in
    (
      ap (λ x. blocks x.stack) (update-else else_line t e) ∙ back,
      ap (λ x. blocks x.stack) (update-endif endif_line u n)
          ∙ ap blocks stack
          ∙ blocks-copy t.fresh t.stack,
      ap (λ x. x.pp_stack) (update-endif endif_line u n) ∙ pp,
    )

-- The same over the stack of conditionals alone.
pub pp-if :
    (line : Text) (s : NestingState)
    → IsIf line
    → (update_preprocessor line s).pp_stack
      ≡ record {
        stack_before_if = copy_stack s.fresh s.stack;
        stack_before_else = [];
        seen_else = false;
      }
        ∷ s.pp_stack
unfolding begin_if
pp-if line s e = ap (λ x. x.pp_stack) (update-if line s e)

pp-begin_else :
    (s : NestingState) (p : PreprocessorInfo) (rest : List PreprocessorInfo)
    → (q : PreprocessorInfo) × ((begin_else (p ∷ rest) s).pp_stack ≡ q ∷ rest)
unfolding begin_else
pp-begin_else s p rest = (_, refl)

pub pp-else :
    (line : Text) (s : NestingState) (p : PreprocessorInfo) (rest : List PreprocessorInfo)
    → IsElse line
    → s.pp_stack ≡ p ∷ rest
    → (q : PreprocessorInfo) × ((update_preprocessor line s).pp_stack ≡ q ∷ rest)
pp-else line s p rest e h =
    let (q, k) = pp-begin_else s p rest in
    (q, ap (λ x. x.pp_stack) (update-else line s e) ∙ ap (λ pp. (begin_else pp s).pp_stack) h ∙ k)

pub pp-endif :
    (line : Text) (s : NestingState) (p : PreprocessorInfo) (rest : List PreprocessorInfo)
    → IsEndif line
    → s.pp_stack ≡ p ∷ rest
    → (update_preprocessor line s).pp_stack ≡ rest
unfolding end_if
pp-endif line s p rest e h = ap (λ x. x.pp_stack) (update-endif line s e) ∙ rw (h, end_if) refl

pub pp-other :
    (line : Text) (s : NestingState)
    → IsOther line
    → (update_preprocessor line s).pp_stack ≡ s.pp_stack
pp-other line s e = ap (λ x. x.pp_stack) (update-other line s e)
