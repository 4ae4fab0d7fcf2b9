-- ===== src/Nesting/Update/Frame.antt =====
-- Which part of Update in tools/scripts/cpplint.py changes the stack of conditionals.
use jp4agent.Prelude.{
  ℕ, zero, suc, ◌≡◌, refl, ◌∙◌, List, [], ◌∷◌, Text, arith, Option-cases, inl, inr,
}
use jp4agent.Regex.Find.{match}
use jp4agent.Cleanse.Lines.{CleansedLines, line_at}
use jp4agent.Nesting.Blocks.{Block, NestingState}
use jp4agent.Nesting.Preprocessor.{update_preprocessor}
use jp4agent.Nesting.Update.{update, top}
use jp4agent.Nesting.Update.Heads.{
  namespace_pattern, namespaces_from, consume_namespaces, consume_class,
}
use jp4agent.Nesting.Update.Braces.{
  token_pattern, token_step, open_brace, close_brace, braces_from, consume_braces,
}

pp-namespaces_from :
    (f n : ℕ) (line : Text) (s : NestingState)
    → (namespaces_from f n line s).1.pp_stack ≡ s.pp_stack
unfolding namespaces_from
pp-namespaces_from zero n line s = refl
pp-namespaces_from (suc f) n line s = elim (Option-cases (match namespace_pattern line)) [
  | inl e ↦ rw (e, namespaces_from) refl
  | inr (m, e) ↦ rw (e, namespaces_from) (pp-namespaces_from f n _ _)
]

pp-consume_class :
    (cl : CleansedLines) (n : ℕ) (line : Text) (s : NestingState)
    → (consume_class cl n line s).1.pp_stack ≡ s.pp_stack
unfolding consume_class
pp-consume_class cl n line s = ground arith

pp-open_brace :
    (n : ℕ) (line : Text) (s : NestingState) (stack : List Block)
    → (open_brace n line s stack).pp_stack ≡ s.pp_stack
unfolding open_brace
pp-open_brace n line s [] = refl
pp-open_brace n line s (b ∷ below) = ground arith

pp-close_brace :
    (f : Text) (cl : CleansedLines) (n : ℕ) (s : NestingState) (stack : List Block)
    → (close_brace f cl n s stack).0.pp_stack ≡ s.pp_stack
unfolding close_brace
pp-close_brace f cl n s [] = refl
pp-close_brace f cl n s (b ∷ below) = refl

pp-token_step :
    (f : Text) (cl : CleansedLines) (n : ℕ) (line token : Text) (s : NestingState)
    → (token_step f cl n line token s).0.pp_stack ≡ s.pp_stack
unfolding token_step
pp-token_step f cl n line token s =
    ground (arith, pp-open_brace n line s s.stack, pp-close_brace f cl n s s.stack)

pp-braces_from :
    (fuel : ℕ) (f : Text) (cl : CleansedLines) (n : ℕ) (line : Text) (s : NestingState)
    → (braces_from fuel f cl n line s).0.pp_stack ≡ s.pp_stack
unfolding braces_from
pp-braces_from zero f cl n line s = refl
pp-braces_from (suc fuel) f cl n line s = elim (Option-cases (match token_pattern line)) [
  | inl e ↦ rw (e, braces_from) refl
  | inr (m, e) ↦
      rw (e, braces_from) (pp-braces_from fuel f cl n _ _ ∙ pp-token_step f cl n line _ s)
]

-- Update changes the stack of conditionals by its call of UpdatePreprocessor only.
pub update-pp_stack :
    (f : Text) (cl : CleansedLines) (n : ℕ) (s : NestingState)
    → (update f cl n s).0.pp_stack
      ≡ (update_preprocessor
          (line_at cl.elided n)
          (record s { previous_stack_top = top s.stack })).pp_stack
unfolding update consume_braces consume_namespaces
update-pp_stack f cl n s =
    pp-braces_from _ f cl n _ _ ∙ pp-consume_class cl n _ _ ∙ pp-namespaces_from _ n _ _
