-- ===== src/Nesting/Update/Regions.antt =====
-- The lines between the #if and the #endif of a conditional, as steps of Update in
-- tools/scripts/cpplint.py.
use jp4agent.Prelude.{ℕ, ◌≡◌, refl, ◌∙◌, List, ◌∷◌, Text}
use jp4agent.Cleanse.Lines.{CleansedLines, line_at}
use jp4agent.Nesting.Blocks.{PreprocessorInfo, NestingState}
use jp4agent.Nesting.Update.{update}
use jp4agent.Nesting.Update.Frame.{update-pp_stack}
use jp4agent.Nesting.Preprocessor.Conditional.{
  IsIf, IsElse, IsEndif, IsOther, pp-if, pp-else, pp-endif, pp-other,
}

-- Whole lines of which every #if has its #endif, from one state to the next. `Branches` is what comes
-- behind an #if, up to its #endif, with any number of #else and #elif.
mutual
  pub data Region : NestingState → NestingState → Type 0 where
    stop : {s : NestingState} → Region s s
    other :
        {s t : NestingState} (f : Text) (cl : CleansedLines) (n : ℕ)
        → IsOther (line_at cl.elided n)
        → Region (update f cl n s).0 t
        → Region s t
    conditional :
        {s t u : NestingState} (f : Text) (cl : CleansedLines) (n : ℕ)
        → IsIf (line_at cl.elided n)
        → Branches (update f cl n s).0 t
        → Region t u
        → Region s u

  pub data Branches : NestingState → NestingState → Type 0 where
    endif :
        {s t : NestingState} (f : Text) (cl : CleansedLines) (n : ℕ)
        → Region s t
        → IsEndif (line_at cl.elided n)
        → Branches s (update f cl n t).0
    else_branch :
        {s t u : NestingState} (f : Text) (cl : CleansedLines) (n : ℕ)
        → Region s t
        → IsElse (line_at cl.elided n)
        → Branches (update f cl n t).0 u
        → Branches s u

mutual
  Region-keeps : {s t : NestingState} → Region s t → t.pp_stack ≡ s.pp_stack
  Region-keeps stop = refl
  Region-keeps (other {s} f cl n e r) = Region-keeps r ∙ update-pp_stack f cl n s ∙ pp-other _ _ e
  Region-keeps (conditional {s} f cl n e b r) =
      Region-keeps r ∙ Branches-keep b _ s.pp_stack (update-pp_stack f cl n s ∙ pp-if _ _ e)

  Branches-keep :
      {s t : NestingState}
      → Branches s t
      → (p : PreprocessorInfo) (rest : List PreprocessorInfo) → s.pp_stack ≡ p ∷ rest
      → t.pp_stack ≡ rest
  Branches-keep (endif {s} {t} f cl n r e) p rest h =
      update-pp_stack f cl n t ∙ pp-endif _ _ p rest e (Region-keeps r ∙ h)
  Branches-keep (else_branch {s} {t} f cl n r e b) p rest h =
      let (q, k) = pp-else _ _ p rest e (Region-keeps r ∙ h) in
      Branches-keep b q rest (update-pp_stack f cl n t ∙ k)

-- Lines of which every #if has its #endif leave the stack of conditionals as it was.
pub Region-pp_stack : {s t : NestingState} → Region s t → t.pp_stack ≡ s.pp_stack
Region-pp_stack r = Region-keeps r

-- The lines behind an #if, up to its #endif, take its entry from the stack of conditionals and no other.
Branches-pp_stack :
    {s t : NestingState} (p : PreprocessorInfo) (rest : List PreprocessorInfo)
    → Branches s t
    → s.pp_stack ≡ p ∷ rest
    → t.pp_stack ≡ rest
Branches-pp_stack p rest b h = Branches-keep b p rest h
