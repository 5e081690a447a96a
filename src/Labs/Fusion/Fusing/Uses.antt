-- ===== src/Labs/Fusion/Fusing/Uses.antt =====
-- The uses of the induction variable after the fusion of a pair of loops,
-- labs/lab-fusion/src/lab-fusion.cpp.
use llvm17_learning_repo.Common.{
  ℕ, ◌≡◌, ◌≢◌, ◌∙◌, ap, if_intro, refl, Bool, false, ◌||◌, List, [], ◌∷◌, map, ◌==◌, arith,
}
use llvm17_learning_repo.Labs.Ir.{Value, constant, argument, result}
use llvm17_learning_repo.Labs.Fusion.Fusing.{
  PhiNode, BasicBlock, replace_use, replace_incoming, replace_in_phis, replace_all_uses_with,
  replace_successor_with, change_cfg,
}

unfoldable pub is_result : ℕ → Value → Bool
is_result x (result j) = j == x
is_result x v = false

unfoldable pub in_operands : ℕ → List Value → Bool
unfolding is_result
in_operands x [] = false
in_operands x (v ∷ vs) = is_result x v || in_operands x vs

unfoldable pub in_incoming : ℕ → List (Value × ℕ) → Bool
unfolding is_result
in_incoming x [] = false
in_incoming x ((v, b) ∷ incoming) = is_result x v || in_incoming x incoming

unfoldable pub in_phis : ℕ → List PhiNode → Bool
unfolding in_incoming
in_phis x [] = false
in_phis x (phi ∷ phis) = in_incoming x phi.incoming || in_phis x phis

-- Some instruction of the function uses the result.
unfoldable pub is_used : ℕ → List BasicBlock → Bool
unfolding in_phis in_operands
is_used x [] = false
is_used x (block ∷ f) = in_phis x block.phis || in_operands x block.operands || is_used x f

module _ (from to : ℕ) (n : from ≢ to) where
  replaced-result : (v : Value) → is_result from (replace_use from to v) ≡ false
  unfolding is_result replace_use
  replaced-result (constant c) = refl
  replaced-result (argument a) = refl
  replaced-result (result j) =
      if_intro (λ v. is_result from v ≡ false) (j == from) (λ e. ground arith) λ e. e

  replaced-operands : (vs : List Value) → in_operands from (map (replace_use from to) vs) ≡ false
  unfolding in_operands
  replaced-operands [] = refl
  replaced-operands (v ∷ vs) = ground (arith, replaced-result v, replaced-operands vs)

  replaced-incoming :
      (incoming : List (Value × ℕ)) → in_incoming from (replace_incoming from to incoming) ≡ false
  unfolding in_incoming replace_incoming
  replaced-incoming [] = refl
  replaced-incoming ((v, b) ∷ incoming) =
      ground (arith, replaced-result v, replaced-incoming incoming)

  replaced-phis : (phis : List PhiNode) → in_phis from (replace_in_phis from to phis) ≡ false
  unfolding in_phis replace_in_phis
  replaced-phis [] = refl
  replaced-phis (phi ∷ phis) = ground (arith, replaced-incoming phi.incoming, replaced-phis phis)

  pub replaced-unused :
      (f : List BasicBlock) → is_used from (replace_all_uses_with from to f) ≡ false
  unfolding is_used replace_all_uses_with
  replaced-unused [] = refl
  replaced-unused (block ∷ f) =
      ground (arith, replaced-phis block.phis, replaced-operands block.operands, replaced-unused f)

used-successor :
    (x b from to : ℕ) (f : List BasicBlock)
    → is_used x (replace_successor_with b from to f) ≡ is_used x f
unfolding is_used replace_successor_with
used-successor x b from to [] = refl
used-successor x b from to (block ∷ f) =
    ap (λ c. in_phis x block.phis || in_operands x block.operands || c)
      (used-successor x b from to f)

pub used-change_cfg :
    (x h1 t1 e1 b1 t2 e2 b2 : ℕ) (f : List BasicBlock)
    → is_used x (change_cfg h1 t1 e1 b1 t2 e2 b2 f) ≡ is_used x f
unfolding change_cfg
used-change_cfg x h1 t1 e1 b1 t2 e2 b2 f =
    used-successor x h1 e1 e2 _ ∙ used-successor x b2 t2 t1 _ ∙ used-successor x b1 t1 b2 f
