-- ===== src/Labs/Fusion/Fusing/Pairs.antt =====
-- A pair of loops that MyFusionPass, labs/lab-fusion/src/lab-fusion.cpp, fuses.
use llvm17_learning_repo.Common.{
  ◌==◌, if_intro, arith, ℕ, ◌≡◌, ◌≢◌, ◌∙◌, refl, true, false, Option, some, List,
}
use llvm17_learning_repo.Labs.Fusion.Fusing.{
  PhiNode, BasicBlock, LoopBlocks, phis_of, induction_variable, replace_all_uses_with, change_cfg,
  fuse_blocks, fuse_found, fuse_pair,
}
use llvm17_learning_repo.Labs.Fusion.Fusing.Edges.{
  has_edge, edge-uses, IsCircuit, change_cfg-IsCircuit, change_cfg-elsewhere,
}
use llvm17_learning_repo.Labs.Fusion.Fusing.Uses.{is_used, replaced-unused, used-change_cfg}

differ : {a b : ℕ} → a ≡ b → (a == b) ≡ false → ⊥
differ {a} {b} h e = ground arith

module _ (single_predecessor : List BasicBlock → ℕ → Option ℕ) (l1 l2 : LoopBlocks)
    (f : List BasicBlock) (t1 t2 b1 b2 e1 e2 : ℕ) (iv1 iv2 : PhiNode) where
  fused : List BasicBlock
  fused = change_cfg l1.header t1 e1 b1 t2 e2 b2 (replace_all_uses_with iv2.identity iv1.identity f)

  module _ (latch1 : l1.latch f ≡ some t1) (latch2 : l2.latch f ≡ some t2)
      (body1 : single_predecessor f t1 ≡ some b1) (body2 : single_predecessor f t2 ≡ some b2)
      (exit1 : l1.exit_block f ≡ some e1) (exit2 : l2.exit_block f ≡ some e2)
      (variable1 : induction_variable t1 (phis_of l1.header f) ≡ some iv1)
      (variable2 : induction_variable t2 (phis_of l2.header f) ≡ some iv2)
      (typed : iv1.type_number ≡ iv2.type_number) where
    fuse_blocks-fused : fuse_blocks l1.header t1 e1 b1 l2.header t2 e2 b2 f ≡ some fused
    unfolding fuse_blocks fused
    fuse_blocks-fused =
        rw (fuse_blocks, variable1, variable2)
          (if_intro (λ o. o ≡ some fused) (iv1.type_number == iv2.type_number) (λ e. refl)
            λ e. absurd (differ typed e))

    fuse_pair-fused : fuse_pair single_predecessor (l1, l2) f ≡ some fused
    unfolding fuse_pair fuse_found
    fuse_pair-fused = rw (latch1, latch2, body1, body2, exit1, exit2) fuse_blocks-fused

    -- A pair of loops is fused when the latches, the predecessors of the latches, the exits and the phis
    -- are found, the phis have the same type, the header, the predecessors, the latches, the exits and the phis are different where
    -- they must be, and the edges from the predecessors to the latches and from the header to the exit are
    -- there: the predecessor of the second latch stands between that of the first latch and the first
    -- latch, the header leaves to the second exit, the phi of the second loop is used no more, and all
    -- edges of other blocks stay.
    pub fuse_pair-IsFused :
        l1.header ≢ b1
        → l1.header ≢ b2
        → b1 ≢ b2
        → t1 ≢ b2
        → t2 ≢ t1
        → e1 ≢ e2
        → iv2.identity ≢ iv1.identity
        → has_edge b1 t1 f ≡ true
        → has_edge b2 t2 f ≡ true
        → has_edge l1.header e1 f ≡ true
        → (a c : ℕ) → a ≢ l1.header
        → a ≢ b1
        → a ≢ b2
        → (g : List BasicBlock) × (fuse_pair single_predecessor (l1, l2) f ≡ some g)
          × IsCircuit l1.header t1 e1 b1 t2 e2 b2 g
          × (is_used iv2.identity g ≡ false)
          × (has_edge a c g ≡ has_edge a c f)
    unfolding fused
    fuse_pair-IsFused hb hc bc tc tt' ee ii eb ec eh a c nh nb nc =
        let g = replace_all_uses_with iv2.identity iv1.identity f in
        (
          fused,
          fuse_pair-fused,
          change_cfg-IsCircuit l1.header t1 e1 b1 t2 e2 b2 g hb hc bc tc tt' ee
              (edge-uses b1 t1 iv2.identity iv1.identity f ∙ eb)
              (edge-uses b2 t2 iv2.identity iv1.identity f ∙ ec)
              (edge-uses l1.header e1 iv2.identity iv1.identity f ∙ eh),
          used-change_cfg iv2.identity l1.header t1 e1 b1 t2 e2 b2 g
              ∙ replaced-unused iv2.identity iv1.identity ii f,
          change_cfg-elsewhere l1.header t1 e1 b1 t2 e2 b2 g a c nh nb nc
              ∙ edge-uses a c iv2.identity iv1.identity f,
        )
