-- ===== src/Labs/Fusion/Fusing/Edges.antt =====
-- The edges of the CFG after the fusion of a pair of loops, labs/lab-fusion/src/lab-fusion.cpp.
use llvm17_learning_repo.Common.{
  ℕ, ◌≡◌, ◌≢◌, ◌∙◌, sym, refl, Bool, true, false, ◌||◌, List, [], ◌∷◌, ◌==◌, if◌then◌else◌, arith,
}
use llvm17_learning_repo.Labs.Fusion.Fusing.{
  BasicBlock, replace_all_uses_with, replace_successor, replace_successor_with, change_cfg,
}

-- There is an edge between two blocks.
unfoldable pub is_among : ℕ → List ℕ → Bool
is_among x [] = false
is_among x (y ∷ ys) = x == y || is_among x ys

unfoldable pub has_edge : ℕ → ℕ → List BasicBlock → Bool
unfolding is_among
has_edge a b [] = false
has_edge a b (block ∷ f) =
    if a == block.identity then is_among b block.successors else has_edge a b f

replaced-gone :
    (from to : ℕ) (l : List ℕ) → from ≢ to → is_among from (replace_successor from to l) ≡ false
unfolding is_among replace_successor
replaced-gone from to [] n = refl
replaced-gone from to (y ∷ l) n = ground (arith, replaced-gone from to l n)

replaced-new :
    (from to : ℕ) (l : List ℕ)
    → is_among from l ≡ true
    → is_among to (replace_successor from to l) ≡ true
unfolding is_among replace_successor
replaced-new from to [] h = absurd cc
replaced-new from to (y ∷ l) h = ground (arith, replaced-new from to l)

replaced-other :
    (from to b : ℕ) (l : List ℕ)
    → b ≢ from
    → b ≢ to
    → is_among b (replace_successor from to l) ≡ is_among b l
unfolding is_among replace_successor
replaced-other from to b [] n m = refl
replaced-other from to b (y ∷ l) n m = ground (arith, replaced-other from to b l n m)

-- An edge of another block stays.
edge-elsewhere :
    (a b c from to : ℕ) (f : List BasicBlock)
    → a ≢ c
    → has_edge a b (replace_successor_with c from to f) ≡ has_edge a b f
unfolding has_edge replace_successor_with
edge-elsewhere a b c from to [] n = refl
edge-elsewhere a b c from to (block ∷ f) n = ground (arith, edge-elsewhere a b c from to f n)

edge-other :
    (a b from to : ℕ) (f : List BasicBlock)
    → b ≢ from
    → b ≢ to
    → has_edge a b (replace_successor_with a from to f) ≡ has_edge a b f
unfolding has_edge replace_successor_with
edge-other a b from to [] n m = refl
edge-other a b from to (block ∷ f) n m =
    ground (arith, edge-other a b from to f n m, replaced-other from to b block.successors n m)

edge-gone :
    (a from to : ℕ) (f : List BasicBlock)
    → from ≢ to
    → has_edge a from (replace_successor_with a from to f) ≡ false
unfolding has_edge replace_successor_with
edge-gone a from to [] n = refl
edge-gone a from to (block ∷ f) n =
    ground (arith, edge-gone a from to f n, replaced-gone from to block.successors n)

edge-new :
    (a from to : ℕ) (f : List BasicBlock)
    → has_edge a from f ≡ true
    → has_edge a to (replace_successor_with a from to f) ≡ true
unfolding has_edge replace_successor_with
edge-new a from to [] h = absurd cc
edge-new a from to (block ∷ f) h =
    ground (arith, edge-new a from to f, replaced-new from to block.successors)

pub edge-uses :
    (a b from to : ℕ) (f : List BasicBlock)
    → has_edge a b (replace_all_uses_with from to f) ≡ has_edge a b f
unfolding has_edge replace_all_uses_with
edge-uses a b from to [] = refl
edge-uses a b from to (block ∷ f) = ground (arith, edge-uses a b from to f)

-- The bodies follow each other between the header and the latch of the first loop.
abbrev pub IsCircuit : (h1 t1 e1 b1 t2 e2 b2 : ℕ) → List BasicBlock → Type 0
IsCircuit h1 t1 e1 b1 t2 e2 b2 g =
    (has_edge b1 b2 g ≡ true)
    × (has_edge b1 t1 g ≡ false)
    × (has_edge b2 t1 g ≡ true)
    × (has_edge b2 t2 g ≡ false)
    × (has_edge h1 e2 g ≡ true)
    × (has_edge h1 e1 g ≡ false)

module _ (h1 t1 e1 b1 t2 e2 b2 : ℕ) (f : List BasicBlock) where
  first : List BasicBlock
  first = replace_successor_with b1 t1 b2 f

  second : List BasicBlock
  second = replace_successor_with b2 t2 t1 first

  pub change_cfg-IsCircuit :
      h1 ≢ b1
      → h1 ≢ b2
      → b1 ≢ b2
      → t1 ≢ b2
      → t2 ≢ t1
      → e1 ≢ e2
      → has_edge b1 t1 f ≡ true
      → has_edge b2 t2 f ≡ true
      → has_edge h1 e1 f ≡ true
      → IsCircuit h1 t1 e1 b1 t2 e2 b2 (change_cfg h1 t1 e1 b1 t2 e2 b2 f)
  unfolding change_cfg first second
  change_cfg-IsCircuit hb hc bc tc tt' ee eb ec eh =
      let of_b1 : (x : ℕ)
          → has_edge b1 x (replace_successor_with h1 e1 e2 second) ≡ has_edge b1 x first =
        λ x.
          edge-elsewhere b1 x h1 e1 e2 second (λ e. hb (sym e))
          ∙ edge-elsewhere b1 x b2 t2 t1 first bc in
      let of_b2 : (x : ℕ)
          → has_edge b2 x (replace_successor_with h1 e1 e2 second) ≡ has_edge b2 x second =
        λ x. edge-elsewhere b2 x h1 e1 e2 second (λ e. hc (sym e)) in
      let of_h1 : (x : ℕ) → has_edge h1 x second ≡ has_edge h1 x f =
        λ x. edge-elsewhere h1 x b2 t2 t1 first hc ∙ edge-elsewhere h1 x b1 t1 b2 f hb in
      (
        of_b1 b2 ∙ edge-new b1 t1 b2 f eb,
        of_b1 t1 ∙ edge-gone b1 t1 b2 f tc,
        of_b2 t1 ∙ edge-new b2 t2 t1 first (edge-elsewhere b2 t2 b1 t1 b2 f (λ e. bc (sym e)) ∙ ec),
        of_b2 t2 ∙ edge-gone b2 t2 t1 first tt',
        edge-new h1 e1 e2 second (of_h1 e1 ∙ eh),
        edge-gone h1 e1 e2 second ee,
      )

  pub change_cfg-elsewhere :
      (a b : ℕ)
      → a ≢ h1
      → a ≢ b1
      → a ≢ b2
      → has_edge a b (change_cfg h1 t1 e1 b1 t2 e2 b2 f) ≡ has_edge a b f
  unfolding change_cfg
  change_cfg-elsewhere a b nh nb nc =
      edge-elsewhere a b h1 e1 e2 _ nh
      ∙ edge-elsewhere a b b2 t2 t1 _ nc
      ∙ edge-elsewhere a b b1 t1 b2 f nb
