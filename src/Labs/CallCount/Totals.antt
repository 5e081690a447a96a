-- ===== src/Labs/CallCount/Totals.antt =====
-- The count of calls of labs/lab1/TestPass.cpp.
use llvm17_learning_repo.Common.{
  ◌<◌, ◌≤◌, ◌^◌, ◌-◌, ◌⊎◌, leb, if_intro, ℕ, suc, ◌+◌, ◌≡◌, ◌≢◌, inl, inr, refl, sym, ◌∙◌, subst,
  Bool, Option, none, some, List, [], ◌∷◌, ◌++◌, if◌then◌else◌, IsIn, arith,
}
use llvm17_learning_repo.Labs.CallCount.{
  CallSite, no_call, call, count_instruction, count_on, count_block, count_blocks,
}

-- All instructions of a function.
abbrev pub all_sites : List (List CallSite) → List CallSite
all_sites [] = []
all_sites (b ∷ bs) = b ++ all_sites bs

module _ (is_declaration : ℕ → Bool) where
  -- The calls of functions with a body.
  abbrev pub defined_calls : List CallSite → ℕ
  defined_calls [] = 0
  defined_calls (call (some f) ∷ b) = (if is_declaration f then 0 else 1) + defined_calls b
  defined_calls (_ ∷ b) = defined_calls b

  -- `n` calls were counted before: a count is returned, or getCalledFunction() is nullptr for a call, or
  -- the calls are more than an int holds.
  abbrev pub IsCount : List CallSite → ℕ → Option ℕ → Type 0
  IsCount sites n none = IsIn (call none) sites ⊎ (2 ^ 31 ≤ n + defined_calls sites)
  IsCount sites n (some k) =
      (k ≡ n + defined_calls sites) × (k < 2 ^ 31) × (IsIn (call none) sites → ⊥)

  count_on_assoc :
      (f g : ℕ → Option ℕ) (h : ℕ → Option ℕ)
      → ((k : ℕ) → h k ≡ count_on is_declaration g (f k))
      → (o : Option ℕ)
      → count_on is_declaration h o ≡ count_on is_declaration g (count_on is_declaration f o)
  count_on_assoc f g h e none = refl
  count_on_assoc f g h e (some k) = e k

  count_block-append :
      (b c : List CallSite) (n : ℕ)
      → count_block is_declaration (b ++ c) n
        ≡ count_on is_declaration (count_block is_declaration c) (count_block is_declaration b n)
  unfolding count_block
  count_block-append [] c n = refl
  count_block-append (i ∷ b) c n =
      count_on_assoc (count_block is_declaration b) (count_block is_declaration c)
        (count_block is_declaration (b ++ c)) (count_block-append b c)
        (count_instruction is_declaration i n)

  count_on-agree :
      (f g : ℕ → Option ℕ)
      → ((k : ℕ) → f k ≡ g k)
      → (o : Option ℕ) → count_on is_declaration f o ≡ count_on is_declaration g o
  count_on-agree f g h none = refl
  count_on-agree f g h (some k) = h k

  count_blocks-all_sites :
      (bs : List (List CallSite)) (n : ℕ)
      → count_blocks is_declaration bs n ≡ count_block is_declaration (all_sites bs) n
  unfolding count_blocks count_block
  count_blocks-all_sites [] n = refl
  count_blocks-all_sites (b ∷ bs) n =
      count_on-agree (count_blocks is_declaration bs) (count_block is_declaration (all_sites bs))
        (count_blocks-all_sites bs) (count_block is_declaration b n)
      ∙ sym (count_block-append b (all_sites bs) n)

  IsCount-behind :
      (i : CallSite) (b : List CallSite) (m n : ℕ) (o : Option ℕ)
      → call none ≢ i
      → m + defined_calls b ≡ n + defined_calls (i ∷ b)
      → IsCount b m o
      → IsCount (i ∷ b) n o
  IsCount-behind i b m n none apart e (inl h) = inl (inr h)
  IsCount-behind i b m n none apart e (inr h) = inr (subst (λ k. 2 ^ 31 ≤ k) e h)
  IsCount-behind i b m n (some k) apart e h =
      (h.0 ∙ e, h.1, λ c. elim c [ inl q ↦ apart q | inr r ↦ h.2 r ])

  -- A call of a function, with a body or not, and with room for the count or not.
  call-IsCount :
      (f : ℕ) (b : List CallSite) (n : ℕ)
      → ((m : ℕ) → m < 2 ^ 31 → IsCount b m (count_block is_declaration b m))
      → n < 2 ^ 31
      → IsCount (call (some f) ∷ b) n (count_block is_declaration (call (some f) ∷ b) n)
  unfolding count_block count_instruction
  call-IsCount f b n rest small =
      let P : Option ℕ → Type 0 = λ o.
        IsCount (call (some f) ∷ b) n (count_on is_declaration (count_block is_declaration b) o) in
      if_intro P (is_declaration f)
        (λ e. IsCount-behind (call (some f)) b n n _ (λ q. cc) (ground arith) (rest n small))
        λ e.
          if_intro P (leb (2 ^ 31 - 1) n) (λ full. inr (ground arith))
            λ room.
              IsCount-behind (call (some f)) b (suc n) n _ (λ q. cc) (ground arith)
                (rest (suc n) (ground arith))

  count_block-IsCount :
      (b : List CallSite) (n : ℕ) → n < 2 ^ 31 → IsCount b n (count_block is_declaration b n)
  unfolding count_block count_instruction
  count_block-IsCount [] n small = (omega arith, small, λ h. h)
  count_block-IsCount (no_call ∷ b) n small =
      IsCount-behind no_call b n n _ (λ e. cc) refl (count_block-IsCount b n small)
  count_block-IsCount (call none ∷ b) n small = inl (inl refl)
  count_block-IsCount (call (some f) ∷ b) n small = call-IsCount f b n (count_block-IsCount b) small

  -- The count that TestPass prints is the number of the calls, in all blocks, of functions that have a
  -- body, and an int; there is none only if getCalledFunction() is nullptr for a call or these calls are
  -- more than an int holds.
  pub count_blocks-IsCount :
      (bs : List (List CallSite)) → IsCount (all_sites bs) 0 (count_blocks is_declaration bs 0)
  count_blocks-IsCount bs =
      subst (IsCount (all_sites bs) 0) (sym (count_blocks-all_sites bs 0))
        (count_block-IsCount (all_sites bs) 0 (omega arith))
