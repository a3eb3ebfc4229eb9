-- ===== src/Buddy/Split.antt =====
-- Taking a block apart into its halves keeps what is free.
use native.Mathlib.Decide.{dec_lt, ℕ_discrete}
use yjkos.Prelude.{
  ℕ, zero, suc, ◌/◌, ◌≤◌, ◌<◌, ◌≡◌, ◌≢◌, refl, sym, ap₂, ◌∙◌, ◌-◌, Bool, true, false, ◌||◌, arith,
}
use yjkos.Buddy.{Blocks, is_free, IsAntichain, split_block, below}
use yjkos.Buddy.Ancestors.{is_free-congr, is_free_self, below-add}

module _ (a : Blocks) (l b : ℕ) where
  -- Only levels `l` and `l + 1` change.
  split-above : (i d : ℕ) → i < l → split_block a l b i d ≡ a i d
  split-above i d lt = ground arith

  split-below : (i d : ℕ) → suc l < i → split_block a l b i d ≡ a i d
  split-below i d lt = ground arith

  split-beside : (d : ℕ) → d ≢ b → split_block a l b l d ≡ a l d
  split-beside d ne = ground arith

  split-half : (d : ℕ) → d / 2 ≡ b → split_block a l b (suc l) d ≡ true
  split-half d e = ground arith

  split-half_beside : (d : ℕ) → d / 2 ≢ b → split_block a l b (suc l) d ≡ a (suc l) d
  split-half_beside d e = ground arith

  split-gone : split_block a l b l b ≡ false
  split-gone = ground arith

  split-shallow : (i d : ℕ) → i ≤ l → split_block a l b i d ≡ true → a i d ≡ true
  split-shallow i d le h = ground arith

-- Beside the block, its level stays as it is.
level_beside : (a : Blocks) (l b d : ℕ) → d ≢ b → is_free (split_block a l b) l d ≡ is_free a l d
unfolding is_free
level_beside a zero b d ne = split-beside a zero b d ne
level_beside a (suc l) b d ne = ap₂ ◌||◌ (split-beside a (suc l) b d ne) (
    is_free-congr (split_block a (suc l) b) a l (d / 2)
      (λ i e lt. split-above a (suc l) b i e (omega arith)))

-- The block itself is no longer free.
level_gone :
    (a : Blocks) (l b : ℕ) → IsAntichain a → a l b ≡ true → is_free (split_block a l b) l b ≡ false
unfolding is_free
level_gone a zero b anti h = split-gone a zero b
level_gone a (suc l) b anti h = ap₂ ◌||◌ (split-gone a (suc l) b) (
    is_free-congr (split_block a (suc l) b) a l (b / 2)
      (λ i e lt. split-above a (suc l) b i e (omega arith))
    ∙ anti l b h)

or-true : (x : Bool) → (x || true) ≡ true
or-true true = refl
or-true false = refl

module _ (a : Blocks) (l b : ℕ) (available : a l b ≡ true) where
  split_level : (c : ℕ) → is_free (split_block a l b) (suc l) c ≡ is_free a (suc l) c
  unfolding is_free
  split_level c = elim (ℕ_discrete (c / 2) b) [
    | yes e ↦
        let whole : is_free a l (c / 2) ≡ true = rw e (is_free_self a l b available) in
        ap₂ ◌||◌ (split-half a l b c e) refl ∙ sym (rw whole (or-true (a (suc l) c)))
    | no ne ↦ ap₂ ◌||◌ (split-half_beside a l b c ne) (level_beside a l b (c / 2) ne)
  ]

  -- Below level `l` the same blocks are free.
  pub is_free-split :
      (n c : ℕ) → is_free (split_block a l b) (below (suc l) n) c ≡ is_free a (below (suc l) n) c
  unfolding is_free
  is_free-split zero c = split_level c
  is_free-split (suc n) c =
      ap₂ ◌||◌ (split-below a l b (suc (below (suc l) n)) c (omega (arith, below-add (suc l) n)))
        (is_free-split n (c / 2))

  pub split_block-IsAntichain : IsAntichain a → IsAntichain (split_block a l b)
  split_block-IsAntichain anti m c h = elim (dec_lt m l) [
    | yes above ↦
        is_free-congr (split_block a l b) a m (c / 2)
          (λ i d le. split-above a l b i d (omega arith))
        ∙ anti m c (split-shallow a l b (suc m) c (omega arith) h)
    | no not_above ↦ elim (ℕ_discrete m l) [
      | yes same ↦ elim (ℕ_discrete (c / 2) b) [
        | yes e ↦ rw (same, e) (level_gone a l b anti available)
        | no ne ↦
            let there : a (suc l) c ≡ true = sym (split-half_beside a l b c ne) ∙ (rw same at h) in
            rw same (level_beside a l b (c / 2) ne ∙ anti l c there)
      ]
      | no deeper ↦
          let depth : below (suc l) (m - suc l) ≡ m =
            omega (arith, below-add (suc l) (m - suc l)) in
          (rw depth at (is_free-split (m - suc l) (c / 2)))
          ∙ anti m c (sym (split-below a l b (suc m) c (omega arith)) ∙ h)
    ]
  ]
