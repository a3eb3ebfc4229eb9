-- ===== src/Buddy/Insert.antt =====
-- Making an unused block available frees what is part of it, and nothing else.
use native.Mathlib.Decide.{dec_lt, ℕ_discrete}
use yjkos.Prelude.{ℕ, zero, suc, ◌-◌, ◌/◌, ◌<◌, ◌≡◌, ◌∙◌, true, false, ◌||◌, arith, ◌==◌}
use yjkos.Bits.{shr}
use yjkos.Buddy.{Blocks, put, is_free, IsAntichain, IsUnused, below}
use yjkos.Buddy.Ancestors.{is_free-congr, is_free_above, below-add}

insert-level : (a : Blocks) (l b c : ℕ) → is_free (put a l b true) l c ≡ (is_free a l c || c == b)
unfolding is_free
insert-level a zero b c = ground arith
insert-level a (suc l) b c =
    let same = is_free-congr (put a (suc l) b true) a l (c / 2) (λ i d le. ground arith) in
    ground arith

module _ (a : Blocks) (l b : ℕ) where
  pub is_free-insert :
      (n c : ℕ) → is_free (put a l b true) (below l n) c ≡ (is_free a (below l n) c || shr c n == b)
  unfolding is_free shr
  is_free-insert zero c = insert-level a l b c
  is_free-insert (suc n) c = ground (arith, is_free-insert n (c / 2), below-add l n)

  insert_above :
      (m c : ℕ)
      → IsAntichain a
      → IsUnused a l b
      → m < l
      → put a l b true (suc m) c ≡ true
      → is_free a m (c / 2) ≡ false
  insert_above m c anti unused above h = elim (ℕ_discrete (suc m) l) [
    | yes e ↦ elim (ℕ_discrete c b) [
      | yes same ↦
          let whole : is_free a (suc m) c ≡ false = rw (e, same) unused.not_free in
          is_free_above a m c whole
      | no other ↦ anti m c (ground arith)
    ]
    | no far ↦ anti m c (ground arith)
  ]

  pub insert-IsAntichain : IsAntichain a → IsUnused a l b → IsAntichain (put a l b true)
  unfolding shr
  insert-IsAntichain anti unused m c h = elim (dec_lt m l) [
    | yes above ↦
        is_free-congr (put a l b true) a m (c / 2) (λ i d le. ground arith)
        ∙ insert_above m c anti unused above h
    | no not_above ↦
        let depth : below l (m - l) ≡ m = omega (arith, below-add l (m - l)) in
        let there : a (suc m) c ≡ true = ground arith in
        (rw depth at (is_free-insert (m - l) (c / 2)))
        ∙ ground (arith, anti m c there, apart m c unused depth there)
  ]
    where
      apart :
          (m c : ℕ)
          → IsUnused a l b
          → below l (m - l) ≡ m
          → a (suc m) c ≡ true
          → (shr (c / 2) (m - l) == b) ≡ false
      apart m c unused depth there = elim (ℕ_discrete (shr (c / 2) (m - l)) b) [
        | yes e ↦
            let part : a (suc (below l (m - l))) c ≡ false = unused.no_part (suc (m - l)) c e in
            absurd (cc)
        | no ne ↦ ground arith
      ]
