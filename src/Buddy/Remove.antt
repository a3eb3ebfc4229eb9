-- ===== src/Buddy/Remove.antt =====
-- Taking an available block away frees exactly what is not part of it.
use native.Mathlib.Decide.{ℕ_discrete}
use yjkos.Prelude.{ℕ, zero, suc, ◌/◌, ◌≡◌, true, false, not, ◌&&◌, arith, ◌==◌}
use yjkos.Bits.{shr}
use yjkos.Buddy.{Blocks, put, is_free, IsAntichain, below}
use yjkos.Buddy.Ancestors.{is_free-congr, is_free_mono, nothing_inside, below-add}

remove-level :
    (a : Blocks) (l b c : ℕ)
    → IsAntichain a
    → a l b ≡ true
    → is_free (put a l b false) l c ≡ (is_free a l c && not (c == b))
unfolding is_free
remove-level a zero b c anti h = ground arith
remove-level a (suc l) b c anti h =
    let same = is_free-congr (put a (suc l) b false) a l (c / 2) (λ i d le. ground arith) in
    elim (ℕ_discrete c b) [ yes e ↦ ground (arith, anti l b h) | no ne ↦ ground arith ]

module _ (a : Blocks) (l b : ℕ) (anti : IsAntichain a) (available : a l b ≡ true) where
  pub is_free-remove :
      (n c : ℕ)
      → is_free (put a l b false) (below l n) c ≡ (is_free a (below l n) c && not (shr c n == b))
  unfolding is_free shr
  is_free-remove zero c = remove-level a l b c anti available
  is_free-remove (suc n) c = elim (ℕ_discrete (shr (c / 2) n) b) [
    | yes e ↦
        ground (
          arith,
          is_free-remove n (c / 2),
          below-add l n,
          nothing_inside a l b n c anti available e,
        )
    | no ne ↦ ground (arith, is_free-remove n (c / 2), below-add l n)
  ]

  pub remove-IsAntichain : IsAntichain (put a l b false)
  remove-IsAntichain m c h =
      is_free_mono a (put a l b false) m (c / 2) (λ i d. ground arith) (anti m c (ground arith))
