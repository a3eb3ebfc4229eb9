-- ===== src/Pmm/Pools/Serve.antt =====
-- `pmm_alloc` and `pmm_free` over all pools.
use yjkos.Prelude.{
  ℕ, ◌+◌, ◌-◌, ◌*◌, ◌^◌, ◌≤◌, ◌<◌, ◌≡◌, refl, ap, false, List, [], ◌∷◌, ◌++◌, ◌⊎◌, inl, inr, arith,
  ◌==◌, Run, ok,
}
use yjkos.Buddy.{is_free}
use yjkos.Pmm.{PagePool, Allocated, arch_pagesize, physicalptr_null}
use yjkos.Pmm.Alloc.Take.{IsPool, IsTaken, alloc_from_pool-Outcome, too_large, exhausted, taken}
use yjkos.Pmm.Pools.{next_pool, alloc_loop, pmm_alloc}
use yjkos.Pmm.View.{available}

-- Every pool is valid, at some depth.
abbrev pub ArePools : List PagePool → Type 0
ArePools [] = Unit
ArePools (pool ∷ pools) = (depth : ℕ) × IsPool depth pool × ArePools pools

-- The smallest block that `n` pages fit in is larger than the pool, or none of its size is free.
abbrev pub IsExhausted : ℕ → ℕ → PagePool → Type 0
IsExhausted n depth pool =
    (2 ^ depth < n)
    ⊎ ((k : ℕ) × (n ≤ 2 ^ k)
        × (2 ^ k < 2 * n)
        × (k ≤ depth)
        × ((b : ℕ) → is_free (available depth pool.bitmap) (depth - k) b ≡ false))

abbrev pub AreExhausted : ℕ → List PagePool → Type 0
AreExhausted n [] = Unit
AreExhausted n (pool ∷ pools) =
    (depth : ℕ) × IsPool depth pool × IsExhausted n depth pool × AreExhausted n pools

-- How `pmm_alloc` can end for `n` pages: with the null address and all pools as they were, or with
-- a block of the first pool that has one.
pub data Served (n : ℕ) (pools : List PagePool) (out : Run (ℕ × ℕ × List PagePool)) : Type 0 where
  refused : AreExhausted n pools → out ≡ ok (physicalptr_null, n, pools) → Served n pools out
  served :
      (before after : List PagePool) (pool pool' : PagePool) (depth k ptr : ℕ)
      {taking : Run Allocated}
      → pools ≡ before ++ pool ∷ after
      → AreExhausted n before
      → n ≤ 2 ^ k
      → 2 ^ k < 2 * n
      → IsTaken depth k pool taking
      → taking ≡ ok (ptr, 2 ^ k, pool')
      → out ≡ ok (ptr, 2 ^ k, before ++ pool' ∷ after)
      → Served n pools out

-- A pool without a block is passed by.
pass_by :
    (n depth : ℕ) (pool : PagePool) (pools : List PagePool) {rest : Run (ℕ × ℕ × List PagePool)}
    → IsPool depth pool
    → IsExhausted n depth pool
    → Served n pools rest
    → Served n (pool ∷ pools) (next_pool pool rest)
pass_by n depth pool pools v x (refused all e) = refused (depth, v, x, all) (rw e refl)
pass_by n depth pool pools v x (served before after p p' d k ptr split all lo hi t taking e) =
    served (pool ∷ before) after p p' d k ptr (ap (λ ps. pool ∷ ps) split) (depth, v, x, all) lo hi
      t taking (rw e refl)

alloc_loop-Served :
    (n : ℕ) → 0 < n → (pools : List PagePool) → ArePools pools → Served n pools (alloc_loop n pools)
unfolding alloc_loop
alloc_loop-Served n h [] v = refused v refl
alloc_loop-Served n h (pool ∷ pools) (depth, v, vs) = elim (alloc_from_pool-Outcome v n h) [
  | too_large large e ↦
      rw e (pass_by n depth pool pools v (inl large) (alloc_loop-Served n h pools vs))
  | exhausted k lo hi le none e ↦
      rw e
        (pass_by n depth pool pools v (inr (k, lo, hi, le, none)) (alloc_loop-Served n h pools vs))
  | taken k lo hi le t ↦
      let ptr = pool.base_addr + 2 ^ k * t.block * arch_pagesize in
      let pool' = record pool { bitmap = t.bitmap } in
      let got : (ptr == physicalptr_null) ≡ false = ground (arith, v.based) in
      rw (t.returns, got)
        (served [] pools pool pool' depth k ptr refl (record {}) lo hi t t.returns refl)
]

-- Over valid pools and for a page count that is not 0, pmm_alloc returns null with all pools as
-- they were, each being exhausted for the request, or takes a block from the first pool that is not
-- exhausted and leaves the others.
pub pmm_alloc-Served :
    (n : ℕ) → 0 < n → (pools : List PagePool) → ArePools pools → Served n pools (pmm_alloc pools n)
unfolding pmm_alloc
pmm_alloc-Served n h pools v =
    let e : (n == 0) ≡ false = ground arith in rw e (alloc_loop-Served n h pools v)
