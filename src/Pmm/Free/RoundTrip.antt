-- ===== src/Pmm/Free/RoundTrip.antt =====
-- An allocation that is freed again.
use yjkos.Prelude.{ℕ, ◌+◌, ◌*◌, ◌^◌, ◌≤◌, ◌<◌, ◌≡◌, ◌≢◌, sym, ap, ◌∙◌, arith, Run, ok, panicked}
use yjkos.Pmm.{
  PagePool, Allocated, arch_pagesize, physicalptr_null, free_from_pool, alloc_from_pool,
}
use yjkos.Pmm.Alloc.Take.{
  IsPool, page_free, IsTaken, alloc_from_pool-Outcome, too_large, exhausted, taken,
}
use yjkos.Pmm.Free.Return.{free_from_pool-IsReturned}

free_from_pool-taken :
    {depth k : ℕ} {pool : PagePool} {out : Run Allocated} (n : ℕ)
    → k ≤ depth
    → n ≤ 2 ^ k
    → 2 ^ k < 2 * n
    → IsTaken depth k pool out
    → (ptr : ℕ) × (pool' pool'' : PagePool) × (out ≡ ok (ptr, 2 ^ k, pool'))
      × (free_from_pool pool' ptr n ≡ ok pool'')
      × IsPool depth pool''
      × ((p : ℕ) → page_free depth pool'' p ≡ page_free depth pool p)
free_from_pool-taken {depth} {k} {pool} n le lo hi t =
    let pool' = record pool { bitmap = t.bitmap } in
    let back =
      free_from_pool-IsReturned t.valid k t.block le t.inside n lo hi
        (λ p e. t.now_free p ∙ ground arith) in
    (
      pool.base_addr + 2 ^ k * t.block * arch_pagesize,
      pool',
      record pool { bitmap = back.bitmap },
      t.returns,
      back.returns,
      back.valid,
      (λ p. back.now_free p ∙ ground (arith, t.was_free p, t.now_free p)),
    )

result : Allocated → Run Allocated → Allocated
result d (ok r) = r
result d panicked = d

-- Freeing what alloc_from_pool returned from a valid pool, with the same page count, succeeds and
-- makes the same pages free as before the allocation.
pub free_from_pool-alloc_from_pool :
    {depth : ℕ} {pool : PagePool}
    → IsPool depth pool
    → (n ptr size : ℕ) (pool' : PagePool) → 0 < n
    → alloc_from_pool pool n ≡ ok (ptr, size, pool')
    → ptr ≢ physicalptr_null
    → (pool'' : PagePool) × (free_from_pool pool' ptr n ≡ ok pool'')
      × IsPool depth pool''
      × ((p : ℕ) → page_free depth pool'' p ≡ page_free depth pool p)
unfolding result
free_from_pool-alloc_from_pool {depth} {pool} v n ptr size pool' some_pages done got =
    elim (alloc_from_pool-Outcome v n some_pages) [
      | too_large h e ↦ absurd (got (ap (λ r. (result (0, 0, pool) r).0) (sym done ∙ e)))
      | exhausted k lo hi le h e ↦ absurd (got (ap (λ r. (result (0, 0, pool) r).0) (sym done ∙ e)))
      | taken k lo hi le t ↦
          let (ptr1, pool1, pool2, returns, back, valid, same) =
            free_from_pool-taken n le lo hi t in
          let where_at : ptr1 ≡ ptr = ap (λ r. (result (0, 0, pool) r).0) (sym returns ∙ done) in
          let which : pool1 ≡ pool' = ap (λ r. (result (0, 0, pool) r).2) (sym returns ∙ done) in
          (pool2, rw (sym where_at, sym which) back, valid, same)
    ]
