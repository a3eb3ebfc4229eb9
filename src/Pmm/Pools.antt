-- ===== src/Pmm/Pools.antt =====
-- The entry points of kernel/mem/pmm.c. `s_firstpool` and the `nextpool` links are a list of pools,
-- the newest first; each function leaves the list that it made.
pub mod Register
pub mod Loop
pub mod Serve
use yjkos.Prelude.{
  ℕ, zero, suc, ◌+◌, ◌-◌, ◌*◌, ◌/◌, ◌%◌, Bool, true, false, ◌||◌, Option, none, some, List, [], ◌∷◌,
  pos, ltb, leb, ◌==◌, if◌then◌else◌, Run, ok, panicked, ◌>>=◌, or_panic, replicate,
}
use yjkos.Bits.{word_mod}
use yjkos.Bitmap.{bitmap_set_bit, bitmap_needed_word_count}
use yjkos.Pmm.{
  PagePool, PoolSizes, arch_pagesize, physicalptr_null, calculate_pagepool_sizes, alloc_from_pool,
  free_from_pool,
}

-- the pool that a round of the loop of `pmm_register_mem` sets up, in memory that the heap has
-- zeroed
unfoldable pub new_pool : ℕ → ℕ → Run PagePool
new_pool base remaining =
    let sizes = calculate_pagepool_sizes remaining in
    do
      word_count ← or_panic (bitmap_needed_word_count sizes.bit_count)
      bitmap ←
          if base % arch_pagesize == 0
          then or_panic (bitmap_set_bit (replicate word_count 0) (pos 0))
          else panicked
      ok (record { bitmap = bitmap; base_addr = base; page_count = sizes.page_count })

-- The loop of `pmm_register_mem`; `heap_allocs` says, for each round, whether `heap_alloc` returns
-- memory in it. `none` is a loop that has not ended after the rounds that the fuel allows.
unfoldable pub register_loop : (ℕ → Bool) → ℕ → ℕ → ℕ → List PagePool → Run (Option (List PagePool))
register_loop heap_allocs zero base remaining pools =
    if remaining == 0 then ok (some pools) else ok none
register_loop heap_allocs (suc fuel) base remaining pools =
    let again = register_loop heap_allocs fuel base remaining pools in
    let round = new_pool base remaining >>= λ pool.
    register_loop heap_allocs fuel ((base + arch_pagesize * pool.page_count) % word_mod)
      (remaining - pool.page_count) (pool ∷ pools) in
    if remaining == 0 then ok (some pools) else if heap_allocs fuel then round else again

unfoldable pub pmm_register_mem :
    (ℕ → Bool) → ℕ → List PagePool → ℕ → ℕ → Run (Option (List PagePool))
pmm_register_mem heap_allocs fuel pools base page_count =
    if base == 0 then panicked else register_loop heap_allocs fuel base page_count pools

-- the pools after a pool that the loop of `pmm_alloc` passes by
abbrev pub next_pool : PagePool → Run (ℕ × ℕ × List PagePool) → Run (ℕ × ℕ × List PagePool)
next_pool pool rest = do (result, page_count, pools) ← rest; ok (result, page_count, pool ∷ pools)

-- the loop of `pmm_alloc`: the address, `*page_count_inout` and the pools
unfoldable pub alloc_loop : ℕ → List PagePool → Run (ℕ × ℕ × List PagePool)
alloc_loop page_count [] = ok (physicalptr_null, page_count, [])
alloc_loop page_count (pool ∷ pools) = do
  (result, newpage_count, pool) ← alloc_from_pool pool page_count
  if result == physicalptr_null
      then next_pool pool (alloc_loop page_count pools)
      else ok (result, newpage_count, pool ∷ pools)

unfoldable pub pmm_alloc : List PagePool → ℕ → Run (ℕ × ℕ × List PagePool)
pmm_alloc pools page_count = if page_count == 0 then panicked else alloc_loop page_count pools

-- the loop of `pmm_free`
unfoldable pub pmm_free_loop : List PagePool → ℕ → ℕ → Run (List PagePool)
pmm_free_loop [] ptr page_count = panicked
pmm_free_loop (pool ∷ pools) ptr page_count =
    let pool_data_start = pool.base_addr in
    let pool_data_end =
      (pool_data_start + (arch_pagesize * pool.page_count + word_mod - 1)) % word_mod in
    let end = (ptr + (arch_pagesize * page_count + word_mod - 1)) % word_mod in
    let next = (do pools ← pmm_free_loop pools ptr page_count; ok (pool ∷ pools)) in
    if ltb ptr pool_data_start || ltb pool_data_end ptr
    then next
    else if leb end pool_data_start || ltb pool_data_end end
    then panicked
    else (do pool ← free_from_pool pool ptr page_count; ok (pool ∷ pools))

unfoldable pub pmm_free : List PagePool → ℕ → ℕ → Run (List PagePool)
pmm_free pools ptr page_count =
    if ptr == 0 || page_count == 0 then ok pools else pmm_free_loop pools ptr page_count

unfoldable pub total_pages : List PagePool → ℕ
total_pages [] = 0
total_pages (pool ∷ pools) = (pool.page_count + total_pages pools) % word_mod

-- The sum is that of the loop, up to the order of its terms.
unfoldable pub pmm_get_total_mem_size : List PagePool → Run ℕ
pmm_get_total_mem_size pools =
    if leb (total_pages pools) ((word_mod - 1) / arch_pagesize)
    then ok (total_pages pools * arch_pagesize % word_mod)
    else panicked
