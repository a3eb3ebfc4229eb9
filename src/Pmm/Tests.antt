-- ===== src/Pmm/Tests.antt =====
-- Runs of kernel/mem/pmm.c on a pool of two pages.
use yjkos.Prelude.{
  ℕ, zero, suc, ◌+◌, ◌-◌, ◌*◌, ◌^◌, ◌/◌, ◌<◌, ◌≡◌, refl, ap, ◌∙◌, true, false, none, some, List, [],
  ◌∷◌, arith, ◌==◌, ok,
}
use native.Mathlib.Decide.{dec_lt}
use yjkos.Bits.{shr, shl, test_bit}
use yjkos.Bits.Laws.{test_bit-zero}
use yjkos.Bitmap.{
  bitmap_find_set_bits, returned, find_set_bits_loop, bitmap_find_first_set_bit, find_first_loop,
  found_at, find_first_in_word, skip_zeros, bitmap_find_last_contiguous_bit,
  find_last_contiguous_loop, find_last_contiguous_in_word, skip_ones, found_len, next_start,
  bitmap_clear_bit, word_at, bit_clear, one_bit,
}
use yjkos.Bitmap.Spec.{bit, AreWords, bit-within, bit-past}
use yjkos.Buddy.{is_free}
use yjkos.Pmm.{
  PagePool, arch_pagesize, block_size_loop, alloc_block, block_size_to_pagepool_level, level_loop,
  alloc_at_level, find_block, find_in_level, bit_indices_range_for_level, level_range_loop,
  take_block, split_loop, bit_index_for_pagepool_block, to_block_size, alloc_from_pool,
  free_from_pool,
}
use yjkos.Pmm.Alloc.Take.{IsPool, page_free, Outcome, alloc_from_pool-Outcome}
use yjkos.Pmm.Free.Return.{IsReturned, free_from_pool-IsReturned}
use yjkos.Pmm.Free.RoundTrip.{free_from_pool-alloc_from_pool}
use yjkos.Pmm.Pools.{pmm_register_mem, pmm_alloc, new_pool}
use yjkos.Pmm.Pools.Loop.{Registered, pmm_register_mem-Registered, pmm_register_mem-stuck}
use yjkos.Pmm.Pools.Register.{IsFresh, new_pool-IsFresh, bit-replicate, first-IsPool}
use yjkos.Pmm.Pools.Serve.{Served, pmm_alloc-Served}
use yjkos.Pmm.View.{available}

-- two pages, both free, and both in use
abbrev fresh_pool : PagePool
fresh_pool = record { bitmap = 1 ∷ []; base_addr = 4096; page_count = 2 }

abbrev used_pool : PagePool
used_pool = record { bitmap = 0 ∷ []; base_addr = 4096; page_count = 2 }

word-AreWords : (w : ℕ) → w < 4294967296 → AreWords (w ∷ [])
word-AreWords w h zero = h
word-AreWords w h (suc i) = omega arith

one-digit : (k : ℕ) → test_bit 1 k ≡ (k == 0)
unfolding test_bit
one-digit zero = refl
one-digit (suc k) = test_bit-zero k ∙ ground arith

first-bit : (k : ℕ) → bit (1 ∷ []) k ≡ (k == 0)
first-bit k = elim (dec_lt k 32) [
  | yes p ↦
      let e : k - 0 * 32 ≡ k = omega arith in
      bit-within (1 ∷ []) 0 k (omega arith) (omega arith) ∙ ap (test_bit 1) e ∙ one-digit k
  | no p ↦ bit-past (1 ∷ []) k (omega arith) ∙ ground arith
]

fresh_pool-IsPool : IsPool 1 fresh_pool
fresh_pool-IsPool =
    first-IsPool 4096 2 1 fresh_pool (omega arith) (omega arith) (omega arith) refl refl
      (record { room = omega arith; small = omega arith; fits = word-AreWords 1 (omega arith) })
      first-bit

nothing_available : (l b : ℕ) → available 1 (0 ∷ []) l b ≡ false
unfolding available
nothing_available l b = ground (arith, bit-replicate 1 (2 ^ l - 1 + b))

used_pool-IsPool : IsPool 1 used_pool
used_pool-IsPool = record {
  tree = record { room = omega arith; small = omega arith; fits = word-AreWords 0 (omega arith) };
  pages = refl;
  anti = λ l b h. absurd (cc (nothing_available (suc l) b, h));
  shallow = omega arith;
  based = omega arith;
  ends = omega arith;
}

used_pool-used : (p : ℕ) → shr p 1 ≡ 0 → page_free 1 used_pool p ≡ false
unfolding is_free
used_pool-used p h = rw (nothing_available 1 p, nothing_available 0 (p / 2)) refl

alloc_from_pool-Outcome_example : Outcome 1 fresh_pool 1 (alloc_from_pool fresh_pool 1)
alloc_from_pool-Outcome_example = alloc_from_pool-Outcome fresh_pool-IsPool 1 (omega arith)

free_from_pool-IsReturned_example :
    IsReturned 1 1 0 used_pool (free_from_pool used_pool (4096 + 2 ^ 1 * 0 * arch_pagesize) 2)
free_from_pool-IsReturned_example =
    free_from_pool-IsReturned used_pool-IsPool 1 0 (omega arith) (omega arith) 2 (omega arith)
      (omega arith) used_pool-used

whole_pool : alloc_from_pool fresh_pool 2 ≡ ok (4096, 2, used_pool)
unfolding alloc_from_pool to_block_size block_size_loop alloc_block block_size_to_pagepool_level
    level_loop alloc_at_level find_block find_in_level bit_indices_range_for_level level_range_loop
    bitmap_find_set_bits returned find_set_bits_loop bitmap_find_first_set_bit find_first_loop
    found_at find_first_in_word skip_zeros shr bitmap_find_last_contiguous_bit
    find_last_contiguous_loop find_last_contiguous_in_word skip_ones found_len next_start take_block
    split_loop bit_index_for_pagepool_block bitmap_clear_bit word_at bit_clear one_bit shl
whole_pool = refl

free_from_pool-alloc_from_pool_example :
    (pool'' : PagePool) × (free_from_pool used_pool 4096 2 ≡ ok pool'')
    × IsPool 1 pool''
    × ((p : ℕ) → page_free 1 pool'' p ≡ page_free 1 fresh_pool p)
free_from_pool-alloc_from_pool_example =
    free_from_pool-alloc_from_pool fresh_pool-IsPool 2 4096 2 used_pool (omega arith) whole_pool
      (omega arith)

pmm_register_mem-Registered_example :
    (pools' : List PagePool) × (pmm_register_mem (λ i. true) 3 [] 4096 5 ≡ ok (some pools'))
    × Registered (4096 + 5 * arch_pagesize) pools' 4096 []
pmm_register_mem-Registered_example =
    pmm_register_mem-Registered (λ i. true) (λ i. refl) 3 4096 5 [] (omega arith) refl (omega arith)
      (omega arith)

pmm_register_mem-stuck_example : pmm_register_mem (λ i. false) 100 [] 4096 5 ≡ ok none
pmm_register_mem-stuck_example =
    pmm_register_mem-stuck (λ i. false) (λ i. refl) 100 4096 5 [] (omega arith) (omega arith)

new_pool-IsFresh_example :
    (depth : ℕ) × (5 < 2 ^ suc depth) × IsFresh 4096 5 depth (new_pool 4096 5)
new_pool-IsFresh_example = new_pool-IsFresh 4096 5 (omega arith) refl (omega arith) (omega arith)

pmm_alloc-Served_example :
    Served 1 (used_pool ∷ fresh_pool ∷ []) (pmm_alloc (used_pool ∷ fresh_pool ∷ []) 1)
pmm_alloc-Served_example =
    pmm_alloc-Served 1 (omega arith) (used_pool ∷ fresh_pool ∷ [])
      (1, used_pool-IsPool, (1, fresh_pool-IsPool, record {}))
