-- ===== src/Pmm.antt =====
-- kernel/mem/pmm.c: pools of pages that are handed out by the buddy scheme. The interrupt flag,
-- which each entry point saves and restores, and the messages are left out; so are the self-tests,
-- which a constant turns off. `Run` has the panics.
pub mod Sizes
pub mod Levels
pub mod View
pub mod Alloc
pub mod Free
pub mod Pools
mod Tests
use yjkos.Prelude.{
  ℕ, zero, suc, ◌+◌, ◌-◌, ◌*◌, ◌/◌, ◌%◌, ◌^◌, Bool, true, false, ◌||◌, Option, none, some, List, [],
  ◌∷◌, ℤ, pos, ltb, leb, ◌==◌, if◌then◌else◌, Run, ok, panicked, ◌>>=◌, or_panic, replicate,
}
use yjkos.Bits.{word_mod}
use yjkos.Bitmap.{
  Bitmap, bitmap_find_set_bits, bitmap_set_bit, bitmap_clear_bit, bitmap_is_bit_set,
  bitmap_needed_word_count,
}

abbrev pub arch_pagesize : ℕ
arch_pagesize = 4096

abbrev pub physicalptr_null : ℕ
physicalptr_null = 0

-- `SIZE_MAX / 2`
abbrev pub half_size_max : ℕ
half_size_max = 2147483647

-- `struct pagepool`; the list of pools stands for the `nextpool` links. No code reads or writes
-- `level_count`.
pub record PagePool : Type 0 where
  pub bitmap : Bitmap
  pub base_addr : ℕ
  pub page_count : ℕ

-- the results through `page_count_out`, `level_count_out` and `bit_count_out`
pub record PoolSizes : Type 0 where
  pub page_count : ℕ
  pub level_count : ℕ
  pub bit_count : ℕ

-- `current_page_count` halves in each round, so a `size_t` takes at most 32 rounds.
unfoldable pub pool_sizes_loop : ℕ → ℕ → PoolSizes → PoolSizes
pool_sizes_loop zero current s = s
pool_sizes_loop (suc fuel) current s =
    let rest = pool_sizes_loop fuel (current / 2) (record {
      page_count = s.page_count * 2 % word_mod;
      level_count = s.level_count + 1;
      bit_count = (s.bit_count + current) % word_mod;
    }) in
    if ltb 1 current then rest else s

unfoldable pub calculate_pagepool_sizes : ℕ → PoolSizes
calculate_pagepool_sizes page_count =
    pool_sizes_loop 32 page_count (record { page_count = 1; level_count = 1; bit_count = 1 })

-- the loop of `bit_indices_range_for_level`, with the rounds left
unfoldable pub level_range_loop : ℕ → ℕ → ℕ → ℕ × ℕ
level_range_loop zero blockinlevel bitoffset = (bitoffset, bitoffset + blockinlevel - 1)
level_range_loop (suc n) blockinlevel bitoffset =
    level_range_loop n (blockinlevel * 2) (bitoffset + blockinlevel)

unfoldable pub bit_indices_range_for_level : ℕ → ℕ × ℕ
bit_indices_range_for_level level = level_range_loop level 1 0

unfoldable pub bit_index_for_pagepool_block : ℕ → ℕ → Run ℕ
bit_index_for_pagepool_block level block =
    let (start, end) = bit_indices_range_for_level level in
    if ltb block (end - start + 1) then ok (start + block) else panicked

-- `sizeperblock` halves in each round, so a `size_t` takes at most 32 rounds.
unfoldable pub level_loop : ℕ → ℕ → ℕ → ℕ → ℕ
level_loop zero size sizeperblock currentlevel = currentlevel
level_loop (suc fuel) size sizeperblock currentlevel =
    let rest = level_loop fuel size (sizeperblock / 2) (currentlevel + 1) in
    if ltb size sizeperblock then rest else currentlevel

unfoldable pub block_size_to_pagepool_level : PagePool → ℕ → ℕ
block_size_to_pagepool_level pool size = level_loop 32 size pool.page_count 0

-- The loop to the next power of two; it stops at the last one that a `size_t` holds, so 33 rounds
-- are enough. `none` is the jump to the failure.
unfoldable pub block_size_loop : ℕ → ℕ → ℕ → Option ℕ
block_size_loop zero page_count block_size = none
block_size_loop (suc fuel) page_count block_size =
    let rest = block_size_loop fuel page_count (block_size * 2) in
    if ltb block_size page_count
    then (if ltb half_size_max block_size then none else rest)
    else some block_size

unfoldable pub to_block_size : ℕ → Option ℕ
to_block_size page_count = block_size_loop 33 page_count 1

-- the block of the level that `bitmap_find_set_bits` shows, if it does
unfoldable pub find_in_level : Bitmap → ℕ → Option ℕ
find_in_level bitmap level =
    let (bit_start, bit_end) = bit_indices_range_for_level level in
    elim (bitmap_find_set_bits bitmap (pos bit_start) 1) [
      | none ↦ none
      | some found_at ↦ if leb found_at bit_end then some (found_at - bit_start) else none
    ]

-- The search from `wanted_level` up to level 0: the level and the block.
unfoldable pub find_block : Bitmap → ℕ → Option (ℕ × ℕ)
find_block bitmap zero = elim (find_in_level bitmap zero) [
  | none ↦ none
  | some block ↦ some (zero, block)
]
find_block bitmap (suc level) = elim (find_in_level bitmap (suc level)) [
  | none ↦ find_block bitmap level
  | some block ↦ some (suc level, block)
]

-- The `for` loop that splits, with the rounds left; it leaves the bitmap and the block.
unfoldable pub split_loop : ℕ → Bitmap → ℕ → ℕ → Run (Bitmap × ℕ)
split_loop zero bitmap currentlevel current = ok (bitmap, current)
split_loop (suc n) bitmap currentlevel current = do
  bit_index ← bit_index_for_pagepool_block currentlevel current
  bitmap ← or_panic (bitmap_clear_bit bitmap (pos bit_index))
  bit_index ← bit_index_for_pagepool_block (currentlevel + 1) (current * 2 + 1)
  bitmap ← or_panic (bitmap_set_bit bitmap (pos bit_index))
  split_loop n bitmap (currentlevel + 1) (current * 2)

-- what an allocation leaves: the address, `*page_count_inout` and the pool
abbrev pub Allocated : Type 0
Allocated = ℕ × ℕ × PagePool

-- the part of `alloc_from_pool` from the block that was found on
unfoldable pub take_block : PagePool → ℕ → ℕ → ℕ → ℕ → Run Allocated
take_block pool block_size wanted_level found_level found_block = do
  (bitmap, current) ← split_loop (wanted_level - found_level) pool.bitmap found_level found_block
  bit_index ← bit_index_for_pagepool_block wanted_level current
  bitmap ← or_panic (bitmap_clear_bit bitmap (pos bit_index))
  ok (
    (pool.base_addr + block_size * current * arch_pagesize) % word_mod,
    block_size,
    record pool { bitmap = bitmap },
  )

-- the rest of `alloc_from_pool`, once the size of the block and its level are known
unfoldable pub alloc_at_level : PagePool → ℕ → ℕ → Run Allocated
alloc_at_level pool block_size wanted_level = elim (find_block pool.bitmap wanted_level) [
  | none ↦ ok (physicalptr_null, block_size, pool)
  | some (found_level, block) ↦ take_block pool block_size wanted_level found_level block
]

unfoldable pub alloc_block : PagePool → ℕ → Run Allocated
alloc_block pool block_size =
    alloc_at_level pool block_size (block_size_to_pagepool_level pool block_size)

unfoldable pub alloc_from_pool : PagePool → ℕ → Run Allocated
alloc_from_pool pool page_count =
    if page_count == 0 then panicked else elim (to_block_size page_count) [
      | none ↦ ok (physicalptr_null, page_count, pool)
      | some block_size ↦
          if ltb pool.page_count block_size
          then ok (physicalptr_null, page_count, pool)
          else alloc_block pool block_size
    ]

-- The loop of `free_from_pool`: it goes up by a level in each round.
unfoldable pub free_loop : ℕ → ℕ → Bitmap → Run Bitmap
free_loop zero block bitmap = do
  bit_index ← bit_index_for_pagepool_block zero block
  is_set ← or_panic (bitmap_is_bit_set bitmap (pos bit_index))
  if is_set then panicked else or_panic (bitmap_set_bit bitmap (pos bit_index))
free_loop (suc level) block bitmap = do
  bit_index ← bit_index_for_pagepool_block (suc level) block
  is_set ← or_panic (bitmap_is_bit_set bitmap (pos bit_index))
  if is_set then panicked else do
    bitmap ← or_panic (bitmap_set_bit bitmap (pos bit_index))
    let neighbor = if block % 2 == 0 then bit_index + 1 else bit_index - 1
    neighbor_set ← or_panic (bitmap_is_bit_set bitmap (pos neighbor))
    elim neighbor_set [
      | false ↦ ok bitmap
      | true ↦ do
        bitmap ← or_panic (bitmap_clear_bit bitmap (pos bit_index))
        bitmap ← or_panic (bitmap_clear_bit bitmap (pos neighbor))
        free_loop level (block / 2) bitmap
    ]

-- Sums and products of addresses are of type `uintptr_t`.
unfoldable pub free_from_pool : PagePool → ℕ → ℕ → Run PagePool
free_from_pool pool ptr page_count =
    let pool_end = (pool.base_addr + arch_pagesize * pool.page_count) % word_mod in
    let block_end = (ptr + arch_pagesize * page_count) % word_mod in
    if ptr == 0
    then ok pool
    else if ltb ptr pool.base_addr || ltb pool_end block_end
    then panicked
    else elim (to_block_size page_count) [
      | none ↦ panicked
      | some block_size ↦
          let block = (ptr - pool.base_addr) / (block_size * arch_pagesize) in
          let level = block_size_to_pagepool_level pool block_size in
          if ltb pool.page_count block_size
          then panicked
          else if (ptr - pool.base_addr) % (block_size * arch_pagesize) == 0
          then (do bitmap ← free_loop level block pool.bitmap; ok (record pool { bitmap = bitmap }))
          else panicked
    ]
