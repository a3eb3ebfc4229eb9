-- ===== src/Pmm/Pools/Register.antt =====
-- `pmm_register_mem`: the pools that it sets up, and that it ends.
use yjkos.Prelude.{
  ℕ, zero, suc, ◌+◌, ◌*◌, ◌^◌, ◌/◌, ◌%◌, ◌≤◌, ◌<◌, ◌≡◌, refl, ◌∙◌, true, false, ◌&&◌, some, arith,
  ◌==◌, pos, Run, ok, length, replicate, length-replicate, get_or-replicate,
}
use native.Mathlib.Decide.{dec_lt}
use native.Mathlib.Nat.{pow-succ', pow-le-pow_right}
use yjkos.Bits.{word_mod}
use yjkos.Bits.Laws.{test_bit-zero}
use yjkos.Bitmap.{Bitmap, bits_per_word, bitmap_set_bit, bitmap_needed_word_count}
use yjkos.Bitmap.Single.{bitmap_set_bit-bit}
use yjkos.Bitmap.Spec.{bit, AreWords}
use yjkos.Buddy.{Blocks, is_free}
use yjkos.MiscMath.Align.{size_to_blocks-smallest}
use yjkos.Pmm.{PagePool, arch_pagesize, calculate_pagepool_sizes}
use yjkos.Pmm.Alloc.Take.{IsPool, page_free}
use yjkos.Pmm.Levels.{node}
use yjkos.Pmm.Pools.{new_pool}
use yjkos.Pmm.Sizes.{calculate_pagepool_sizes_lem, pow_two-pos}
use yjkos.Pmm.View.{IsTree, available}

pub bit-replicate : (n k : ℕ) → bit (replicate n 0) k ≡ false
unfolding bit
bit-replicate n k =
    rw (get_or-replicate {A = ℕ} n (k / bits_per_word) 0) (test_bit-zero (k % bits_per_word))

-- Only block 0 of level 0 is available in a bitmap that has its first bit only.
available-first :
    (depth : ℕ) (bitmap : Bitmap)
    → ((k : ℕ) → bit bitmap k ≡ (k == 0))
    → (l b : ℕ) → available depth bitmap l b ≡ (l == 0 && b == 0)
unfolding available
available-first depth bitmap h zero b = ground (arith, h (node 0 b))
available-first depth bitmap h (suc l) b =
    ground (arith, h (node (suc l) b), pow-succ' 2 l, pow_two-pos l)

-- With all of the pool available, each of its pages is.
is_free-first : (a : Blocks) → a 0 0 ≡ true → (l p : ℕ) → p < 2 ^ l → is_free a l p ≡ true
unfolding is_free
is_free-first a h zero p lt = let e : p ≡ 0 = omega arith in rw e h
is_free-first a h (suc l) p lt =
    let rest = is_free-first a h l (p / 2) (omega (arith, pow-succ' 2 l)) in ground arith

-- A pool with all its pages free.
pub record IsFresh (base remaining depth : ℕ) (out : Run PagePool) : Type 0 where
  pub pool : PagePool
  pub returns : out ≡ ok pool
  pub fits : 2 ^ depth ≤ remaining
  pub based : pool.base_addr ≡ base
  pub pages : pool.page_count ≡ 2 ^ depth
  pub valid : IsPool depth pool
  pub all_free : (p : ℕ) → p < 2 ^ depth → page_free depth pool p ≡ true

shallow : (depth n : ℕ) → 2 ^ depth ≤ n → n < 2 ^ 20 → depth ≤ 20
shallow depth n le lt = elim (dec_lt 20 depth) [
  | yes p ↦
      let large : 2 ^ 20 ≤ 2 ^ depth =
        pow-le-pow_right {n = 2} (omega arith) {i = 20} (omega arith) in
      absurd (omega arith)
  | no p ↦ omega arith
]

-- A pool whose bitmap has its first bit only.
module _ (base remaining depth : ℕ) (pool : PagePool) (some_base : 0 < base)
    (ends : base + remaining * arch_pagesize < word_mod) (le : 2 ^ depth ≤ remaining)
    (based : pool.base_addr ≡ base) (pages : pool.page_count ≡ 2 ^ depth)
    (tree : IsTree depth pool.bitmap) (first : (k : ℕ) → bit pool.bitmap k ≡ (k == 0)) where
  pub first-IsPool : IsPool depth pool
  first-IsPool =
      let only = available-first depth pool.bitmap first in
      record {
        tree = tree;
        pages = pages;
        anti = λ l b h. absurd (ground (arith, only (suc l) b));
        shallow = shallow depth remaining le (omega arith);
        based = omega arith;
        ends = omega arith;
      }

  first-IsFresh : IsFresh base remaining depth (ok pool)
  first-IsFresh = record {
    pool = pool;
    returns = refl;
    fits = le;
    based = based;
    pages = pages;
    valid = first-IsPool;
    all_free =
        is_free-first (available depth pool.bitmap) (available-first depth pool.bitmap first 0 0)
          depth;
  }

-- the bitmap of a new pool
first_bit :
    (words : ℕ)
    → 0 < words
    → (bitmap : Bitmap) × (bitmap_set_bit (replicate words 0) (pos 0) ≡ some bitmap)
      × (length bitmap ≡ words)
      × AreWords bitmap
      × ((k : ℕ) → bit bitmap k ≡ (k == 0))
first_bit words h =
    let same : length (replicate {A = ℕ} words 0) ≡ words = length-replicate words 0 in
    let (bitmap, e, as_long, fits, bits) = bitmap_set_bit-bit (replicate words 0) 0 (omega arith) in
    (
      bitmap,
      e,
      as_long ∙ same,
      fits (λ i. let z = get_or-replicate {A = ℕ} words i 0 in omega arith),
      λ k. ground (arith, bits k, bit-replicate words k),
    )

-- A round of pmm_register_mem sets up a valid pool of the largest power of two of pages that fits
-- the region, at its start, with all its pages free.
pub new_pool-IsFresh :
    (base remaining : ℕ)
    → 0 < base
    → base % arch_pagesize ≡ 0
    → 0 < remaining
    → base + remaining * arch_pagesize < word_mod
    → (depth : ℕ) × (remaining < 2 ^ suc depth)
      × IsFresh base remaining depth (new_pool base remaining)
unfolding new_pool bitmap_needed_word_count
new_pool-IsFresh base remaining some_base aligned some_pages ends =
    let sizes = calculate_pagepool_sizes remaining in
    let (depth, pages, levels, le, lt, enough, bounded) =
      calculate_pagepool_sizes_lem remaining some_pages (omega arith) in
    let (words, counted, room, least) =
      size_to_blocks-smallest sizes.bit_count bits_per_word (omega arith) in
    let few : words ≤ sizes.bit_count = least sizes.bit_count (omega arith) in
    let (bitmap, marked, as_long, fits, first) =
      first_bit words (omega (arith, pow_two-pos depth, pow-succ' 2 depth)) in
    let whole : (base % arch_pagesize == 0) ≡ true = ground arith in
    let fresh =
      first-IsFresh base remaining depth
        (record { bitmap = bitmap; base_addr = base; page_count = sizes.page_count }) some_base ends
        le refl pages (record { room = omega arith; small = omega arith; fits = fits }) first in
    (depth, lt, rw (counted, whole, marked) fresh)
