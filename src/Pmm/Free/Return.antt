-- ===== src/Pmm/Free/Return.antt =====
-- `free_from_pool`: a block that is in use becomes free, and nothing else changes.
use yjkos.Prelude.{
  ℕ, zero, suc, ◌+◌, ◌-◌, ◌*◌, ◌^◌, ◌/◌, ◌%◌, ◌≤◌, ◌<◌, ◌≡◌, inl, inr, refl, sym, ap, ◌∙◌,
  Bool-cases, true, false, ◌||◌, Option, none, some, arith, ltb, ◌==◌, Run, ok, ◌>>=◌,
}
use mathlib.Core.Path.{subst}
use native.Mathlib.Decide.{dec_lt}
use native.Mathlib.Nat.{
  mod-eq_of_lt, mul-div_cancel_left, mul-mod_right, pow-succ', pow-le-pow_right,
}
use yjkos.Bits.{word_mod, shr, shl}
use yjkos.Bitmap.{Bitmap}
use yjkos.Buddy.{is_free, IsUnused, below}
use yjkos.Buddy.Ancestors.{below-add, is_free_within, not_available}
use yjkos.Pmm.{PagePool, arch_pagesize, free_loop, free_from_pool, to_block_size}
use yjkos.Pmm.Alloc.Take.{IsPool, page_free}
use yjkos.Pmm.Free.Loop.{IsFreed, free_loop-IsFreed}
use yjkos.Pmm.Sizes.{IsBlockSize, to_block_size-IsBlockSize, level_in_pool, pow_two-pos, pow-split}
use yjkos.Pmm.View.{available}

-- the first page of the block
shr-shl : (b n : ℕ) → shr (shl b n) n ≡ b
unfolding shr shl
shr-shl b zero = refl
shr-shl b (suc n) = let e : 2 * shl b n / 2 ≡ shl b n = omega arith in rw e (shr-shl b n)

shr-add : (p m n : ℕ) → shr (shr p m) n ≡ shr p (m + n)
unfolding shr
shr-add p zero n = let e : 0 + n ≡ n = omega arith in rw e
shr-add p (suc m) n = let e : suc m + n ≡ suc (m + n) = omega arith in rw e (shr-add (p / 2) m n)

-- The pages of block `block` of `2 ^ k` pages have become free, and all others are as they were.
pub record IsReturned (depth k block : ℕ) (pool : PagePool) (out : Run PagePool) : Type 0 where
  pub bitmap : Bitmap
  pub returns : out ≡ ok (record pool { bitmap = bitmap })
  pub now_free :
      (p : ℕ)
      → is_free (available depth bitmap) depth p ≡ (page_free depth pool p || shr p k == block)
  pub valid : IsPool depth (record pool { bitmap = bitmap })

available-deep :
    (depth : ℕ) (bitmap : Bitmap) (l b : ℕ) → depth < l → available depth bitmap l b ≡ false
unfolding available
available-deep depth bitmap l b h = ground arith

module _ (depth : ℕ) (bitmap : Bitmap) (k block : ℕ) (le : k ≤ depth)
    (used : (p : ℕ) → shr p k ≡ block → is_free (available depth bitmap) depth p ≡ false) where
  -- A block whose pages are all in use is free at no level.
  free-used :
      (n c : ℕ)
      → n ≤ k
      → shr c n ≡ block
      → is_free (available depth bitmap) (below (depth - k) n) c ≡ false
  free-used n c h e = elim (Bool-cases (is_free (available depth bitmap) (below (depth - k) n) c)) [
    | inl free ↦
        let bottom : below (below (depth - k) n) (k - n) ≡ depth =
          (omega (arith, below-add (depth - k) n, below-add (below (depth - k) n) (k - n))) in
        let page = shl c (k - n) in
        let sum : k - n + n ≡ k = omega arith in
        let up : shr page (k - n) ≡ c = shr-shl c (k - n) in
        let whole : shr page k ≡ block =
          (ap (shr page) (sym sum) ∙ sym (shr-add page (k - n) n) ∙ ap (λ t. shr t n) up ∙ e) in
        let is : is_free (available depth bitmap) depth page ≡ true =
          (rw bottom at (
            is_free_within (available depth bitmap) (below (depth - k) n) (k - n) page
              (rw up free))) in
        absurd (cc (used page whole, is))
    | inr h' ↦ h'
  ]

  IsUnused-used : IsUnused (available depth bitmap) (depth - k) block
  unfolding shl
  IsUnused-used = record {
    not_free = free-used 0 block (omega arith) (shr-shl block 0);
    no_part = λ n c e. elim (dec_lt k n) [
      | yes deep ↦
          available-deep depth bitmap (below (depth - k) n) c
            (omega (arith, below-add (depth - k) n))
      | no p ↦
          not_available (available depth bitmap) (below (depth - k) n) c
            (free-used n c (omega arith) e)
    ];
  }

mul_mono : (a b c : ℕ) → b ≤ c → a * b ≤ a * c
mul_mono a b c h = grind arith

reorder : (size block : ℕ) → size * block * arch_pagesize ≡ size * arch_pagesize * block
reorder size block = grind arith

exponent_unique : (j k n : ℕ) → n ≤ 2 ^ j → 2 ^ j < 2 * n → n ≤ 2 ^ k → 2 ^ k < 2 * n → j ≡ k
exponent_unique j k n a b c d = elim (dec_lt j k) [
  | yes p ↦ absurd (omega (arith, pow-le-pow_right {n = 2} (omega arith) p, pow-succ' 2 j))
  | no p ↦ elim (dec_lt k j) [
    | yes q ↦ absurd (omega (arith, pow-le-pow_right {n = 2} (omega arith) q, pow-succ' 2 k))
    | no q ↦ omega arith
  ]
]

-- The block size of an allocation of `n` pages.
block_size_is : (k n : ℕ) → k ≤ 20 → n ≤ 2 ^ k → 2 ^ k < 2 * n → to_block_size n ≡ some (2 ^ k)
block_size_is k n small lo hi =
    step (to_block_size n) (to_block_size-IsBlockSize n (omega (arith, pow_two-pos k)))
  where
    step : (r : Option ℕ) → IsBlockSize n r → r ≡ some (2 ^ k)
    step none large =
        let bound : 2 ^ k ≤ 2 ^ 20 = pow-le-pow_right {n = 2} (omega arith) small in
        absurd (omega arith)
    step (some size) (j, e, lo', hi', lt) =
        let same : j ≡ k = exponent_unique j k n (omega arith) (omega arith) lo hi in
        ap some (e ∙ ap (λ (t : ℕ). 2 ^ t) same)

module _ {depth : ℕ} {pool : PagePool} (v : IsPool depth pool) (k block : ℕ) (le : k ≤ depth)
    (inside : block < 2 ^ (depth - k)) where
  end_inside : 2 ^ k * block * arch_pagesize + 2 ^ k * arch_pagesize ≤ 2 ^ depth * arch_pagesize
  end_inside =
      let e : k + (depth - k) ≡ depth = omega arith in
      let whole : 2 ^ depth ≡ 2 ^ k * 2 ^ (depth - k) = rw e at (pow-split k (depth - k)) in
      omega (arith, mul_mono (2 ^ k) (block + 1) (2 ^ (depth - k)) (omega arith))

  -- The checks of `free_from_pool` pass, and the loop starts at the block of the address.
  free_from_pool-loop :
      (n : ℕ)
      → n ≤ 2 ^ k
      → 2 ^ k < 2 * n
      → free_from_pool pool (pool.base_addr + 2 ^ k * block * arch_pagesize) n ≡ (
          free_loop (depth - k) block pool.bitmap >>= λ bitmap.
          ok (record pool { bitmap = bitmap }))
  unfolding free_from_pool
  free_from_pool-loop n lo hi =
      let size = 2 ^ k in
      let offset = size * block * arch_pagesize in
      let fits : pool.base_addr + 2 ^ depth * arch_pagesize < word_mod = v.ends in
      let present : (pool.base_addr + offset == 0) ≡ false = ground (arith, v.based) in
      let above : ltb (pool.base_addr + offset) pool.base_addr ≡ false = ground arith in
      let pool_end : (pool.base_addr + arch_pagesize * pool.page_count) % word_mod
          ≡ pool.base_addr + 2 ^ depth * arch_pagesize =
        (rw (v.pages) (mod-eq_of_lt (omega arith) ∙ omega arith)) in
      let block_end : (pool.base_addr + offset + arch_pagesize * n) % word_mod
          ≡ pool.base_addr + offset + arch_pagesize * n =
        (mod-eq_of_lt (omega (arith, end_inside))) in
      let ends : ltb (pool.base_addr + 2 ^ depth * arch_pagesize)
            (pool.base_addr + offset + arch_pagesize * n)
          ≡ false =
        (ground (arith, end_inside)) in
      let large : ltb pool.page_count size ≡ false =
        (ground (arith, v.pages, pow-le-pow_right {n = 2} (omega arith) le)) in
      let less : pool.base_addr + offset - pool.base_addr ≡ offset = omega arith in
      let unit : 0 < size * arch_pagesize = omega (arith, pow_two-pos k) in
      let product : offset ≡ size * arch_pagesize * block = reorder size block in
      let whole : (offset % (size * arch_pagesize) == 0) ≡ true =
        (ground (
          arith,
          ap (λ t. t % (size * arch_pagesize)) product ∙ mul-mod_right (size * arch_pagesize) block,
        )) in
      let number : offset / (size * arch_pagesize) ≡ block =
        (ap (λ t. t / (size * arch_pagesize)) product ∙ mul-div_cancel_left block unit) in
      let level = level_in_pool pool v.pages v.shallow k le in
      let size_is = block_size_is k n (omega (arith, v.shallow)) lo hi in
      rw (present, above, pool_end, block_end, ends, size_is, large, less, whole, number, level)
        refl

  loop-IsReturned :
      (loop : Run Bitmap)
      → IsFreed depth (available depth pool.bitmap) (depth - k) block loop
      → IsReturned depth k block pool (loop >>= λ bitmap. ok (record pool { bitmap = bitmap }))
  loop-IsReturned loop freed =
      let bottom : below (depth - k) k ≡ depth = omega (arith, below-add (depth - k) k) in
      record {
        bitmap = freed.bitmap;
        returns = rw (freed.returns) refl;
        now_free = λ p. rw bottom at (freed.now_free k p);
        valid = record {
          tree = freed.tree;
          pages = v.pages;
          anti = freed.anti;
          shallow = v.shallow;
          based = v.based;
          ends = v.ends;
        };
      }

  -- free_from_pool of a block of a valid pool all of whose pages are in use, with a page count that
  -- the block is the smallest for, ends without a panic, makes exactly the pages of the block free
  -- and leaves a valid pool.
  pub free_from_pool-IsReturned :
      (n : ℕ)
      → n ≤ 2 ^ k
      → 2 ^ k < 2 * n
      → ((p : ℕ) → shr p k ≡ block → page_free depth pool p ≡ false)
      → IsReturned depth k block pool
          (free_from_pool pool (pool.base_addr + 2 ^ k * block * arch_pagesize) n)
  free_from_pool-IsReturned n lo hi used =
      subst (IsReturned depth k block pool) (sym (free_from_pool-loop n lo hi)) (
        loop-IsReturned (free_loop (depth - k) block pool.bitmap) (
          free_loop-IsFreed depth (depth - k) block pool.bitmap v.tree (omega arith) inside v.anti
            (IsUnused-used depth pool.bitmap k block le used)))
