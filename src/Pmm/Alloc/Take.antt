-- ===== src/Pmm/Alloc/Take.antt =====
-- What an allocation takes.
use yjkos.Prelude.{
  ℕ, zero, suc, ◌+◌, ◌-◌, ◌*◌, ◌^◌, ◌/◌, ◌%◌, ◌≤◌, ◌<◌, ◌≡◌, inl, inr, refl, sym, ap, ◌∙◌, Bool,
  Bool-cases, true, false, not, ◌&&◌, Option, none, some, arith, ltb, ◌==◌, if◌then◌else◌, Run, ok,
}
use mathlib.Core.Path.{fun_ext, subst}
use native.Mathlib.Decide.{dec_lt, ℕ_discrete}
use native.Mathlib.Nat.{mod-eq_of_lt, pow-succ', pow-le-pow_right}
use yjkos.Bits.{word_mod, shr}
use yjkos.Bitmap.{Bitmap}
use yjkos.Buddy.{Blocks, put, is_free, IsAntichain, below}
use yjkos.Buddy.Ancestors.{below-add, is_free_self, is_free_within}
use yjkos.Buddy.Remove.{is_free-remove, remove-IsAntichain}
use yjkos.Pmm.{
  PagePool, Allocated, arch_pagesize, physicalptr_null, to_block_size, find_block, take_block,
  alloc_at_level, alloc_block, alloc_from_pool,
}
use yjkos.Pmm.Alloc.Search.{IsFound, find_block-IsFound}
use yjkos.Pmm.Alloc.Split.{with_block, split_loop-IsSplit}
use yjkos.Pmm.Levels.{bit_index-node}
use yjkos.Pmm.Sizes.{IsBlockSize, to_block_size-IsBlockSize, level_in_pool, pow_two-pos, pow-split}
use yjkos.Pmm.View.{IsTree, available, unmark}

-- A pool of `2 ^ depth` pages, in which no page is available twice.
pub record IsPool (depth : ℕ) (pool : PagePool) : Type 0 where
  pub tree : IsTree depth pool.bitmap
  pub pages : pool.page_count ≡ 2 ^ depth
  pub anti : IsAntichain (available depth pool.bitmap)
  pub shallow : depth ≤ 20
  pub based : 0 < pool.base_addr
  pub ends : pool.base_addr + 2 ^ depth * arch_pagesize < word_mod

-- page `p` of the pool is free
abbrev pub page_free : ℕ → PagePool → ℕ → Bool
page_free depth pool p = is_free (available depth pool.bitmap) depth p

-- Block `block` of `2 ^ k` pages has been taken from the pool: it was free, its pages are no
-- longer, and all others are as they were.
pub record IsTaken (depth k : ℕ) (pool : PagePool) (out : Run Allocated) : Type 0 where
  pub bitmap : Bitmap
  pub block : ℕ
  pub inside : block < 2 ^ (depth - k)
  pub returns :
      out
      ≡ ok (pool.base_addr + 2 ^ k * block * arch_pagesize, 2 ^ k, record pool { bitmap = bitmap })
  pub was_free : (p : ℕ) → shr p k ≡ block → page_free depth pool p ≡ true
  pub now_free :
      (p : ℕ)
      → is_free (available depth bitmap) depth p
        ≡ (page_free depth pool p && not (shr p k == block))
  pub valid : IsPool depth (record pool { bitmap = bitmap })

mul_mono : (a b c : ℕ) → b ≤ c → a * b ≤ a * c
mul_mono a b c h = grind arith

-- Putting back a block that is there changes nothing; taking it away forgets that it was put back.
put_same : (a : Blocks) (l b : ℕ) → a l b ≡ true → put a l b true ≡ a
put_same a l b h = fun_ext (λ l'. fun_ext (λ b'. at l' b'))
  where
    at : (l' b' : ℕ) → (if l' == l && b' == b then true else a l' b') ≡ a l' b'
    at l' b' = elim (ℕ_discrete l' l) [
      | yes e ↦ elim (ℕ_discrete b' b) [
        | yes f ↦ let there : a l' b' ≡ true = rw (e, f) h in ground arith
        | no f ↦ ground arith
      ]
      | no e ↦ ground arith
    ]

put_twice : (a : Blocks) (l b : ℕ) → put a l b false ≡ put (put a l b true) l b false
put_twice a l b = fun_ext (λ l'. fun_ext (λ b'. ground arith))

module _ {depth : ℕ} {pool : PagePool} (v : IsPool depth pool) (k : ℕ) (le : k ≤ depth) where
  -- The end of the block lies in the pool.
  address :
      (block : ℕ)
      → block < 2 ^ (depth - k)
      → (pool.base_addr + 2 ^ k * block * arch_pagesize) % word_mod
        ≡ pool.base_addr + 2 ^ k * block * arch_pagesize
  address block h =
      let whole : 2 ^ k * 2 ^ (depth - k) ≡ 2 ^ depth = pow-parts in
      let part : 2 ^ k * (block + 1) ≤ 2 ^ k * 2 ^ (depth - k) =
        mul_mono (2 ^ k) (block + 1) (2 ^ (depth - k)) (omega arith) in
      let size = pow_two-pos k in mod-eq_of_lt (omega (arith, v.ends))
    where
      pow-parts : 2 ^ k * 2 ^ (depth - k) ≡ 2 ^ depth
      pow-parts =
          let e : k + (depth - k) ≡ depth = omega arith in sym (rw e at (pow-split k (depth - k)))

  take_block-IsTaken :
      (l b : ℕ)
      → l ≤ depth - k
      → b < 2 ^ l
      → available depth pool.bitmap l b ≡ true
      → IsTaken depth k pool (take_block pool (2 ^ k) (depth - k) l b)
  unfolding take_block
  take_block-IsTaken l b lw h set =
      let here = available depth pool.bitmap in
      let whole : with_block depth pool.bitmap l b ≡ here = put_same here l b set in
      let split =
        split_loop-IsSplit depth (depth - k - l) l b (depth - k) pool.bitmap v.tree h (omega arith)
          (omega arith) (subst IsAntichain (sym whole) v.anti) in
      let back = with_block depth split.bitmap (depth - k) split.block in
      let (bitmap, cleared, tree, view) =
        unmark split.tree (depth - k) split.block (omega arith) split.inside in
      let view' : available depth bitmap ≡ put back (depth - k) split.block false =
        (view ∙ put_twice (available depth split.bitmap) (depth - k) split.block) in
      let set' : back (depth - k) split.block ≡ true = ground arith in
      let bottom : below (depth - k) k ≡ depth = omega (arith, below-add (depth - k) k) in
      let same : (i p : ℕ)
          → is_free back (below (depth - k) i) p ≡ is_free here (below (depth - k) i) p =
        (λ i p. split.same i p ∙ ap (λ s. is_free s (below (depth - k) i) p) whole) in
      record {
        bitmap = bitmap;
        block = split.block;
        inside = split.inside;
        returns =
            rw
              (
                split.returns,
                bit_index-node (depth - k) split.block split.inside,
                cleared,
                address split.block split.inside,
              )
              refl;
        was_free = λ p e. rw bottom at (
            is_free_within here (depth - k) k p
              (rw e (sym (same 0 split.block) ∙ is_free_self back (depth - k) split.block set')));
        now_free = λ p.
            ap (λ s. is_free s depth p) view'
            ∙ (rw bottom at (
                is_free-remove back (depth - k) split.block split.anti set' k p
                ∙ ap (λ x. x && not (shr p k == split.block)) (same k p)));
        valid = record {
          tree = tree;
          pages = v.pages;
          anti =
              subst IsAntichain (sym view')
                (remove-IsAntichain back (depth - k) split.block split.anti set');
          shallow = v.shallow;
          based = v.based;
          ends = v.ends;
        };
      }

-- How an allocation of `n` pages can end: with the null address, because no block is that large or
-- none of the size is free, the pool as it was; or with a block of the next power of two.
pub data Outcome (depth : ℕ) (pool : PagePool) (n : ℕ) (out : Run Allocated) : Type 0 where
  too_large : 2 ^ depth < n → out ≡ ok (physicalptr_null, n, pool) → Outcome depth pool n out
  exhausted :
      (k : ℕ)
      → n ≤ 2 ^ k
      → 2 ^ k < 2 * n
      → k ≤ depth
      → ((b : ℕ) → is_free (available depth pool.bitmap) (depth - k) b ≡ false)
      → out ≡ ok (physicalptr_null, 2 ^ k, pool)
      → Outcome depth pool n out
  taken :
      (k : ℕ)
      → n ≤ 2 ^ k
      → 2 ^ k < 2 * n
      → k ≤ depth
      → IsTaken depth k pool out
      → Outcome depth pool n out

-- Without an available block above or at a level, none of the level is free.
is_free-none : (a : Blocks) (w b : ℕ) → ((l c : ℕ) → l ≤ w → a l c ≡ false) → is_free a w b ≡ false
unfolding is_free
is_free-none a zero b h = h zero b (omega arith)
is_free-none a (suc w) b h =
    ground (arith, h (suc w) b, is_free-none a w (b / 2) (λ l c le. h l c (omega arith)))

exponent-le : (k depth : ℕ) → ¬ (2 ^ depth < 2 ^ k) → k ≤ depth
exponent-le k depth h = elim (dec_lt depth k) [
  | yes p ↦ absurd (
      h (
        omega
          (arith, pow-le-pow_right {n = 2} (omega arith) p, pow-succ' 2 depth, pow_two-pos depth)))
  | no p ↦ omega arith
]

double-le : (depth k : ℕ) → 2 ^ depth < 2 ^ k → 2 * 2 ^ depth ≤ 2 ^ k
double-le depth k h = elim (dec_lt depth k) [
  | yes p ↦ omega (arith, pow-le-pow_right {n = 2} (omega arith) p, pow-succ' 2 depth)
  | no p ↦
      let small : 2 ^ k ≤ 2 ^ depth = pow-le-pow_right {n = 2} (omega arith) (omega arith) in
      absurd (omega arith)
]

module _ {depth : ℕ} {pool : PagePool} (v : IsPool depth pool) (n : ℕ) where
  alloc_block-Outcome :
      (k : ℕ)
      → n ≤ 2 ^ k
      → 2 ^ k < 2 * n
      → k ≤ depth
      → Outcome depth pool n (alloc_block pool (2 ^ k))
  unfolding alloc_block alloc_at_level
  alloc_block-Outcome k lo hi le =
      subst (λ t. Outcome depth pool n (alloc_at_level pool (2 ^ k) t))
        (sym (level_in_pool pool v.pages v.shallow k le))
        (step (find_block pool.bitmap (depth - k))
          (find_block-IsFound v.tree (depth - k) (omega arith)))
    where
      step :
          (r : Option (ℕ × ℕ))
          → IsFound depth pool.bitmap (depth - k) r
          → Outcome depth pool n (elim r [
            | none ↦ ok (physicalptr_null, 2 ^ k, pool)
            | some (l, b) ↦ take_block pool (2 ^ k) (depth - k) l b
          ])
      step none nothing =
          exhausted k lo hi le
            (λ b. is_free-none (available depth pool.bitmap) (depth - k) b nothing) refl
      step (some (l, b)) (lw, inside, set, above) =
          taken k lo hi le (take_block-IsTaken v k le l b lw inside set)

  -- On a valid pool and for a page count that is not 0, alloc_from_pool returns null and leaves the
  -- pool, because the request is larger than the pool or no block of the rounded size is free, or
  -- it takes a free block of that size: the pages of the block become used, all other pages stay as
  -- they were, and the pool stays valid.
  pub alloc_from_pool-Outcome : 0 < n → Outcome depth pool n (alloc_from_pool pool n)
  unfolding alloc_from_pool
  alloc_from_pool-Outcome some_pages =
      let asked : (n == 0) ≡ false = ground arith in
      rw asked (step (to_block_size n) (to_block_size-IsBlockSize n some_pages))
    where
      step :
          (r : Option ℕ)
          → IsBlockSize n r
          → Outcome depth pool n (elim r [
            | none ↦ ok (physicalptr_null, n, pool)
            | some block_size ↦
                if ltb pool.page_count block_size
                then ok (physicalptr_null, n, pool)
                else alloc_block pool block_size
          ])
      step none large = too_large (omega (arith, v.ends, v.based, pow_two-pos depth)) refl
      step (some size) (k, e, lo, hi, small) = elim (Bool-cases (ltb pool.page_count size)) [
        | inl beyond ↦
            rw beyond (too_large (omega (arith, double-le depth k (ground (arith, v.pages)))) refl)
        | inr fits ↦
            rw (fits, e)
              (alloc_block-Outcome k (omega arith) (omega arith)
                (exponent-le k depth (ground (arith, v.pages))))
      ]
