-- ===== src/Pmm/Sizes.antt =====
-- Powers of two: the sizes of a pool, of a block and of a level.
use native.Mathlib.Decide.{dec_lt}
use native.Mathlib.Nat.{pow-succ', pow-le-pow_right, one-le-pow, mod-eq_of_lt}
use yjkos.Prelude.{
  ℕ, zero, suc, ◌+◌, ◌-◌, ◌*◌, ◌/◌, ◌^◌, ◌≤◌, ◌<◌, ◌≡◌, refl, ap, ◌∙◌, inl, inr, Bool-cases, true,
  false, Option, none, some, arith, ltb, if◌then◌else◌,
}
use yjkos.Pmm.{
  PagePool, block_size_to_pagepool_level, half_size_max, PoolSizes, pool_sizes_loop,
  calculate_pagepool_sizes, level_loop, block_size_loop, to_block_size,
}

pub pow_two-pos : (n : ℕ) → 1 ≤ 2 ^ n
pow_two-pos n = one-le-pow n 2 (omega arith)

-- `page_count` is rounded up to a power of two, or exceeds the last one that fits.
abbrev pub IsBlockSize : ℕ → Option ℕ → Type 0
IsBlockSize page_count none = 2147483648 < page_count
IsBlockSize page_count (some size) =
    (k : ℕ) × (size ≡ 2 ^ k) × (page_count ≤ size) × (size < 2 * page_count) × (k < 32)

exponent-lt : (i : ℕ) → i < 32 → ltb half_size_max (2 ^ i) ≡ false → suc i < 32
exponent-lt i lt go = elim (dec_lt i 31) [
  | yes p ↦ omega arith
  | no p ↦
      let large : 2 ^ 31 ≤ 2 ^ i = pow-le-pow_right {n = 2} (omega arith) {i = 31} (omega arith) in
      absurd (ground arith)
]

block_size_loop-IsBlockSize :
    (fuel page_count i : ℕ)
    → fuel + i ≡ 33
    → i < 32
    → 0 < page_count
    → 2 ^ i < 2 * page_count
    → IsBlockSize page_count (block_size_loop fuel page_count (2 ^ i))
unfolding block_size_loop
block_size_loop-IsBlockSize zero page_count i e lt some_pages below = absurd (omega arith)
block_size_loop-IsBlockSize (suc fuel) page_count i e lt some_pages below =
    elim (Bool-cases (ltb (2 ^ i) page_count)) [
      | inr enough ↦ rw enough (i, refl, ground arith, below, lt)
      | inl more ↦ elim (Bool-cases (ltb half_size_max (2 ^ i))) [
        | inl last ↦ rw (more, last) (ground arith)
        | inr go ↦
            let next : 2 ^ i * 2 ≡ 2 ^ suc i = omega (arith, pow-succ' 2 i) in
            rw (more, go, next)
              (block_size_loop-IsBlockSize fuel page_count (suc i) (omega arith)
                (exponent-lt i lt go) some_pages (ground (arith, pow-succ' 2 i)))
      ]
    ]

-- The rounding loop of alloc_from_pool gives the smallest power of two that is not below the page
-- count, and fails only above 2^31 pages.
pub to_block_size-IsBlockSize :
    (page_count : ℕ) → 0 < page_count → IsBlockSize page_count (to_block_size page_count)
unfolding to_block_size
to_block_size-IsBlockSize page_count some_pages =
    block_size_loop-IsBlockSize 33 page_count 0 (omega arith) (omega arith) some_pages (omega arith)

-- `2 ^ (k + m)`, without the sum
pub pow-split : (k m : ℕ) → 2 ^ (k + m) ≡ 2 ^ k * 2 ^ m
pow-split k zero = let e : k + 0 ≡ k = omega arith in rw e (omega arith)
pow-split k (suc m) =
    let e : k + suc m ≡ suc (k + m) = omega arith in
    rw e
      (omega (arith, pow-succ' 2 (k + m), pow-split k m, ap (λ (t : ℕ). 2 ^ k * t) (pow-succ' 2 m)))

double-mul : (x m : ℕ) → x * 2 ^ suc m ≡ 2 * (x * 2 ^ m)
double-mul x m = omega (arith, ap (λ (t : ℕ). x * t) (pow-succ' 2 m))

le-mul-pow : (x m : ℕ) → x ≤ x * 2 ^ m
le-mul-pow x m = let h = pow_two-pos m in grind arith

level_loop_lem :
    (fuel m size s current : ℕ)
    → m ≤ fuel
    → 0 < size
    → s ≡ size * 2 ^ m
    → level_loop fuel size s current ≡ current + m
unfolding level_loop
level_loop_lem zero zero size s current le h e = omega arith
level_loop_lem zero (suc m) size s current le h e = absurd (omega arith)
level_loop_lem (suc fuel) zero size s current le h e =
    let same : s ≡ size = omega arith in ground arith
level_loop_lem (suc fuel) (suc m) size s current le h e =
    let half : s / 2 ≡ size * 2 ^ m = omega (arith, double-mul size m) in
    let more : size < s = omega (arith, double-mul size m, le-mul-pow size m) in
    ground (arith, level_loop_lem fuel m size (s / 2) (current + 1) (omega arith) h half)

-- In a pool of `2 ^ depth` pages the blocks of `2 ^ k` pages make up level `depth - k`.
pub level_of_size :
    (depth k : ℕ) → depth < 32 → k ≤ depth → level_loop 32 (2 ^ k) (2 ^ depth) 0 ≡ depth - k
level_of_size depth k small le =
    let e : k + (depth - k) ≡ depth = omega arith in
    level_loop_lem 32 (depth - k) (2 ^ k) (2 ^ depth) 0 (omega arith) (pow_two-pos k)
      (rw e at (pow-split k (depth - k)))
    ∙ omega arith

-- what the loop has left to do, when `current` lies between two powers of two
record Grown (s : PoolSizes) (m current : ℕ) (out : PoolSizes) : Type 0 where
  pages : out.page_count ≡ s.page_count * 2 ^ m
  levels : out.level_count ≡ s.level_count + m
  enough : s.bit_count + 2 ^ suc m ≤ out.bit_count + 2
  bounded : out.bit_count ≤ s.bit_count + 2 * current

pool_sizes_loop-Grown :
    (fuel m current : ℕ) (s : PoolSizes)
    → m ≤ fuel
    → 2 ^ m ≤ current
    → current < 2 ^ suc m
    → s.page_count * 2 ^ m < 2 ^ 32
    → s.bit_count + 2 * current < 2 ^ 32
    → Grown s m current (pool_sizes_loop fuel current s)
unfolding pool_sizes_loop
pool_sizes_loop-Grown zero zero current s le lo hi p b = omega arith
pool_sizes_loop-Grown zero (suc m) current s le lo hi p b = absurd (omega arith)
pool_sizes_loop-Grown (suc fuel) zero current s le lo hi p b =
    let one : ltb 1 current ≡ false = ground arith in rw one (omega arith)
pool_sizes_loop-Grown (suc fuel) (suc m) current s le lo hi p b =
    let again : ltb 1 current ≡ true = ground (arith, pow-succ' 2 m, pow_two-pos m) in
    let pages : s.page_count * 2 < 2 ^ 32 =
      omega (arith, double-mul s.page_count m, le-mul-pow s.page_count m) in
    let bits : s.bit_count + current < 2 ^ 32 = omega arith in
    let rest =
      pool_sizes_loop-Grown fuel m (current / 2)
        (record {
          page_count = s.page_count * 2;
          level_count = s.level_count + 1;
          bit_count = s.bit_count + current;
        })
        (omega arith) (omega (arith, pow-succ' 2 m)) (omega (arith, pow-succ' 2 (suc m)))
        (omega (arith, double-mul s.page_count m)) (omega arith) in
    rw (again, mod-eq_of_lt pages, mod-eq_of_lt bits)
      (record {
        pages = omega (arith, rest.pages, double-mul s.page_count m);
        levels = omega (arith, rest.levels);
        enough = omega (arith, rest.enough, lo, pow-succ' 2 (suc m));
        bounded = omega (arith, rest.bounded);
      })

-- `floor (log2 n)`, with fuel for its halvings
unfoldable pub log2_upto : ℕ → ℕ → ℕ
log2_upto zero n = 0
log2_upto (suc fuel) n = if ltb 1 n then suc (log2_upto fuel (n / 2)) else 0

log2_upto-bounds :
    (fuel n : ℕ)
    → 0 < n
    → n < 2 ^ suc fuel
    → (2 ^ log2_upto fuel n ≤ n) × (n < 2 ^ suc (log2_upto fuel n)) × (log2_upto fuel n ≤ fuel)
unfolding log2_upto
log2_upto-bounds zero n h lt = omega arith
log2_upto-bounds (suc fuel) n h lt = elim (Bool-cases (ltb 1 n)) [
  | inr one ↦ rw one (ground arith, ground arith, omega arith)
  | inl more ↦
      let (lo, hi, le) =
        log2_upto-bounds fuel (n / 2) (ground arith) (omega (arith, pow-succ' 2 (suc fuel))) in
      rw more (
        omega (arith, pow-succ' 2 (log2_upto fuel (n / 2))),
        omega (arith, pow-succ' 2 (suc (log2_upto fuel (n / 2)))),
        omega arith,
      )
]

-- For a region of 1 to 2^30 - 1 pages, calculate_pagepool_sizes gives the largest power of two of
-- pages that fits, the number of levels of its tree, and a bit count that is enough for all blocks
-- and at most 2 n + 1.
pub calculate_pagepool_sizes_lem :
    (n : ℕ)
    → 0 < n
    → n < 2 ^ 30
    → (k : ℕ) × ((calculate_pagepool_sizes n).page_count ≡ 2 ^ k)
      × ((calculate_pagepool_sizes n).level_count ≡ k + 1)
      × (2 ^ k ≤ n)
      × (n < 2 ^ suc k)
      × (2 ^ suc k ≤ (calculate_pagepool_sizes n).bit_count + 1)
      × ((calculate_pagepool_sizes n).bit_count ≤ 2 * n + 1)
unfolding calculate_pagepool_sizes
calculate_pagepool_sizes_lem n h lt =
    let (lo, hi, le) = log2_upto-bounds 31 n h (omega arith) in
    let grown =
      pool_sizes_loop-Grown 32 (log2_upto 31 n) n
        (record { page_count = 1; level_count = 1; bit_count = 1 }) (omega arith) lo hi
        (omega arith) (omega arith) in
    (
      log2_upto 31 n,
      omega (arith, grown.pages),
      omega (arith, grown.levels),
      lo,
      hi,
      omega (arith, grown.enough),
      omega (arith, grown.bounded),
    )

pub level_in_pool :
    {depth : ℕ} (pool : PagePool)
    → pool.page_count ≡ 2 ^ depth
    → depth ≤ 20
    → (k : ℕ) → k ≤ depth
    → block_size_to_pagepool_level pool (2 ^ k) ≡ depth - k
unfolding block_size_to_pagepool_level
level_in_pool {depth} pool pages small k le =
    ap (λ s. level_loop 32 (2 ^ k) s 0) pages ∙ level_of_size depth k (omega arith) le
