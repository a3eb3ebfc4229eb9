-- ===== src/Pmm/Pools/Loop.antt =====
-- The loop of `pmm_register_mem`.
use yjkos.Prelude.{
  ℕ, zero, suc, ◌+◌, ◌-◌, ◌*◌, ◌^◌, ◌%◌, ◌≤◌, ◌<◌, ◌≡◌, refl, ap, ap₂, ◌∙◌, Bool, true, false,
  Option, none, some, List, ◌∷◌, arith, ◌==◌, Run, ok,
}
use mathlib.Core.Path.{subst}
use native.Mathlib.Decide.{ℕ_discrete}
use native.Mathlib.Nat.{mod-eq_of_lt, pow-succ'}
use yjkos.Bits.{word_mod}
use yjkos.Pmm.{PagePool, arch_pagesize}
use yjkos.Pmm.Alloc.Take.{IsPool, page_free}
use yjkos.Pmm.Pools.{register_loop, pmm_register_mem}
use yjkos.Pmm.Pools.Register.{new_pool-IsFresh}

-- The memory from `lo` to `hi` has been added to the pools `old`: pools without a page in use lie
-- in it side by side, and nothing of it is left over.
pub data Registered (hi : ℕ) (new : List PagePool) : ℕ → List PagePool → Type 0 where
  complete : (lo : ℕ) (old : List PagePool) → lo ≡ hi → old ≡ new → Registered hi new lo old
  pool :
      (p : PagePool) (depth lo : ℕ) (old : List PagePool)
      → IsPool depth p
      → p.base_addr ≡ lo
      → ((i : ℕ) → i < 2 ^ depth → page_free depth p i ≡ true)
      → Registered hi new (lo + arch_pagesize * 2 ^ depth) (p ∷ old)
      → Registered hi new lo old

-- what the loop leaves, when it ends
record IsRegistered (lo hi : ℕ) (old : List PagePool) (out : Run (Option (List PagePool)))
    : Type 0 where
  new : List PagePool
  returns : out ≡ ok (some new)
  registered : Registered hi new lo old

module _ (heap_allocs : ℕ → Bool) where
  -- Without memory for its metadata the loop never ends.
  pub register_loop-stuck :
      ((i : ℕ) → heap_allocs i ≡ false)
      → (fuel base remaining : ℕ) (pools : List PagePool) → 0 < remaining
      → register_loop heap_allocs fuel base remaining pools ≡ ok none
  unfolding register_loop
  register_loop-stuck fails zero base remaining pools h =
      let e : (remaining == 0) ≡ false = ground arith in rw e refl
  register_loop-stuck fails (suc fuel) base remaining pools h =
      let e : (remaining == 0) ≡ false = ground arith in
      rw (e, fails fuel) (register_loop-stuck fails fuel base remaining pools h)

  -- what is shown of the loop with some fuel
  Handles : ℕ → Type 0
  Handles fuel =
      (base remaining : ℕ) (pools : List PagePool)
      → 0 < base
      → base % arch_pagesize ≡ 0
      → base + remaining * arch_pagesize < word_mod
      → remaining < 2 ^ fuel
      → IsRegistered base (base + remaining * arch_pagesize) pools
          (register_loop heap_allocs fuel base remaining pools)

  -- A round's pool, and the rounds after it.
  round-IsRegistered :
      (fuel : ℕ)
      → Handles fuel
      → (base remaining depth : ℕ) (pools : List PagePool) (p : PagePool) → 0 < base
      → base % arch_pagesize ≡ 0
      → base + remaining * arch_pagesize < word_mod
      → remaining < 2 ^ suc fuel
      → remaining < 2 ^ suc depth
      → 2 ^ depth ≤ remaining
      → p.page_count ≡ 2 ^ depth
      → p.base_addr ≡ base
      → IsPool depth p
      → ((i : ℕ) → i < 2 ^ depth → page_free depth p i ≡ true)
      → IsRegistered base (base + remaining * arch_pagesize) pools (
          register_loop heap_allocs fuel
            ((base + arch_pagesize * p.page_count) % word_mod)
            (remaining - p.page_count)
            (p ∷ pools))
  unfolding Handles
  round-IsRegistered fuel ih base remaining depth pools p some_base aligned ends enough half fits
        pages based valid free =
      let next : (base + arch_pagesize * p.page_count) % word_mod
          ≡ base + arch_pagesize * 2 ^ depth =
        (rw pages (mod-eq_of_lt (omega arith))) in
      let same : base + arch_pagesize * 2 ^ depth + (remaining - 2 ^ depth) * arch_pagesize
          ≡ base + remaining * arch_pagesize =
        omega arith in
      let rest =
        ih (base + arch_pagesize * 2 ^ depth) (remaining - 2 ^ depth) (p ∷ pools) (omega arith)
          (omega arith) (omega arith) (omega (arith, pow-succ' 2 depth, pow-succ' 2 fuel)) in
      record {
        new = rest.new;
        returns =
            ap₂ (λ (b r : ℕ). register_loop heap_allocs fuel b r (p ∷ pools)) next
              (ap (λ (n : ℕ). remaining - n) pages)
            ∙ rest.returns;
        registered = pool p depth base pools valid based free (
            subst (λ hi. Registered hi rest.new (base + arch_pagesize * 2 ^ depth) (p ∷ pools)) same
              rest.registered);
      }

  nothing_left :
      (fuel base remaining : ℕ) (pools : List PagePool)
      → remaining ≡ 0
      → IsRegistered base
          (base + remaining * arch_pagesize)
          pools
          (register_loop heap_allocs fuel base remaining pools)
  unfolding register_loop
  nothing_left zero base remaining pools e =
      let done : (remaining == 0) ≡ true = ground arith in
      record {
        new = pools;
        returns = rw done refl;
        registered = complete base pools (omega arith) refl;
      }
  nothing_left (suc fuel) base remaining pools e =
      let done : (remaining == 0) ≡ true = ground arith in
      record {
        new = pools;
        returns = rw done refl;
        registered = complete base pools (omega arith) refl;
      }

  register_loop-Handles : ((i : ℕ) → heap_allocs i ≡ true) → (fuel : ℕ) → Handles fuel
  unfolding Handles register_loop
  register_loop-Handles works zero base remaining pools some_base aligned ends enough =
      nothing_left zero base remaining pools (omega arith)
  register_loop-Handles works (suc fuel) base remaining pools some_base aligned ends enough =
      elim (ℕ_discrete remaining 0) [
        | yes none_left ↦ nothing_left (suc fuel) base remaining pools none_left
        | no some_left ↦
            let e : (remaining == 0) ≡ false = ground arith in
            let (depth, half, fresh) =
              new_pool-IsFresh base remaining some_base aligned (omega arith) ends in
            let rest =
              round-IsRegistered fuel (register_loop-Handles works fuel) base remaining depth pools
                fresh.pool some_base aligned ends enough half fresh.fits fresh.pages fresh.based
                fresh.valid fresh.all_free in
            record {
              new = rest.new;
              returns = rw (e, works fuel, fresh.returns) rest.returns;
              registered = rest.registered;
            }
      ]

  -- If the heap always has memory, pmm_register_mem of an aligned region below 2^32 ends within as
  -- many rounds as the page count has binary digits, and the whole region then lies in valid pools,
  -- side by side, with all pages free.
  pub pmm_register_mem-Registered :
      ((i : ℕ) → heap_allocs i ≡ true)
      → (fuel base page_count : ℕ) (pools : List PagePool) → 0 < base
      → base % arch_pagesize ≡ 0
      → base + page_count * arch_pagesize < word_mod
      → page_count < 2 ^ fuel
      → (pools' : List PagePool) × (pmm_register_mem heap_allocs fuel pools base page_count
          ≡ ok (some pools'))
        × Registered (base + page_count * arch_pagesize) pools' base pools
  unfolding pmm_register_mem Handles
  pmm_register_mem-Registered works fuel base page_count pools some_base aligned ends enough =
      let e : (base == 0) ≡ false = ground arith in
      let loop =
        register_loop-Handles works fuel base page_count pools some_base aligned ends enough in
      (loop.new, rw e loop.returns, loop.registered)

  -- If the heap never has memory, pmm_register_mem of a region that is not empty has not ended
  -- after any number of rounds.
  pub pmm_register_mem-stuck :
      ((i : ℕ) → heap_allocs i ≡ false)
      → (fuel base page_count : ℕ) (pools : List PagePool) → 0 < base
      → 0 < page_count
      → pmm_register_mem heap_allocs fuel pools base page_count ≡ ok none
  unfolding pmm_register_mem
  pmm_register_mem-stuck fails fuel base page_count pools some_base h =
      let e : (base == 0) ≡ false = ground arith in
      rw e (register_loop-stuck fails fuel base page_count pools h)
