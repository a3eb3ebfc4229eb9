-- ===== src/Buddy.antt =====
-- The buddy scheme that the comment at the top of kernel/mem/pmm.c describes, as a specification: a
-- tree of blocks, in which block `b` of level `l` consists of the blocks `2 * b` and `2 * b + 1` of
-- level `l + 1`. A state says which blocks are available.
pub mod Ancestors
pub mod Split
pub mod Remove
pub mod Insert
pub mod Merge
use yjkos.Prelude.{
  ℕ, zero, suc, ◌+◌, ◌*◌, ◌/◌, ◌≡◌, Bool, true, false, ◌&&◌, ◌||◌, ◌==◌, if◌then◌else◌,
}
use yjkos.Bits.{shr}

abbrev pub Blocks : Type 0
Blocks = ℕ → ℕ → Bool

abbrev pub put : Blocks → ℕ → ℕ → Bool → Blocks
put a l b v l' b' = if l' == l && b' == b then v else a l' b'

-- Block `b` of level `l` is free: it or a block that it is part of is available.
unfoldable pub is_free : Blocks → ℕ → ℕ → Bool
is_free a zero b = a zero b
is_free a (suc l) b = a (suc l) b || is_free a l (b / 2)

-- No part of an available block is available once more.
abbrev pub IsAntichain : Blocks → Type 0
IsAntichain a = (l b : ℕ) → a (suc l) b ≡ true → is_free a l (b / 2) ≡ false

-- The two halves of a block are never both available.
abbrev pub IsCoalesced : Blocks → Type 0
IsCoalesced a = (l b : ℕ) → a (suc l) (2 * b) ≡ true → a (suc l) (2 * b + 1) ≡ false

-- `n` levels below level `l`
abbrev pub below : ℕ → ℕ → ℕ
below l zero = l
below l (suc n) = suc (below l n)

-- No part of the block is free: not the block, and nothing in it.
pub record IsUnused (a : Blocks) (l b : ℕ) : Type 0 where
  pub not_free : is_free a l b ≡ false
  pub no_part : (n c : ℕ) → shr c n ≡ b → a (below l n) c ≡ false

-- A block is taken apart into its halves.
abbrev pub split_block : Blocks → ℕ → ℕ → Blocks
split_block a l b = put (put (put a l b false) (suc l) (2 * b) true) (suc l) (2 * b + 1) true
