-- ===== src/Pmm/View.antt =====
-- A pool's bitmap as the blocks that it says are available.
use yjkos.Prelude.{
  ℕ, suc, ◌+◌, ◌^◌, ◌≤◌, ◌<◌, ◌≡◌, ap, ◌∙◌, Bool, true, false, ◌&&◌, ◌||◌, not, some, arith, ltb,
  leb, ◌==◌, pos, if◌then◌else◌, length,
}
use mathlib.Core.Path.{fun_ext}
use native.Mathlib.Decide.{dec_lt, ℕ_discrete}
use native.Mathlib.Nat.{pow-succ', pow-le-pow_right, one-le-pow}
use yjkos.Bitmap.{Bitmap, bitmap_set_bit, bitmap_clear_bit, bitmap_is_bit_set}
use yjkos.Bitmap.Single.{bitmap_set_bit-bit, bitmap_clear_bit-bit, bitmap_is_bit_set-bit}
use yjkos.Bitmap.Spec.{bit, bit_count, AreWords}
use yjkos.Buddy.{Blocks, put}
use yjkos.Pmm.Levels.{node, node_eq}

-- The bitmap has a bit for each block of the levels 0 to `depth`.
pub record IsTree (depth : ℕ) (bitmap : Bitmap) : Type 0 where
  pub room : 2 ^ suc depth ≤ bit_count bitmap + 1
  pub small : bit_count bitmap < 2147483648
  pub fits : AreWords bitmap

unfoldable pub available : ℕ → Bitmap → Blocks
available depth bitmap l b = leb l depth && ltb b (2 ^ l) && bit bitmap (node l b)

set-if : (c x : Bool) → (x || c) ≡ (if c then true else x)
set-if c x = ground arith

clear-if : (c x : Bool) → (x && not c) ≡ (if c then false else x)
clear-if c x = ground arith

module _ {depth : ℕ} {bitmap : Bitmap} (tree : IsTree depth bitmap) (l b : ℕ) (level : l ≤ depth)
    (block : b < 2 ^ l) where
  pub node-lt-bit_count : node l b < bit_count bitmap
  node-lt-bit_count = omega (
    arith,
    tree.room,
    pow-succ' 2 depth,
    one-le-pow l 2 (omega arith),
    pow-le-pow_right {n = 2} (omega arith) level,
  )

  pub query-available :
      bitmap_is_bit_set bitmap (pos (node l b)) ≡ some (available depth bitmap l b)
  unfolding available
  query-available = bitmap_is_bit_set-bit bitmap (node l b) node-lt-bit_count ∙ ground arith

  available-put :
      (bitmap' : Bitmap) (v : Bool)
      → ((k : ℕ) → bit bitmap' k ≡ (if k == node l b then v else bit bitmap k))
      → available depth bitmap' ≡ put (available depth bitmap) l b v
  unfolding available
  available-put bitmap' v h = fun_ext (λ l'. fun_ext (λ b'. at l' b'))
    where
      at :
          (l' b' : ℕ)
          → (leb l' depth && ltb b' (2 ^ l') && bit bitmap' (node l' b')) ≡ (
              if l' == l && b' == b
              then v
              else (leb l' depth && ltb b' (2 ^ l') && bit bitmap (node l' b')))
      at l' b' = elim (dec_lt b' (2 ^ l')) [
        | yes p ↦ ground (arith, h (node l' b'), node_eq l l' b b' block p)
        | no p ↦ elim (ℕ_discrete l' l) [
          | yes e ↦ ground (arith, ap (λ (t : ℕ). 2 ^ t) e)
          | no ne ↦ ground arith
        ]
      ]

  IsTree-same :
      (bitmap' : Bitmap)
      → length bitmap' ≡ length bitmap
      → (AreWords bitmap → AreWords bitmap')
      → IsTree depth bitmap'
  IsTree-same bitmap' same words = record {
    room = omega (arith, tree.room);
    small = omega (arith, tree.small);
    fits = words tree.fits;
  }

  -- Setting and clearing the bit of a block.
  pub mark :
      (bitmap' : Bitmap) × (bitmap_set_bit bitmap (pos (node l b)) ≡ some bitmap')
      × IsTree depth bitmap'
      × (available depth bitmap' ≡ put (available depth bitmap) l b true)
  mark =
      let (bitmap', e, same, words, bits) =
        bitmap_set_bit-bit bitmap (node l b) node-lt-bit_count in
      (
        bitmap',
        e,
        IsTree-same bitmap' same words,
        available-put bitmap' true (λ k. bits k ∙ set-if (k == node l b) (bit bitmap k)),
      )

  pub unmark :
      (bitmap' : Bitmap) × (bitmap_clear_bit bitmap (pos (node l b)) ≡ some bitmap')
      × IsTree depth bitmap'
      × (available depth bitmap' ≡ put (available depth bitmap) l b false)
  unmark =
      let (bitmap', e, same, words, bits) =
        bitmap_clear_bit-bit bitmap (node l b) node-lt-bit_count in
      (
        bitmap',
        e,
        IsTree-same bitmap' same words,
        available-put bitmap' false (λ k. bits k ∙ clear-if (k == node l b) (bit bitmap k)),
      )
