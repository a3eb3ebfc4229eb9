-- ===== src/Pmm/Free/Loop.antt =====
-- The loop of `free_from_pool`, which marks a block as available and joins it with its neighbours.
use yjkos.Prelude.{
  ℕ, zero, suc, ◌+◌, ◌-◌, ◌^◌, ◌/◌, ◌%◌, ◌≤◌, ◌<◌, ◌≡◌, ◌≢◌, inl, inr, sym, ap, ◌∙◌, Bool-cases,
  true, false, ◌||◌, some, arith, ◌==◌, if◌then◌else◌, Run, ok, or_panic, pos,
}
use mathlib.Core.Path.{fun_ext, subst}
use native.Mathlib.Decide.{ℕ_discrete}
use native.Mathlib.Nat.{pow-succ'}
use yjkos.Bits.{shr}
use yjkos.Bitmap.{Bitmap, bitmap_is_bit_set, bitmap_set_bit}
use yjkos.Buddy.{Blocks, put, is_free, IsAntichain, IsUnused, below}
use yjkos.Buddy.Ancestors.{not_available}
use yjkos.Buddy.Insert.{is_free-insert, insert-IsAntichain}
use yjkos.Buddy.Merge.{merge-IsUnused, is_free-merge, below-suc}
use yjkos.Buddy.Remove.{remove-IsAntichain}
use yjkos.Pmm.{free_loop}
use yjkos.Pmm.Levels.{node, bit_index-node}
use yjkos.Pmm.View.{IsTree, available, mark, unmark, query-available}

-- What the loop leaves when it frees block `b` of level `l`.
pub record IsFreed (depth : ℕ) (s : Blocks) (l b : ℕ) (out : Run Bitmap) : Type 0 where
  pub bitmap : Bitmap
  pub returns : out ≡ ok bitmap
  pub tree : IsTree depth bitmap
  pub anti : IsAntichain (available depth bitmap)
  pub now_free :
      (n p : ℕ)
      → is_free (available depth bitmap) (below l n) p ≡ (is_free s (below l n) p || shr p n == b)

-- the other half of the block that block `b` is a half of
abbrev pub buddy : ℕ → ℕ
buddy b = if b % 2 == 0 then b + 1 else b - 1

neighbor-node :
    (l b : ℕ)
    → (if b % 2 == 0 then node (suc l) b + 1 else node (suc l) b - 1) ≡ node (suc l) (buddy b)
neighbor-node l b = ground arith

-- A bit that is set and cleared again, and the neighbour's cleared.
set_and_cleared :
    (a : Blocks) (l b nb : ℕ)
    → a l b ≡ false
    → put (put (put a l b true) l b false) l nb false ≡ put a l nb false
set_and_cleared a l b nb clear = fun_ext (λ l'. fun_ext (λ b'. at l' b'))
  where
    at :
        (l' b' : ℕ) → put (put (put a l b true) l b false) l nb false l' b' ≡ put a l nb false l' b'
    at l' b' = elim (ℕ_discrete l' l) [
      | yes e ↦ elim (ℕ_discrete b' b) [
        | yes f ↦ let there : a l' b' ≡ false = rw (e, f) clear in ground arith
        | no f ↦ ground arith
      ]
      | no e ↦ ground arith
    ]

module _ (depth : ℕ) {bitmap : Bitmap} (l b : ℕ) (tree : IsTree depth bitmap) (le : l ≤ depth)
    (lt : b < 2 ^ l) (anti : IsAntichain (available depth bitmap))
    (unused : IsUnused (available depth bitmap) l b) where
  unset : bitmap_is_bit_set bitmap (pos (node l b)) ≡ some false
  unset =
      query-available tree l b le lt
      ∙ ap some (not_available (available depth bitmap) l b unused.not_free)

  -- the loop's last round, with what it returns
  last_round :
      (out : Run Bitmap)
      → out ≡ or_panic (bitmap_set_bit bitmap (pos (node l b)))
      → IsFreed depth (available depth bitmap) l b out
  last_round out e =
      let (bitmap', marked, tree', view) = mark tree l b le lt in
      record {
        bitmap = bitmap';
        returns = rw (e, marked);
        tree = tree';
        anti =
            subst IsAntichain (sym view)
              (insert-IsAntichain (available depth bitmap) l b anti unused);
        now_free = λ n p.
            ap (λ s. is_free s (below l n) p) view
            ∙ is_free-insert (available depth bitmap) l b n p;
      }

module _ (depth : ℕ) where
  pub free_loop-IsFreed :
      (l b : ℕ) (bitmap : Bitmap)
      → IsTree depth bitmap
      → l ≤ depth
      → b < 2 ^ l
      → IsAntichain (available depth bitmap)
      → IsUnused (available depth bitmap) l b
      → IsFreed depth (available depth bitmap) l b (free_loop l b bitmap)
  unfolding free_loop
  free_loop-IsFreed zero b bitmap tree le lt anti unused =
      last_round depth zero b tree le lt anti unused _
        (rw (bit_index-node zero b lt, unset depth zero b tree le lt anti unused))
  free_loop-IsFreed (suc l) b bitmap tree le lt anti unused =
      let here = available depth bitmap in
      let (bitmap1, marked, tree1, view1) = mark tree (suc l) b le lt in
      let inside : buddy b < 2 ^ suc l = ground (arith, pow-succ' 2 l) in
      let other : buddy b ≢ b = ground arith in
      let asked : bitmap_is_bit_set bitmap1 (pos (node (suc l) (buddy b)))
          ≡ some (here (suc l) (buddy b)) =
        (query-available tree1 (suc l) (buddy b) le inside
          ∙ ap some (ap (λ s. s (suc l) (buddy b)) view1 ∙ ground arith)) in
      elim (Bool-cases (here (suc l) (buddy b))) [
        | inr alone ↦ last_round depth (suc l) b tree le lt anti unused _ (
            rw (
              bit_index-node (suc l) b lt,
              unset depth (suc l) b tree le lt anti unused,
              marked,
              neighbor-node l b,
              asked,
              alone,
            ))
        | inl both ↦
            let (bitmap2, cleared, tree2, view2) = unmark tree1 (suc l) b le lt in
            let (bitmap3, joined, tree3, view3) = unmark tree2 (suc l) (buddy b) le inside in
            let view : available depth bitmap3 ≡ put here (suc l) (buddy b) false =
              (view3
                ∙ ap (λ s. put s (suc l) (buddy b) false)
                    (view2 ∙ ap (λ s. put s (suc l) b false) view1)
                ∙ set_and_cleared here (suc l) b (buddy b)
                    (not_available here (suc l) b unused.not_free)) in
            let halves : buddy b / 2 ≡ b / 2 = ground arith in
            let anti3 : IsAntichain (available depth bitmap3) =
              subst IsAntichain (sym view) (remove-IsAntichain here (suc l) (buddy b) anti both) in
            let unused3 : IsUnused (available depth bitmap3) l (b / 2) =
              subst (λ s. IsUnused s l (b / 2)) (sym view)
                (merge-IsUnused here l b (buddy b) anti unused both halves other) in
            let rest =
              free_loop-IsFreed l (b / 2) bitmap3 tree3 (omega arith) (omega (arith, pow-succ' 2 l))
                anti3 unused3 in
            record {
              bitmap = rest.bitmap;
              returns =
                  rw
                    (
                      bit_index-node (suc l) b lt,
                      unset depth (suc l) b tree le lt anti unused,
                      marked,
                      neighbor-node l b,
                      asked,
                      both,
                      cleared,
                      neighbor-node l b,
                      joined,
                    )
                    rest.returns;
              tree = rest.tree;
              anti = rest.anti;
              now_free = λ n p.
                  ap (λ k. is_free (available depth rest.bitmap) k p) (below-suc l n)
                  ∙ rest.now_free (suc n) p
                  ∙ ap (λ s. is_free s (suc (below l n)) p || shr p (suc n) == b / 2) view
                  ∙ ap
                      (λ k.
                        is_free (put here (suc l) (buddy b) false) k p || shr p (suc n) == b / 2)
                      (sym (below-suc l n))
                  ∙ is_free-merge here l b (buddy b) anti unused both halves other n p;
            }
      ]
