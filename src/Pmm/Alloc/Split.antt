-- ===== src/Pmm/Alloc/Split.antt =====
-- The loop that splits. Its state lacks the block that the loop is about to take; with that block
-- put back, each round takes one block apart.
use yjkos.Prelude.{
  ℕ, zero, suc, ◌+◌, ◌-◌, ◌*◌, ◌^◌, ◌≤◌, ◌<◌, ◌≡◌, refl, sym, ap, ◌∙◌, true, false, arith, Run, ok,
}
use mathlib.Core.Path.{fun_ext, subst}
use native.Mathlib.Nat.{pow-succ'}
use yjkos.Bitmap.{Bitmap}
use yjkos.Buddy.{Blocks, put, is_free, IsAntichain, split_block, below}
use yjkos.Buddy.Ancestors.{below-add}
use yjkos.Buddy.Split.{is_free-split, split_block-IsAntichain}
use yjkos.Pmm.{split_loop}
use yjkos.Pmm.Levels.{bit_index-node}
use yjkos.Pmm.View.{IsTree, available, mark, unmark}

-- the state with the loop's block put back
abbrev pub with_block : ℕ → Bitmap → ℕ → ℕ → Blocks
with_block depth bitmap l b = put (available depth bitmap) l b true

pub record IsSplit (depth w : ℕ) (s : Blocks) (out : Run (Bitmap × ℕ)) : Type 0 where
  pub bitmap : Bitmap
  pub block : ℕ
  pub returns : out ≡ ok (bitmap, block)
  pub tree : IsTree depth bitmap
  pub inside : block < 2 ^ w
  pub anti : IsAntichain (with_block depth bitmap w block)
  pub same :
      (k p : ℕ) → is_free (with_block depth bitmap w block) (below w k) p ≡ is_free s (below w k) p

-- One round takes the block apart.
round_splits :
    (a : Blocks) (l c : ℕ)
    → put (put (put a l c false) (suc l) (2 * c + 1) true) (suc l) (2 * c) true
      ≡ split_block (put a l c true) l c
round_splits a l c = fun_ext (λ l'. fun_ext (λ c'. ground arith))

pub split_loop-IsSplit :
    (depth : ℕ) (n l c w : ℕ) (bitmap : Bitmap)
    → IsTree depth bitmap
    → c < 2 ^ l
    → l + n ≡ w
    → w ≤ depth
    → IsAntichain (with_block depth bitmap l c)
    → IsSplit depth w (with_block depth bitmap l c) (split_loop n bitmap l c)
unfolding split_loop
split_loop-IsSplit depth zero l c w bitmap tree lt e le anti =
    let same : l ≡ w = omega arith in
    subst (λ t. IsSplit depth t (with_block depth bitmap l c) (ok (bitmap, c))) same
      (record {
        bitmap = bitmap;
        block = c;
        returns = refl;
        tree = tree;
        inside = lt;
        anti = anti;
        same = λ k p. refl;
      })
split_loop-IsSplit depth (suc n) l c w bitmap tree lt e le anti =
    let (bitmap1, cleared, tree1, view1) = unmark tree l c (omega arith) lt in
    let half : 2 * c + 1 < 2 ^ suc l = omega (arith, pow-succ' 2 l) in
    let (bitmap2, marked, tree2, view2) = mark tree1 (suc l) (2 * c + 1) (omega arith) half in
    let view : with_block depth bitmap2 (suc l) (2 * c)
        ≡ split_block (with_block depth bitmap l c) l c =
      (rw (view2, view1) (round_splits (available depth bitmap) l c)) in
    let here : with_block depth bitmap l c l c ≡ true = ground arith in
    let rest =
      split_loop-IsSplit depth n (suc l) (2 * c) w bitmap2 tree2 (omega arith) (omega arith) le (
        subst IsAntichain (sym view)
          (split_block-IsAntichain (with_block depth bitmap l c) l c here anti)) in
    let next : l + 1 ≡ suc l = omega arith in
    let left : c * 2 ≡ 2 * c = omega arith in
    record {
      bitmap = rest.bitmap;
      block = rest.block;
      returns =
          rw
            (
              next,
              left,
              bit_index-node l c lt,
              cleared,
              bit_index-node (suc l) (2 * c + 1) half,
              marked,
            )
            rest.returns;
      tree = rest.tree;
      inside = rest.inside;
      anti = rest.anti;
      same = λ k p.
          let depth_eq : below (suc l) (w + k - suc l) ≡ below w k =
            (omega (arith, below-add (suc l) (w + k - suc l), below-add w k)) in
          rest.same k p
          ∙ ap (λ s. is_free s (below w k) p) view
          ∙ (rw depth_eq at
              (is_free-split (with_block depth bitmap l c) l c here (w + k - suc l) p));
    }
