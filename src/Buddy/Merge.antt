-- ===== src/Buddy/Merge.antt =====
-- Joining an unused block with its available neighbour: the other half of the block that both are
-- part of.
use native.Mathlib.Decide.{ℕ_discrete}
use yjkos.Prelude.{ℕ, zero, suc, ◌/◌, ◌≡◌, ◌≢◌, refl, ap, ◌∙◌, true, false, ◌||◌, arith, ◌==◌}
use yjkos.Bits.{shr}
use yjkos.Bits.Laws.{shr-suc}
use yjkos.Buddy.{Blocks, put, is_free, IsAntichain, IsUnused, below}
use yjkos.Buddy.Ancestors.{
  is_free_mono, is_free_self, is_free_within, is_free_above, not_available, nothing_inside,
}
use yjkos.Buddy.Remove.{is_free-remove}

pub below-suc : (l n : ℕ) → below (suc l) n ≡ suc (below l n)
below-suc l zero = refl
below-suc l (suc n) = ap suc (below-suc l n)

module _ (a : Blocks) (l b nb : ℕ) (anti : IsAntichain a) (unused : IsUnused a (suc l) b)
    (available : a (suc l) nb ≡ true) (halves : nb / 2 ≡ b / 2) (other : nb ≢ b) where
  above_not_free : is_free a l (b / 2) ≡ false
  above_not_free = is_free_above a l b unused.not_free

  -- Nothing that lies in the joined block is available once the neighbour is taken away.
  merge-no_part : (n c : ℕ) → shr c n ≡ b / 2 → put a (suc l) nb false (below l n) c ≡ false
  unfolding shr
  merge-no_part zero c e =
      let here : a l c ≡ false = rw e (not_available a l (b / 2) above_not_free) in ground arith
  merge-no_part (suc n) c e =
      let half : shr c n / 2 ≡ b / 2 = shr-suc c n ∙ e in
      elim (ℕ_discrete (shr c n) b) [
        | yes own ↦
            let nothing : a (suc (below l n)) c ≡ false =
              (rw below-suc at (unused.no_part n c own)) in
            ground arith
        | no ne ↦ neighbour n c (omega arith)
      ]
    where
      neighbour : (n c : ℕ) → shr c n ≡ nb → put a (suc l) nb false (suc (below l n)) c ≡ false
      neighbour zero c e = ground arith
      neighbour (suc k) c e =
          let nothing : a (suc (suc (below l k))) c ≡ false =
            (rw below-suc at (nothing_inside a (suc l) nb k c anti available e)) in
          ground arith

  pub merge-IsUnused : IsUnused (put a (suc l) nb false) l (b / 2)
  merge-IsUnused = record {
    not_free =
        is_free_mono a (put a (suc l) nb false) l (b / 2) (λ i d. ground arith) above_not_free;
    no_part = merge-no_part;
  }

  -- The block and what is free already are the joined block and what is still free.
  pub is_free-merge :
      (n c : ℕ)
      → (is_free (put a (suc l) nb false) (below (suc l) n) c || shr c (suc n) == b / 2)
        ≡ (is_free a (below (suc l) n) c || shr c n == b)
  is_free-merge n c =
      let half : shr c n / 2 ≡ shr c (suc n) = shr-suc c n in
      let gone = is_free-remove a (suc l) nb anti available n c in
      elim (ℕ_discrete (shr c n) nb) [
        | yes e ↦
            let free : is_free a (below (suc l) n) c ≡ true =
              is_free_within a (suc l) n c (rw e (is_free_self a (suc l) nb available)) in
            ground arith
        | no ne ↦ ground arith
      ]
