-- ===== src/Buddy/Ancestors.antt =====
-- `is_free` and the blocks that a block is part of.
use yjkos.Prelude.{
  ℕ, zero, suc, ◌+◌, ◌/◌, ◌≤◌, ◌≡◌, ap₂, inl, inr, Bool-cases, true, false, ◌||◌, arith,
}
use yjkos.Bits.{shr}
use yjkos.Buddy.{Blocks, is_free, IsAntichain, below}

pub is_free-congr :
    (a a' : Blocks) (n c : ℕ)
    → ((i d : ℕ) → i ≤ n → a i d ≡ a' i d)
    → is_free a n c ≡ is_free a' n c
unfolding is_free
is_free-congr a a' zero c h = h zero c (omega arith)
is_free-congr a a' (suc n) c h =
    ap₂ ◌||◌ (h (suc n) c (omega arith))
      (is_free-congr a a' n (c / 2) (λ i d lt. h i d (omega arith)))

-- Fewer available blocks, fewer free ones.
pub is_free_mono :
    (a a' : Blocks) (n c : ℕ)
    → ((i d : ℕ) → a' i d ≡ true → a i d ≡ true)
    → is_free a n c ≡ false
    → is_free a' n c ≡ false
unfolding is_free
is_free_mono a a' zero c h e = ground (arith, h zero c)
is_free_mono a a' (suc n) c h e = ground (arith, h (suc n) c, is_free_mono a a' n (c / 2) h)

-- An available block is free, and so is what lies in it.
pub is_free_self : (a : Blocks) (l b : ℕ) → a l b ≡ true → is_free a l b ≡ true
unfolding is_free
is_free_self a zero b h = h
is_free_self a (suc l) b h = rw h

pub is_free_within :
    (a : Blocks) (l n c : ℕ) → is_free a l (shr c n) ≡ true → is_free a (below l n) c ≡ true
unfolding is_free shr
is_free_within a l zero c h = h
is_free_within a l (suc n) c h = ground (arith, is_free_within a l n (c / 2) h)

pub below-add : (l n : ℕ) → below l n ≡ l + n
below-add l zero = omega arith
below-add l (suc n) = omega (arith, below-add l n)

pub is_free_above :
    (a : Blocks) (l b : ℕ) → is_free a (suc l) b ≡ false → is_free a l (b / 2) ≡ false
unfolding is_free
is_free_above a l b h = ground arith

pub not_available : (a : Blocks) (l b : ℕ) → is_free a l b ≡ false → a l b ≡ false
unfolding is_free
not_available a zero b h = h
not_available a (suc l) b h = ground arith

-- Within an available block of an antichain nothing else is available.
pub nothing_inside :
    (a : Blocks) (l b k c : ℕ)
    → IsAntichain a
    → a l b ≡ true
    → shr (c / 2) k ≡ b
    → a (suc (below l k)) c ≡ false
nothing_inside a l b k c anti h e = elim (Bool-cases (a (suc (below l k)) c)) [
  | inl there ↦
      absurd
        (cc (anti (below l k) c there, is_free_within a l k (c / 2) (rw e (is_free_self a l b h))))
  | inr nothing ↦ nothing
]
