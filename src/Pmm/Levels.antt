-- ===== src/Pmm/Levels.antt =====
-- The bits of a level: where they begin, and that no two blocks share one.
use native.Mathlib.Decide.{dec_lt, ℕ_discrete}
use native.Mathlib.Nat.{pow-succ', pow-le-pow_right, one-le-pow}
use yjkos.Prelude.{
  ℕ, zero, suc, ◌+◌, ◌-◌, ◌*◌, ◌^◌, ◌≤◌, ◌<◌, ◌≡◌, ap, ap₂, ◌∙◌, ◌&&◌, arith, ◌==◌, ok,
}
use yjkos.Pmm.{level_range_loop, bit_indices_range_for_level, bit_index_for_pagepool_block}

-- the bit of block `b` of level `l`
abbrev pub node : ℕ → ℕ → ℕ
node l b = 2 ^ l - 1 + b

le-mul : (a b : ℕ) → 1 ≤ b → a ≤ a * b
le-mul a b h = grind arith

level_range_loop_lem :
    (n b o : ℕ)
    → 0 < b
    → level_range_loop n b o ≡ (o + b * 2 ^ n - b, o + b * 2 ^ n - b + b * 2 ^ n - 1)
unfolding level_range_loop
level_range_loop_lem zero b o h = ground arith
level_range_loop_lem (suc n) b o h =
    let twice : b * 2 ^ suc n ≡ 2 * (b * 2 ^ n) =
      omega (arith, ap (λ (t : ℕ). b * t) (pow-succ' 2 n)) in
    let large : b ≤ b * 2 ^ n = le-mul b (2 ^ n) (one-le-pow n 2 (omega arith)) in
    level_range_loop_lem n (b * 2) (o + b) (omega arith)
    ∙ ap₂ (λ (x y : ℕ). (x, y)) (omega arith) (omega arith)

pub range_for_level : (l : ℕ) → bit_indices_range_for_level l ≡ (2 ^ l - 1, 2 ^ l - 1 + 2 ^ l - 1)
unfolding bit_indices_range_for_level
range_for_level l = level_range_loop_lem l 1 0 (omega arith) ∙ ground arith

pub bit_index-node : (l b : ℕ) → b < 2 ^ l → bit_index_for_pagepool_block l b ≡ ok (node l b)
unfolding bit_index_for_pagepool_block
bit_index-node l b h = rw (range_for_level l) (ground arith)

node-lt : (l l' b b' : ℕ) → b < 2 ^ l → l < l' → node l b < node l' b'
node-lt l l' b b' h lt = omega (arith, pow-le-pow_right {n = 2} (omega arith) lt, pow-succ' 2 l)

pub node_eq :
    (l l' b b' : ℕ) → b < 2 ^ l → b' < 2 ^ l' → (node l' b' == node l b) ≡ (l' == l && b' == b)
node_eq l l' b b' h h' = elim (ℕ_discrete l' l) [
  | yes e ↦ rw e (ground arith)
  | no ne ↦ elim (dec_lt l l') [
    | yes p ↦ ground (arith, node-lt l l' b b' h p)
    | no p ↦ ground (arith, node-lt l' l b' b h' (omega arith))
  ]
]
