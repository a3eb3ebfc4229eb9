-- ===== src/Pmm/Alloc/Search.antt =====
-- The search for an available block, from the wanted level up.
use yjkos.Prelude.{
  ℕ, zero, suc, ◌+◌, ◌-◌, ◌^◌, ◌≤◌, ◌<◌, ◌≡◌, ap, ◌∙◌, inl, inr, Bool-cases, true, false, Option,
  none, some, arith, leb, pos, if◌then◌else◌,
}
use native.Mathlib.Decide.{dec_lt, ℕ_discrete}
use yjkos.Bitmap.{Bitmap, bitmap_find_set_bits}
use yjkos.Bitmap.Runs.{first_run}
use yjkos.Bitmap.Spec.{bit, IsRun, IsFirstRun}
use yjkos.Pmm.{find_in_level, find_block}
use yjkos.Pmm.Levels.{node, range_for_level}
use yjkos.Pmm.Sizes.{pow_two-pos}
use yjkos.Pmm.View.{IsTree, available}

-- the answer of the search in one level
abbrev pub IsInLevel : ℕ → Bitmap → ℕ → Option ℕ → Type 0
IsInLevel depth bitmap l none = (b : ℕ) → available depth bitmap l b ≡ false
IsInLevel depth bitmap l (some b) = (b < 2 ^ l) × (available depth bitmap l b ≡ true)

-- the answer of the whole search from level `w` up
abbrev pub IsFound : ℕ → Bitmap → ℕ → Option (ℕ × ℕ) → Type 0
IsFound depth bitmap w none = (l b : ℕ) → l ≤ w → available depth bitmap l b ≡ false
IsFound depth bitmap w (some (l, b)) =
    (l ≤ w)
    × (b < 2 ^ l)
    × (available depth bitmap l b ≡ true)
    × ((l' b' : ℕ) → l < l' → l' ≤ w → available depth bitmap l' b' ≡ false)

find_in_level_lem :
    (bitmap : Bitmap) (l : ℕ)
    → find_in_level bitmap l ≡ elim (bitmap_find_set_bits bitmap (pos (2 ^ l - 1)) 1) [
      | none ↦ none
      | some found_at ↦
          if leb found_at (2 ^ l - 1 + 2 ^ l - 1) then some (found_at - (2 ^ l - 1)) else none
    ]
unfolding find_in_level
find_in_level_lem bitmap l =
    ap {B = Option ℕ}
      (λ (r : ℕ × ℕ). elim (bitmap_find_set_bits bitmap (pos r.0) 1) [
        | none ↦ none
        | some found_at ↦ if leb found_at r.1 then some (found_at - r.0) else none
      ])
      (range_for_level l)

module _ {depth : ℕ} {bitmap : Bitmap} (tree : IsTree depth bitmap) where
  available-true :
      (l b : ℕ) → available depth bitmap l b ≡ true → (b < 2 ^ l) × (bit bitmap (node l b) ≡ true)
  unfolding available
  available-true l b h = ground arith

  -- A bit that no run begins at belongs to no available block.
  not_at : (l b : ℕ) → ¬ IsRun bitmap (node l b) 1 → available depth bitmap l b ≡ false
  not_at l b no_run = elim (Bool-cases (available depth bitmap l b)) [
    | inr clear ↦ clear
    | inl set ↦ absurd (
        no_run (λ j a c.
          let here : node l b ≡ j = omega arith in rw (← here) (available-true l b set).1))
  ]

  module _ (l : ℕ) (level : l ≤ depth) where
    available-bit : (b : ℕ) → b < 2 ^ l → available depth bitmap l b ≡ bit bitmap (node l b)
    unfolding available
    available-bit b h = ground arith

    step :
        (r : Option ℕ)
        → IsFirstRun bitmap (2 ^ l - 1) 1 r
        → IsInLevel depth bitmap l (elim r [
          | none ↦ none
          | some found_at ↦
              if leb found_at (2 ^ l - 1 + 2 ^ l - 1) then some (found_at - (2 ^ l - 1)) else none
        ])
    step none none_left = λ b. not_at l b (none_left (node l b) (omega arith))
    step (some i) (from, run, first) = elim (Bool-cases (leb i (2 ^ l - 1 + 2 ^ l - 1))) [
      | inl within ↦
          let inside : i - (2 ^ l - 1) < 2 ^ l = ground (arith, pow_two-pos l) in
          let here : node l (i - (2 ^ l - 1)) ≡ i = omega arith in
          rw within (
            inside,
            available-bit (i - (2 ^ l - 1)) inside
                ∙ (rw (← here) at (run i (omega arith) (omega arith))),
          )
      | inr past ↦ rw past (λ b. elim (dec_lt b (2 ^ l)) [
        | yes p ↦ not_at l b (first (node l b) (omega arith) (ground arith))
        | no p ↦ outside b p
      ])
    ]
      where
        outside : (b : ℕ) → ¬ (b < 2 ^ l) → available depth bitmap l b ≡ false
        outside b p = elim (Bool-cases (available depth bitmap l b)) [
          | inl set ↦ absurd (p (available-true l b set).0)
          | inr clear ↦ clear
        ]

    find_in_level-IsInLevel : IsInLevel depth bitmap l (find_in_level bitmap l)
    find_in_level-IsInLevel = rw find_in_level_lem (
        step (bitmap_find_set_bits bitmap (pos (2 ^ l - 1)) 1)
          (first_run bitmap tree.fits 1 tree.small (omega arith) (2 ^ l - 1)))

  -- One level of the search, with the answer for the levels above it.
  join :
      (w : ℕ) (r : Option ℕ) (rest : Option (ℕ × ℕ))
      → IsInLevel depth bitmap (suc w) r
      → IsFound depth bitmap w rest
      → IsFound depth bitmap (suc w) (elim r [ none ↦ rest | some block ↦ some (suc w, block) ])
  join w (some b) rest (inside, set) up =
      (omega arith, inside, set, λ l' b' p q. absurd (omega arith))
  join w none none miss up =
      λ l b le. elim (ℕ_discrete l (suc w)) [ yes e ↦ rw e (miss b) | no ne ↦ up l b (omega arith) ]
  join w none (some (l, b)) miss (le, inside, set, above) = (
    omega arith,
    inside,
    set,
    λ l' b' p q. elim (ℕ_discrete l' (suc w)) [
      | yes e ↦ rw e (miss b')
      | no ne ↦ above l' b' p (omega arith)
    ],
  )

  pub find_block-IsFound : (w : ℕ) → w ≤ depth → IsFound depth bitmap w (find_block bitmap w)
  unfolding find_block
  find_block-IsFound zero le = top (find_in_level bitmap zero) (find_in_level-IsInLevel zero le)
    where
      top :
          (r : Option ℕ)
          → IsInLevel depth bitmap zero r
          → IsFound depth bitmap zero (elim r [ none ↦ none | some block ↦ some (zero, block) ])
      top none miss = λ l b le. let e : l ≡ 0 = omega arith in rw e (miss b)
      top (some b) (inside, set) = (omega arith, inside, set, λ l' b' p q. absurd (omega arith))
  find_block-IsFound (suc w) le =
      join w (find_in_level bitmap (suc w)) (find_block bitmap w)
        (find_in_level-IsInLevel (suc w) le) (find_block-IsFound w (omega arith))
