-- ===== src/Queue/Slots.antt =====
-- Copies to and from the slots of the ring.
use yjkos.Prelude.{
  ℕ, zero, suc, ◌+◌, ◌*◌, ◌≤◌, ◌<◌, ◌≡◌, ◌≢◌, ◌⊎◌, inl, inr, refl, ap₂, ◌∙◌, List, [], ◌∷◌, arith,
  length, set, get_or, length-set, get_or-set_self, get_or-set_ne,
}
use native.Mathlib.Decide.{dec_lt}
use yjkos.Queue.{copy_in, copy_out}

pub length-copy_in :
    (buf : List ℕ) (at : ℕ) (item : List ℕ) → length (copy_in buf at item) ≡ length buf
unfolding copy_in
length-copy_in buf at [] = refl
length-copy_in buf at (b ∷ item) = length-copy_in (set buf at b) (suc at) item ∙ length-set buf at b

-- A byte outside the copied range stays.
get_or-copy_in :
    (buf : List ℕ) (at : ℕ) (item : List ℕ) (i : ℕ)
    → (i < at) ⊎ (at + length item ≤ i)
    → get_or (copy_in buf at item) i 0 ≡ get_or buf i 0
unfolding copy_in
get_or-copy_in buf at [] i out = refl
get_or-copy_in buf at (b ∷ item) i out =
    get_or-copy_in (set buf at b) (suc at) item i
      (elim out [ inl h ↦ inl (omega arith) | inr h ↦ inr (omega arith) ])
    ∙ get_or-set_ne buf at i b 0
        (elim out [ inl h ↦ (λ e. omega arith) | inr h ↦ (λ e. omega arith) ])

-- What is copied in is copied out again.
pub copy_out-copy_in :
    (buf : List ℕ) (at : ℕ) (item : List ℕ)
    → at + length item ≤ length buf
    → copy_out (copy_in buf at item) at (length item) ≡ item
unfolding copy_in copy_out
copy_out-copy_in buf at [] h = refl
copy_out-copy_in buf at (b ∷ item) h =
    let first : get_or (copy_in (set buf at b) (suc at) item) at 0 ≡ b =
      (get_or-copy_in (set buf at b) (suc at) item at (inl (omega arith))
        ∙ get_or-set_self buf at b 0 (omega arith)) in
    ap₂ ◌∷◌ first
      (copy_out-copy_in (set buf at b) (suc at) item (omega (arith, length-set buf at b)))

-- A range that does not overlap is copied out as before.
pub copy_out-copy_in_apart :
    (buf : List ℕ) (at : ℕ) (item : List ℕ) (from n : ℕ)
    → (from + n ≤ at) ⊎ (at + length item ≤ from)
    → copy_out (copy_in buf at item) from n ≡ copy_out buf from n
unfolding copy_out
copy_out-copy_in_apart buf at item from zero apart = refl
copy_out-copy_in_apart buf at item from (suc n) apart =
    ap₂ ◌∷◌
      (get_or-copy_in buf at item from
        (elim apart [ inl h ↦ inl (omega arith) | inr h ↦ inr (omega arith) ]))
      (copy_out-copy_in_apart buf at item (suc from) n
        (elim apart [ inl h ↦ inl (omega arith) | inr h ↦ inr (omega arith) ]))

mul_mono : (a b c : ℕ) → a ≤ b → a * c ≤ b * c
mul_mono a b c h = grind arith

-- Two slots do not overlap.
pub slots_apart :
    (i j size : ℕ) → i ≢ j → (i * size + size ≤ j * size) ⊎ (j * size + size ≤ i * size)
slots_apart i j size ne = elim (dec_lt i j) [
  | yes p ↦ inl (omega (arith, mul_mono (i + 1) j size (omega arith)))
  | no p ↦ inr (omega (arith, mul_mono (j + 1) i size (omega arith)))
]

pub slot_inside : (i cap size : ℕ) → i < cap → i * size + size ≤ cap * size
slot_inside i cap size h = omega (arith, mul_mono (i + 1) cap size (omega arith))
