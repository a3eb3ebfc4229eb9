-- ===== src/Bitmap/Single.antt =====
-- `bitmap_set_bit`, `bitmap_clear_bit` and `bitmap_is_bit_set`.
use native.Mathlib.Decide.{dec_lt, ℕ_discrete}
use Prim.Native.Nat.{bit_and, bit_or, bit_xor}
use yjkos.Prelude.{
  ℕ, zero, suc, ◌+◌, ◌-◌, ◌/◌, ◌%◌, ◌^◌, ◌<◌, ◌≡◌, ◌≢◌, ◌↔◌, inl, inr, refl, ap, ◌∙◌, Bool, false,
  not, ◌&&◌, ◌||◌, none, some, arith, ltb, ◌==◌, ==_iff, Bool-cases, length, set, get_or,
  length-set, get_or-past, get_or-set_self, get_or-set_ne, pos,
}
use yjkos.Bits.{test_bit}
use yjkos.Bits.Laws.{
  test_bit-bit_and, test_bit-injective, bit_and-le, bit_and-le_left, bit_or-lt, test_bit-zero,
  test_bit-shl, test_bit-shl_below, shl_one-lt,
}
use yjkos.Bitmap.{
  Bitmap, bits_per_word, word_all_ones, bit_clear, one_bit, word_at, bitmap_set_bit,
  bitmap_clear_bit, bitmap_is_bit_set,
}
use yjkos.Bitmap.Range.{IsBitwise, bit-set, bit_or-IsBitwise, bit_clear-IsBitwise, ==-ne}
use yjkos.Bitmap.Spec.{bit, bit_count, AreWords}

test_bit-one : (i : ℕ) → test_bit 1 i ≡ (i == 0)
unfolding test_bit
test_bit-one zero = refl
test_bit-one (suc i) = test_bit-zero i ∙ ground arith

one_bit-digit : (offset j : ℕ) → test_bit (one_bit offset) j ≡ (j == offset % bits_per_word)
unfolding one_bit
one_bit-digit offset j = elim (dec_lt j (offset % bits_per_word)) [
  | yes below ↦ test_bit-shl_below 1 (offset % bits_per_word) j below ∙ ground arith
  | no above ↦
      let e : offset % bits_per_word + (j - offset % bits_per_word) ≡ j = omega arith in
      let digit = test_bit-shl 1 (offset % bits_per_word) (j - offset % bits_per_word) in
      (rw e at digit) ∙ test_bit-one (j - offset % bits_per_word) ∙ ground arith
]

one_bit-lt : (offset : ℕ) → one_bit offset < 2 ^ 32
unfolding one_bit
one_bit-lt offset = shl_one-lt 32 (offset % bits_per_word) (omega arith)

bit_clear-lt : (word mask : ℕ) → word < 2 ^ 32 → bit_clear word mask < 2 ^ 32
unfolding bit_clear
bit_clear-lt word mask h = omega (arith, bit_and-le_left word (bit_xor mask word_all_ones))

set-AreWords : (words : Bitmap) (i v : ℕ) → AreWords words → v < 2 ^ 32 → AreWords (set words i v)
set-AreWords words i v fits h j = elim (ℕ_discrete i j) [
  | yes e ↦ elim (dec_lt i (length words)) [
    | yes lt ↦
        let same : get_or (set words i v) j 0 ≡ v = rw (← e) (get_or-set_self words i v 0 lt) in
        omega arith
    | no past ↦
        let none_there : get_or (set words i v) j 0 ≡ 0 =
          (get_or-past (set words i v) j (omega (arith, length-set words i v))) in
        omega arith
  ]
  | no ne ↦ rw (get_or-set_ne words i j v 0 ne) (fits j)
]

-- A word operation that acts on digits, at the word and the digit of one bit.
module _ (f : ℕ → ℕ → ℕ) (g : Bool → Bool → Bool) (law : IsBitwise f g) (words : Bitmap)
    (offset : ℕ) (within : offset < bit_count words) where
  update_bit :
      (k : ℕ)
      → bit
          (set words
            (offset / bits_per_word)
            (f (get_or words (offset / bits_per_word) 0) (one_bit offset)))
          k
        ≡ g (bit words k) (k == offset)
  unfolding bit
  update_bit k =
      bit-set words (offset / bits_per_word)
        (f (get_or words (offset / bits_per_word) 0) (one_bit offset)) k (omega arith)
      ∙ elim (ℕ_discrete (k / bits_per_word) (offset / bits_per_word)) [
        | yes same ↦
            let here : (k % bits_per_word == offset % bits_per_word) ≡ (k == offset) =
              ground arith in
            rw (
              (==_iff (k / bits_per_word) (offset / bits_per_word)).1 same,
              law.digit (get_or words (offset / bits_per_word) 0) (one_bit offset)
                  (k % bits_per_word) (omega arith),
              one_bit-digit offset (k % bits_per_word),
              here,
              same,
            )
        | no other ↦
            let far : k ≢ offset = omega arith in
            rw (
              ==-ne (k / bits_per_word) (offset / bits_per_word) other,
              ==-ne k offset far,
              law.keeps,
            )
      ]

-- the test of `bitmap_is_bit_set`
one_bit-test :
    (word offset : ℕ)
    → not (bit_and word (one_bit offset) == 0) ≡ test_bit word (offset % bits_per_word)
one_bit-test word offset = elim (Bool-cases (test_bit word (offset % bits_per_word))) [
  | inl one ↦
      let both = test_bit-bit_and word (one_bit offset) (offset % bits_per_word) in
      let mask = one_bit-digit offset (offset % bits_per_word) in
      let ne : bit_and word (one_bit offset) ≢ 0 = (λ e. absurd (
        ground (
          arith,
          ap (λ t. test_bit t (offset % bits_per_word)) e,
          test_bit-zero (offset % bits_per_word),
        ))) in
      rw (one, ==-ne (bit_and word (one_bit offset)) 0 ne)
  | inr clear ↦
      let e : bit_and word (one_bit offset) ≡ 0 =
        (test_bit-injective 32 (bit_and word (one_bit offset)) 0
          (omega (arith, bit_and-le word (one_bit offset), one_bit-lt offset)) (omega arith)
          (λ j lt. ground (
            arith,
            test_bit-bit_and word (one_bit offset) j,
            one_bit-digit offset j,
            test_bit-zero j,
          ))) in
      rw (clear, e)
]

module _ (words : Bitmap) (offset : ℕ) (within : offset < bit_count words) where
  in_array :
      (word_at words (offset / bits_per_word) ≡ some (get_or words (offset / bits_per_word) 0))
      × (ltb (length words) (offset / bits_per_word) ≡ false)
  unfolding word_at
  in_array = ground arith

  -- bitmap_set_bit at a bit of the bitmap sets it, changes no other, and keeps the number of words.
  pub bitmap_set_bit-bit :
      (words' : Bitmap) × (bitmap_set_bit words (pos offset) ≡ some words')
      × (length words' ≡ length words)
      × (AreWords words → AreWords words')
      × ((k : ℕ) → bit words' k ≡ (bit words k || k == offset))
  unfolding bitmap_set_bit
  bitmap_set_bit-bit = (
    set words (offset / bits_per_word)
        (bit_or (get_or words (offset / bits_per_word) 0) (one_bit offset)),
    rw (in_array.1, in_array.0),
    length-set words (offset / bits_per_word) _,
    λ fits. set-AreWords words (offset / bits_per_word) _ fits (
        bit_or-lt 32 (get_or words (offset / bits_per_word) 0) (one_bit offset)
          (fits (offset / bits_per_word)) (one_bit-lt offset)),
    update_bit bit_or ◌||◌ bit_or-IsBitwise words offset within,
  )

  -- bitmap_clear_bit at a bit of the bitmap clears it, changes no other, and keeps the number of
  -- words.
  pub bitmap_clear_bit-bit :
      (words' : Bitmap) × (bitmap_clear_bit words (pos offset) ≡ some words')
      × (length words' ≡ length words)
      × (AreWords words → AreWords words')
      × ((k : ℕ) → bit words' k ≡ (bit words k && not (k == offset)))
  unfolding bitmap_clear_bit
  bitmap_clear_bit-bit = (
    set words (offset / bits_per_word)
        (bit_clear (get_or words (offset / bits_per_word) 0) (one_bit offset)),
    rw (in_array.1, in_array.0),
    length-set words (offset / bits_per_word) _,
    λ fits. set-AreWords words (offset / bits_per_word) _ fits (
        bit_clear-lt (get_or words (offset / bits_per_word) 0) (one_bit offset)
          (fits (offset / bits_per_word))),
    update_bit bit_clear (λ b m. b && not m) bit_clear-IsBitwise words offset within,
  )

  -- bitmap_is_bit_set at a bit of the bitmap returns that bit.
  pub bitmap_is_bit_set-bit : bitmap_is_bit_set words (pos offset) ≡ some (bit words offset)
  unfolding bitmap_is_bit_set bit
  bitmap_is_bit_set-bit =
      rw (in_array.1, in_array.0, one_bit-test (get_or words (offset / bits_per_word) 0) offset)

-- For an offset that is not negative, each of bitmap_set_bit, bitmap_clear_bit and
-- bitmap_is_bit_set leaves the array of words exactly if the offset lies in the word just past its
-- end.
pub bitmap_bit-stray :
    (words : Bitmap) (offset : ℕ)
    → ((bitmap_set_bit words (pos offset) ≡ none) ↔ (offset / bits_per_word ≡ length words))
      × ((bitmap_clear_bit words (pos offset) ≡ none) ↔ (offset / bits_per_word ≡ length words))
      × ((bitmap_is_bit_set words (pos offset) ≡ none) ↔ (offset / bits_per_word ≡ length words))
unfolding bitmap_set_bit bitmap_clear_bit bitmap_is_bit_set word_at
bitmap_bit-stray words offset = (
  (λ h. ground arith, λ e. ground arith),
  (λ h. ground arith, λ e. ground arith),
  (λ h. ground arith, λ e. ground arith),
)
