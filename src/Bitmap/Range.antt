-- ===== src/Bitmap/Range.antt =====
-- Ranges of bits: `make_bitmask`, `bitmap_set_bits`, `bitmap_clear_bits`, `bitmap_are_bits_set`.
use native.Mathlib.Decide.{dec_lt, ℕ_discrete}
use native.Mathlib.Nat.{mod-eq_of_lt}
use Prim.Native.Nat.{bit_or, bit_xor}
use yjkos.Prelude.{
  ℕ, zero, suc, ◌+◌, ◌-◌, ◌*◌, ◌/◌, ◌%◌, ◌^◌, ◌≤◌, ◌<◌, ◌≡◌, ◌≢◌, inl, inr, refl, ◌∙◌, Bool, false,
  not, ◌&&◌, ◌||◌, arith, ltb, ◌==◌, ==_iff, Bool-cases, if◌then◌else◌, length, set, get_or,
  length-set, get_or-set_self, get_or-set_ne,
}
use yjkos.Bits.{shr, shl, test_bit}
use yjkos.Bits.Laws.{
  test_bit-mod, test_bit-shl, test_bit-shl_below, test_bit-shr, test_bit-ones, test_bit-zero,
  test_bit-bit_and, test_bit-bit_or, test_bit-bit_xor,
}
use yjkos.Bitmap.{
  Bitmap, bits_per_word, word_all_ones, make_bitmask, current_len, update_loop, bit_clear,
  bitmap_set_bits, bitmap_clear_bits,
}
use yjkos.Bitmap.Spec.{bit, bit_count, in_range}

-- For a range within a word make_bitmask has exactly the digits of the range.
pub make_bitmask-in_range :
    (offset len j : ℕ)
    → offset + len ≤ 32
    → j < 32
    → test_bit (make_bitmask offset len) j ≡ in_range offset len j
unfolding make_bitmask
make_bitmask-in_range offset len j fits lt = elim (Bool-cases (len == 0)) [
  | inl empty ↦ rw (empty, test_bit-zero j) (ground arith)
  | inr filled ↦
      rw (filled, test_bit-mod (shl (shr word_all_ones (bits_per_word - len)) offset) 32 j lt)
        (elim (dec_lt j offset) [
          | yes below ↦
              rw (test_bit-shl_below (shr word_all_ones (bits_per_word - len)) offset j below)
                (ground arith)
          | no above ↦
              let e : offset + (j - offset) ≡ j = omega arith in
              let digit : test_bit (shl (shr word_all_ones (32 - len)) offset)
                    (offset + (j - offset))
                  ≡ ltb (32 - len + (j - offset)) 32 =
                test_bit-shl (shr word_all_ones (32 - len)) offset (j - offset)
                ∙ test_bit-shr word_all_ones (32 - len) (j - offset)
                ∙ test_bit-ones 32 (32 - len + (j - offset)) in
              (rw e at digit) ∙ ground arith
        ])
]

pub ==-ne : (a b : ℕ) → a ≢ b → (a == b) ≡ false
==-ne a b h = ground arith

pub current_len_lem :
    (off remaining : ℕ)
    → off + remaining < 2 ^ 32
    → current_len off remaining ≡ (if ltb 32 (off + remaining) then 32 - off else remaining)
unfolding current_len
current_len_lem off remaining small = rw (mod-eq_of_lt small)

-- A write to word `i` changes only the bits of that word.
pub bit-set :
    (words : Bitmap) (i v k : ℕ)
    → i < length words
    → bit (set words i v) k
      ≡ (if k / bits_per_word == i then test_bit v (k % bits_per_word) else bit words k)
unfolding bit
bit-set words i v k lt = elim (ℕ_discrete i (k / bits_per_word)) [
  | yes e ↦ rw (← e, get_or-set_self words i v 0 lt) (ground arith)
  | no ne ↦ rw (get_or-set_ne words i (k / bits_per_word) v 0 ne) (ground arith)
]

-- How the part of a range that lies in word `w` and the rest of it make up the range.
module _ (w off remaining current k : ℕ) (o : off < 32)
    (e : current ≡ (if ltb 32 (off + remaining) then 32 - off else remaining)) where
  pub rest_of_range :
      k / bits_per_word ≡ w → in_range ((w + 1) * bits_per_word + 0) (remaining - current) k ≡ false
  rest_of_range same = ground arith

  pub part_of_range :
      k / bits_per_word ≡ w
      → in_range off current (k % bits_per_word) ≡ in_range (w * bits_per_word + off) remaining k
  part_of_range same = ground arith

  pub range_elsewhere :
      k / bits_per_word ≢ w
      → in_range ((w + 1) * bits_per_word + 0) (remaining - current) k
        ≡ in_range (w * bits_per_word + off) remaining k
  range_elsewhere other = ground arith

  pub part_fits : off + current ≤ 32
  part_fits = ground arith

-- A word operation that acts on digits, and leaves alone those that the mask lacks.
pub record IsBitwise (f : ℕ → ℕ → ℕ) (g : Bool → Bool → Bool) : Type 0 where
  pub digit : (a m j : ℕ) → j < 32 → test_bit (f a m) j ≡ g (test_bit a j) (test_bit m j)
  pub keeps : (b : Bool) → g b false ≡ b

module _ (f : ℕ → ℕ → ℕ) (g : Bool → Bool → Bool) (law : IsBitwise f g) where
  -- what the rest of the loop adds to one round
  round_joins :
      (words : Bitmap) (w off remaining current k : ℕ)
      → w < length words
      → off < 32
      → current ≡ (if ltb 32 (off + remaining) then 32 - off else remaining)
      → g
          (bit (set words w (f (get_or words w 0) (make_bitmask off current))) k)
          (in_range ((w + 1) * bits_per_word + 0) (remaining - current) k)
        ≡ g (bit words k) (in_range (w * bits_per_word + off) remaining k)
  unfolding bit
  round_joins words w off remaining current k lt o e = elim (ℕ_discrete (k / bits_per_word) w) [
    | yes same ↦ rw (
      bit-set words w (f (get_or words w 0) (make_bitmask off current)) k lt,
      (==_iff (k / bits_per_word) w).1 same,
      rest_of_range w off remaining current k o e same,
      law.keeps,
      law.digit (get_or words w 0) (make_bitmask off current) (k % bits_per_word) (omega arith),
      make_bitmask-in_range off current (k % bits_per_word)
          (part_fits w off remaining current k o e) (omega arith),
      part_of_range w off remaining current k o e same,
      same,
    )
    | no other ↦ rw (
      bit-set words w (f (get_or words w 0) (make_bitmask off current)) k lt,
      ==-ne (k / bits_per_word) w other,
      range_elsewhere w off remaining current k o e other,
    )
  ]

  update_loop-bit :
      (n : ℕ) (words : Bitmap) (w off remaining k : ℕ)
      → n ≡ length words - w
      → off < 32
      → off + remaining < 2 ^ 32
      → k < bit_count words
      → (bit (update_loop f n words w off remaining) k
          ≡ g (bit words k) (in_range (w * bits_per_word + off) remaining k))
  unfolding update_loop
  update_loop-bit zero words w off remaining k e o small lt =
      let out : in_range (w * bits_per_word + off) remaining k ≡ false = ground arith in
      rw (out, law.keeps)
  update_loop-bit (suc n) words w off remaining k e o small lt =
      let len = current_len_lem off remaining small in
      let here =
        set words w (f (get_or words w 0) (make_bitmask off (current_len off remaining))) in
      let same : length here ≡ length words = length-set words w _ in
      elim (Bool-cases (remaining == 0)) [
        | inl done ↦
            let out : in_range (w * bits_per_word + off) remaining k ≡ false = ground arith in
            rw (done, out, law.keeps)
        | inr more ↦ rw more (
            update_loop-bit n here (w + 1) 0 (remaining - current_len off remaining) k (omega arith)
              (omega arith) (omega arith) (omega arith)
            ∙ round_joins words w off remaining (current_len off remaining) k (omega arith) o len)
      ]

  length-update_loop :
      (n : ℕ) (words : Bitmap) (w off remaining : ℕ)
      → length (update_loop f n words w off remaining) ≡ length words
  unfolding update_loop
  length-update_loop zero words w off remaining = refl
  length-update_loop (suc n) words w off remaining = ground (
    arith,
    length-update_loop n
        (set words w (f (get_or words w 0) (make_bitmask off (current_len off remaining)))) (w + 1)
        0 (remaining - current_len off remaining),
    length-set words w (f (get_or words w 0) (make_bitmask off (current_len off remaining))),
  )

pub bit_or-IsBitwise : IsBitwise bit_or ◌||◌
bit_or-IsBitwise = record { digit = λ a m j lt. test_bit-bit_or a m j; keeps = λ b. ground arith }

bit_clear-digit :
    (a m j : ℕ) → j < 32 → test_bit (bit_clear a m) j ≡ (test_bit a j && not (test_bit m j))
unfolding bit_clear
bit_clear-digit a m j lt = rw (
  test_bit-bit_and a (bit_xor m word_all_ones) j,
  test_bit-bit_xor m word_all_ones j (test_bit-ones 32 j ∙ ground arith),
)

pub bit_clear-IsBitwise : IsBitwise bit_clear (λ b m. b && not m)
bit_clear-IsBitwise = record { digit = bit_clear-digit; keeps = λ b. ground arith }

module _ (words : Bitmap) (offset len : ℕ) (small : len < 2 ^ 32 - 32) where
  -- bitmap_set_bits sets the bits of the range and leaves the bitmap's others as they are, for a
  -- length below 2^32 - 32.
  pub bitmap_set_bits-bit :
      (k : ℕ)
      → k < bit_count words
      → bit (bitmap_set_bits words offset len) k ≡ (bit words k || in_range offset len k)
  unfolding bitmap_set_bits
  bitmap_set_bits-bit k lt =
      let split : offset / bits_per_word * bits_per_word + offset % bits_per_word ≡ offset =
        omega arith in
      rw split at (
        update_loop-bit bit_or ◌||◌ bit_or-IsBitwise (length words - offset / bits_per_word) words
          (offset / bits_per_word) (offset % bits_per_word) len k refl (omega arith) (omega arith)
          lt)

  -- bitmap_clear_bits clears the bits of the range and leaves the bitmap's others as they are, for
  -- a length below 2^32 - 32.
  pub bitmap_clear_bits-bit :
      (k : ℕ)
      → k < bit_count words
      → bit (bitmap_clear_bits words offset len) k ≡ (bit words k && not (in_range offset len k))
  unfolding bitmap_clear_bits
  bitmap_clear_bits-bit k lt =
      let split : offset / bits_per_word * bits_per_word + offset % bits_per_word ≡ offset =
        omega arith in
      rw split at (
        update_loop-bit bit_clear (λ b m. b && not m) bit_clear-IsBitwise
          (length words - offset / bits_per_word) words (offset / bits_per_word)
          (offset % bits_per_word) len k refl (omega arith) (omega arith) lt)
