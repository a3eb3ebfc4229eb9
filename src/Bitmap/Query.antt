-- ===== src/Bitmap/Query.antt =====
-- `bitmap_are_bits_set`.
use native.Mathlib.Decide.{dec_lt, ℕ_discrete}
use native.Mathlib.Nat.{mod-lt}
use Prim.Native.Nat.{bit_and}
use yjkos.Prelude.{
  ℕ, zero, suc, ◌+◌, ◌-◌, ◌*◌, ◌/◌, ◌%◌, ◌^◌, ◌≤◌, ◌<◌, ◌≡◌, ◌≢◌, ◌↔◌, inl, inr, refl, sym, ap, ◌∙◌,
  true, arith, ◌==◌, Bool-cases, length, get_or, pos,
}
use yjkos.Bits.{shr, shl, test_bit}
use yjkos.Bits.Laws.{test_bit-bit_and, test_bit-injective, bit_and-le, test_bit-zero}
use yjkos.Bitmap.{
  Bitmap, bits_per_word, word_all_ones, make_bitmask, current_len, are_bits_set_loop,
  bitmap_are_bits_set,
}
use yjkos.Bitmap.Range.{make_bitmask-in_range, current_len_lem, part_fits}
use yjkos.Bitmap.Spec.{bit-word, bit-within, bit-past, IsRun}

make_bitmask-lt : (offset len : ℕ) → make_bitmask offset len < 2 ^ 32
unfolding make_bitmask
make_bitmask-lt offset len = elim (Bool-cases (len == 0)) [
  | inl e ↦ rw e (omega arith)
  | inr e ↦ rw e (mod-lt (shl (shr word_all_ones (bits_per_word - len)) offset) (omega arith))
]

-- The test `(word & mask) == mask` asks for each digit of the mask.
module _ (word offset len : ℕ) (fits : offset + len ≤ 32) where
  mask_digits :
      bit_and word (make_bitmask offset len) ≡ make_bitmask offset len
      → (j : ℕ) → offset ≤ j
      → j < offset + len
      → test_bit word j ≡ true
  mask_digits e j a b =
      let both = test_bit-bit_and word (make_bitmask offset len) j in
      let mask = make_bitmask-in_range offset len j fits (omega arith) in
      let same : test_bit (bit_and word (make_bitmask offset len)) j
          ≡ test_bit (make_bitmask offset len) j =
        rw e in
      ground arith

  digits_mask :
      ((j : ℕ) → offset ≤ j → j < offset + len → test_bit word j ≡ true)
      → bit_and word (make_bitmask offset len) ≡ make_bitmask offset len
  digits_mask all =
      test_bit-injective 32 (bit_and word (make_bitmask offset len)) (make_bitmask offset len)
        (omega (arith, bit_and-le word (make_bitmask offset len), make_bitmask-lt offset len))
        (make_bitmask-lt offset len)
        (λ j lt.
          let mask = make_bitmask-in_range offset len j fits lt in
          let both = test_bit-bit_and word (make_bitmask offset len) j in ground (arith, all j))

-- One round of the loop that is not the last.
module _ (words : Bitmap) (n w off remaining : ℕ) (more : remaining ≢ 0) where
  round_inv :
      are_bits_set_loop (suc n) words w off remaining ≡ true
      → (bit_and (get_or words w 0) (make_bitmask off (current_len off remaining))
          ≡ make_bitmask off (current_len off remaining))
        × (are_bits_set_loop n words (w + 1) 0 (remaining - current_len off remaining) ≡ true)
  unfolding are_bits_set_loop
  round_inv h = ground arith

  round_true :
      get_or words w 0 ≢ 0
      → bit_and (get_or words w 0) (make_bitmask off (current_len off remaining))
        ≡ make_bitmask off (current_len off remaining)
      → are_bits_set_loop n words (w + 1) 0 (remaining - current_len off remaining) ≡ true
      → are_bits_set_loop (suc n) words w off remaining ≡ true
  unfolding are_bits_set_loop
  round_true full e rest = ground arith

module _ (words : Bitmap) where
  are_bits_set_loop-IsRun :
      (n w off remaining : ℕ)
      → n ≡ length words - w
      → off < 32
      → off + remaining < 2 ^ 32
      → are_bits_set_loop n words w off remaining ≡ true
      → IsRun words (w * bits_per_word + off) remaining
  unfolding are_bits_set_loop
  are_bits_set_loop-IsRun zero w off remaining e o small h j a b = absurd (ground arith)
  are_bits_set_loop-IsRun (suc n) w off remaining e o small h j a b =
      let len = current_len_lem off remaining small in
      let (mask, rest) = round_inv words n w off remaining (omega arith) h in
      let fits = part_fits w off remaining (current_len off remaining) j o len in
      elim (dec_lt j ((w + 1) * bits_per_word)) [
        | yes here ↦ rw (bit-within words w j (omega arith) (omega arith)) (
            mask_digits (get_or words w 0) off (current_len off remaining) fits mask
              (j - w * bits_per_word) (omega arith) (ground arith))
        | no later ↦
            are_bits_set_loop-IsRun n (w + 1) 0 (remaining - current_len off remaining)
              (omega arith) (omega arith) (omega arith) rest j (omega arith) (ground arith)
      ]

  IsRun-are_bits_set_loop :
      (n w off remaining : ℕ)
      → n ≡ length words - w
      → off < 32
      → off + remaining < 2 ^ 32
      → IsRun words (w * bits_per_word + off) remaining
      → are_bits_set_loop n words w off remaining ≡ true
  unfolding are_bits_set_loop
  IsRun-are_bits_set_loop zero w off remaining e o small run = elim (Bool-cases (remaining == 0)) [
    | inl done ↦ done
    | inr more ↦ absurd (
        cc (
          run (w * bits_per_word + off) (omega arith) (ground arith),
          bit-past words (w * bits_per_word + off) (omega arith),
        ))
  ]
  IsRun-are_bits_set_loop (suc n) w off remaining e o small run = elim (ℕ_discrete remaining 0) [
    | yes done ↦ rw done
    | no more ↦
        let len = current_len_lem off remaining small in
        let fits = part_fits w off remaining (current_len off remaining) 0 o len in
        round_true words n w off remaining more
          (λ empty. absurd (
            cc (
              run (w * bits_per_word + off) (omega arith) (omega arith),
              bit-word words w off o,
              ap (λ t. test_bit t off) empty,
              test_bit-zero off,
            )))
          (digits_mask (get_or words w 0) off (current_len off remaining) fits (λ j a b.
            sym (bit-word words w j (omega arith))
            ∙ run (w * bits_per_word + j) (omega arith) (ground arith)))
          (IsRun-are_bits_set_loop n (w + 1) 0 (remaining - current_len off remaining) (omega arith)
            (omega arith) (omega arith) (λ j a b. run j (omega arith) (ground arith)))
  ]

-- bitmap_are_bits_set is true exactly if the range is not empty and all its bits are set, for a
-- length below 2^32 - 32.
pub bitmap_are_bits_set-IsRun :
    (words : Bitmap) (offset len : ℕ)
    → len < 2 ^ 32 - 32
    → (bitmap_are_bits_set words (pos offset) len ≡ true) ↔ ((len ≢ 0) × IsRun words offset len)
unfolding bitmap_are_bits_set
bitmap_are_bits_set-IsRun words offset len small =
    let split : offset / bits_per_word * bits_per_word + offset % bits_per_word ≡ offset =
      omega arith in
    let start = offset / bits_per_word in
    elim (Bool-cases (len == 0)) [
      | inl none_asked ↦ rw none_asked (λ h. absurd (cc), λ (ne, run). absurd (ground arith))
      | inr asked ↦ rw asked (
        λ h. (
          ground arith,
          rw split at (
              are_bits_set_loop-IsRun words (length words - start) start (offset % bits_per_word)
                len refl (omega arith) (omega arith) h),
        ),
        λ (ne, run).
            IsRun-are_bits_set_loop words (length words - start) start (offset % bits_per_word) len
              refl (omega arith) (omega arith) (rw split run),
      )
    ]
