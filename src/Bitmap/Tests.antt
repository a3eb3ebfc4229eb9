-- ===== src/Bitmap/Tests.antt =====
-- Runs of kernel/lib/bitmap.c on a bitmap of two words.
use yjkos.Prelude.{
  ℕ, zero, suc, ◌+◌, ◌*◌, ◌/◌, ◌≡◌, ◌≢◌, ◌↔◌, true, ◌&&◌, ◌||◌, not, Option, none, some, [], ◌∷◌,
  arith, pos, length,
}
use yjkos.Bitmap.{
  Bitmap, bits_per_word, bitmap_find_first_set_bit, find_set_bits_loop, bitmap_find_set_bits,
  bitmap_are_bits_set, bitmap_set_bits, bitmap_clear_bits, bitmap_set_bit, bitmap_clear_bit,
  bitmap_is_bit_set,
}
use yjkos.Bitmap.Find.{bitmap_find_first_set_bit-IsFirst}
use yjkos.Bitmap.Query.{bitmap_are_bits_set-IsRun}
use yjkos.Bitmap.Range.{bitmap_set_bits-bit, bitmap_clear_bits-bit}
use yjkos.Bitmap.Runs.{bitmap_find_set_bits-IsFirstRun}
use yjkos.Bitmap.Single.{bitmap_bit-stray}
use yjkos.Bitmap.Spec.{bit, bit_count, in_range, AreWords, IsFirst, IsRun, IsFirstRun}

-- the bits 2, 3 and 30 to 33
abbrev words : Bitmap
words = 3221225484 ∷ 3 ∷ []

words-AreWords : AreWords words
words-AreWords zero = omega arith
words-AreWords (suc zero) = omega arith
words-AreWords (suc (suc i)) = omega arith

bitmap_find_first_set_bit-IsFirst_example :
    IsFirst (bit words) 4 (bit_count words) (bitmap_find_first_set_bit words (pos 4))
bitmap_find_first_set_bit-IsFirst_example = bitmap_find_first_set_bit-IsFirst words 4 (omega arith)

bitmap_find_set_bits-IsFirstRun_example :
    (result : Option ℕ) × (find_set_bits_loop (length words * bits_per_word + 1) words 0 3
      ≡ some result)
    × (bitmap_find_set_bits words (pos 0) 3 ≡ result)
    × IsFirstRun words 0 3 result
bitmap_find_set_bits-IsFirstRun_example =
    bitmap_find_set_bits-IsFirstRun words words-AreWords 3 (omega arith) (omega arith) 0

abbrev four : ℕ
four = 4

bitmap_are_bits_set-IsRun_example :
    (bitmap_are_bits_set words (pos 30) four ≡ true) ↔ ((four ≢ 0) × IsRun words 30 four)
bitmap_are_bits_set-IsRun_example = bitmap_are_bits_set-IsRun words 30 4 (omega arith)

bitmap_set_bits-bit_example :
    bit (bitmap_set_bits words 28 10) 33 ≡ (bit words 33 || in_range 28 10 33)
bitmap_set_bits-bit_example = bitmap_set_bits-bit words 28 10 (omega arith) 33 (omega arith)

bitmap_clear_bits-bit_example :
    bit (bitmap_clear_bits words 28 10) 33 ≡ (bit words 33 && not (in_range 28 10 33))
bitmap_clear_bits-bit_example = bitmap_clear_bits-bit words 28 10 (omega arith) 33 (omega arith)

bitmap_bit-stray_example :
    ((bitmap_set_bit words (pos 64) ≡ none) ↔ (64 / bits_per_word ≡ length words))
    × ((bitmap_clear_bit words (pos 64) ≡ none) ↔ (64 / bits_per_word ≡ length words))
    × ((bitmap_is_bit_set words (pos 64) ≡ none) ↔ (64 / bits_per_word ≡ length words))
bitmap_bit-stray_example = bitmap_bit-stray words 64
