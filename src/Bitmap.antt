-- ===== src/Bitmap.antt =====
-- kernel/lib/bitmap.c. A bitmap is the array that `words` points at, of `word_count` words; it has
-- fewer than 2 ^ 31 bits, so that the index of a bit is a `long`. The -1 of the searches is `none`.
pub mod Spec
pub mod Scan
pub mod Find
pub mod Runs
pub mod Range
pub mod Query
pub mod Single
mod Tests
use Prim.Native.Nat.{bit_and, bit_or, bit_xor}
use yjkos.Prelude.{
  ℕ, zero, suc, ◌+◌, ◌-◌, ◌*◌, ◌/◌, ◌%◌, ◌^◌, Bool, true, false, ◌&&◌, ◌||◌, not, Option, none,
  some, List, [], ◌∷◌, ℤ, pos, negsuc, ltb, leb, ◌==◌, if◌then◌else◌, length, get_or, set,
}
use yjkos.Bits.{word_mod, shr, shl, test_bit}
use yjkos.MiscMath.{size_to_blocks}

abbrev pub bits_per_word : ℕ
bits_per_word = 32

abbrev pub word_all_ones : ℕ
word_all_ones = 2 ^ 32 - 1

-- `struct bitmap`
abbrev pub Bitmap : Type 0
Bitmap = List ℕ

-- The loop of `findfirstsetbit`: it ends at the word's last digit, so 32 rounds are enough.
unfoldable pub skip_zeros : ℕ → ℕ → ℕ → Option ℕ
skip_zeros zero shifted index = none
skip_zeros (suc fuel) shifted index =
    let rest = skip_zeros fuel (shifted / 2) (index + 1) in
    if bit_and shifted 1 == 0
    then (if index == bits_per_word - 1 then none else rest)
    else some index

unfoldable pub find_first_in_word : ℕ → ℕ → Option ℕ
find_first_in_word word startpos =
    if leb bits_per_word startpos
    then none
    else (let shifted = shr word startpos in
        if shifted == 0 then none else skip_zeros 32 shifted startpos)

-- The loop of `findlastcontiguousbit`: a word has at most 32 ones, so 33 rounds are enough.
unfoldable pub skip_ones : ℕ → ℕ → ℕ → ℕ
skip_ones zero shifted index = index
skip_ones (suc fuel) shifted index =
    let rest = skip_ones fuel (shifted / 2) (index + 1) in
    if bit_and shifted 1 == 0 then index else rest

unfoldable pub find_last_contiguous_in_word : ℕ → ℕ → Option ℕ
find_last_contiguous_in_word word startpos =
    if leb bits_per_word startpos
    then none
    else if word == word_all_ones
    then some (bits_per_word - 1)
    else (let shifted = shr word startpos in
        if bit_and shifted 1 == 0 then none else some (skip_ones 33 shifted startpos - 1))

unfoldable pub make_bitmask : ℕ → ℕ → ℕ
make_bitmask offset len =
    if len == 0 then 0 else shl (shr word_all_ones (bits_per_word - len)) offset % word_mod

unfoldable pub bitmap_needed_word_count : ℕ → Option ℕ
bitmap_needed_word_count bits = size_to_blocks bits bits_per_word

-- `(long)(word_idx * BITS_PER_WORD) + idx`, where `none` is a negative number.
unfoldable pub found_at : ℕ → ℕ → Option ℕ
found_at word_idx idx =
    let base = word_idx * bits_per_word % word_mod in
    if ltb base 2147483648 then some (base + idx) else none

-- The first argument is the number of rounds left, `word_count - word_idx`.
unfoldable pub find_first_loop : ℕ → Bitmap → ℕ → ℕ → Option ℕ
find_first_loop zero words word_idx bitoffset = none
find_first_loop (suc n) words word_idx bitoffset =
    elim (find_first_in_word (get_or words word_idx 0) bitoffset) [
      | some idx ↦ found_at word_idx idx
      | none ↦ find_first_loop n words (word_idx + 1) 0
    ]

unfoldable pub bitmap_find_first_set_bit : Bitmap → ℤ → Option ℕ
bitmap_find_first_set_bit words (negsuc n) = none
bitmap_find_first_set_bit words (pos startpos) =
    let start = startpos / bits_per_word in
    find_first_loop (length words - start) words start (startpos % bits_per_word)

-- The same with the end of a run; its results are the source's while a bitmap has fewer than 2 ^ 31
-- bits.
unfoldable pub find_last_contiguous_loop : ℕ → Bitmap → ℕ → ℕ → Option ℕ
find_last_contiguous_loop zero words word_idx bitoffset = some (length words * bits_per_word - 1)
find_last_contiguous_loop (suc n) words word_idx bitoffset =
    elim (find_last_contiguous_in_word (get_or words word_idx 0) bitoffset) [
      | none ↦ none
      | some idx ↦
          let rest = find_last_contiguous_loop n words (word_idx + 1) 0 in
          if not (idx == bits_per_word - 1)
            || (ltb (word_idx + 1) (length words) && bit_and (get_or words (word_idx + 1) 0) 1 == 0)
          then some (word_idx * bits_per_word + idx)
          else rest
    ]

unfoldable pub bitmap_find_last_contiguous_bit : Bitmap → ℤ → Option ℕ
bitmap_find_last_contiguous_bit words (negsuc n) = none
bitmap_find_last_contiguous_bit words (pos startpos) =
    let start = startpos / bits_per_word in
    if leb (length words) start
    then none
    else find_last_contiguous_loop (length words - start) words start (startpos % bits_per_word)

-- `last_bit_idx - first_bit_idx + 1` as a `size_t`; -1 is a possible last index of the search.
unfoldable pub found_len : Option ℕ → ℕ → ℕ
found_len none first = (word_mod - first) % word_mod
found_len (some last) first = (last + 1 + word_mod - first) % word_mod

-- `last_bit_idx + 1`
unfoldable pub next_start : Option ℕ → ℕ
next_start none = 0
next_start (some last) = last + 1

-- The unbounded loop of `bitmap_find_set_bits`, with one round more than there are bits: `none` if it
-- has not ended, and else what it returns.
unfoldable pub find_set_bits_loop : ℕ → Bitmap → ℕ → ℕ → Option (Option ℕ)
find_set_bits_loop zero words from minlen = none
find_set_bits_loop (suc fuel) words from minlen =
    elim (bitmap_find_first_set_bit words (pos from)) [
      | none ↦ some none
      | some first ↦
          let last = bitmap_find_last_contiguous_bit words (pos first) in
          let rest = find_set_bits_loop fuel words (next_start last) minlen in
          if leb minlen (found_len last first) then some (some first) else rest
    ]

-- what a loop that has ended returns
unfoldable pub returned : Option (Option ℕ) → Option ℕ
returned none = none
returned (some result) = result

unfoldable pub bitmap_find_set_bits : Bitmap → ℤ → ℕ → Option ℕ
bitmap_find_set_bits words (negsuc n) minlen = none
bitmap_find_set_bits words (pos startpos) minlen =
    returned (find_set_bits_loop (length words * bits_per_word + 1) words startpos minlen)

-- how many of the remaining bits lie in the word; the sum is of type `size_t`
unfoldable pub current_len : ℕ → ℕ → ℕ
current_len bitoffset remaining =
    if ltb bits_per_word ((bitoffset + remaining) % word_mod)
    then bits_per_word - bitoffset
    else remaining

unfoldable pub are_bits_set_loop : ℕ → Bitmap → ℕ → ℕ → ℕ → Bool
are_bits_set_loop zero words word_idx bitoffset remaining = remaining == 0
are_bits_set_loop (suc n) words word_idx bitoffset remaining =
    let word = get_or words word_idx 0 in
    let current = current_len bitoffset remaining in
    let mask = make_bitmask bitoffset current in
    let rest = are_bits_set_loop n words (word_idx + 1) 0 (remaining - current) in
    if remaining == 0
    then true
    else if word == 0
    then false
    else if bit_and word mask == mask
    then rest
    else false

unfoldable pub bitmap_are_bits_set : Bitmap → ℤ → ℕ → Bool
bitmap_are_bits_set words (negsuc n) len = false
bitmap_are_bits_set words (pos offset) len =
    let start = offset / bits_per_word in
    if len == 0
    then false
    else are_bits_set_loop (length words - start) words start (offset % bits_per_word) len

-- The loop that `bitmap_set_bits` and `bitmap_clear_bits` share, with what they do to a word under
-- a mask.
unfoldable pub update_loop : (ℕ → ℕ → ℕ) → ℕ → Bitmap → ℕ → ℕ → ℕ → Bitmap
update_loop f zero words word_idx bitoffset remaining = words
update_loop f (suc n) words word_idx bitoffset remaining =
    let current = current_len bitoffset remaining in
    let word = f (get_or words word_idx 0) (make_bitmask bitoffset current) in
    let rest = update_loop f n (set words word_idx word) (word_idx + 1) 0 (remaining - current) in
    if remaining == 0 then words else rest

-- `word & ~mask`
unfoldable pub bit_clear : ℕ → ℕ → ℕ
bit_clear word mask = bit_and word (bit_xor mask word_all_ones)

-- The offset is used as a `size_t` from the start: these two have no test for a negative one.
unfoldable pub bitmap_set_bits : Bitmap → ℕ → ℕ → Bitmap
bitmap_set_bits words offset len =
    let start = offset / bits_per_word in
    update_loop bit_or (length words - start) words start (offset % bits_per_word) len

unfoldable pub bitmap_clear_bits : Bitmap → ℕ → ℕ → Bitmap
bitmap_clear_bits words offset len =
    let start = offset / bits_per_word in
    update_loop bit_clear (length words - start) words start (offset % bits_per_word) len

-- An access to `words` at an index that may lie outside it: `none` is the stray access.
unfoldable pub word_at : Bitmap → ℕ → Option ℕ
word_at words i = if ltb i (length words) then some (get_or words i 0) else none

unfoldable pub one_bit : ℕ → ℕ
one_bit offset = shl 1 (offset % bits_per_word)

unfoldable pub bitmap_set_bit : Bitmap → ℤ → Option Bitmap
bitmap_set_bit words (negsuc n) = some words
bitmap_set_bit words (pos offset) =
    let i = offset / bits_per_word in
    if ltb (length words) i then some words else elim (word_at words i) [
      | none ↦ none
      | some word ↦ some (set words i (bit_or word (one_bit offset)))
    ]

unfoldable pub bitmap_clear_bit : Bitmap → ℤ → Option Bitmap
bitmap_clear_bit words (negsuc n) = some words
bitmap_clear_bit words (pos offset) =
    let i = offset / bits_per_word in
    if ltb (length words) i then some words else elim (word_at words i) [
      | none ↦ none
      | some word ↦ some (set words i (bit_clear word (one_bit offset)))
    ]

unfoldable pub bitmap_is_bit_set : Bitmap → ℤ → Option Bool
bitmap_is_bit_set words (negsuc n) = some false
bitmap_is_bit_set words (pos offset) =
    let i = offset / bits_per_word in
    if ltb (length words) i then some false else elim (word_at words i) [
      | none ↦ none
      | some word ↦ some (not (bit_and word (one_bit offset) == 0))
    ]
