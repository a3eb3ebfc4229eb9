-- ===== src/Bitmap/Spec.antt =====
-- What a search, and a bitmap as a sequence of bits, mean.
use yjkos.Prelude.{
  ℕ, ◌+◌, ◌-◌, ◌/◌, ◌%◌, ◌≤◌, ◌<◌, ◌≡◌, Bool, true, false, ◌&&◌, Option, none, some, ltb, leb,
  get_or, get_or-past, length, ◌*◌, arith,
}
use yjkos.Bits.{test_bit}
use yjkos.Bits.Laws.{test_bit-zero}
use yjkos.Bitmap.{Bitmap, bits_per_word}

-- bit `k` of a bitmap; one past the end is clear
unfoldable pub bit : Bitmap → ℕ → Bool
bit words k = test_bit (get_or words (k / bits_per_word) 0) (k % bits_per_word)

abbrev pub bit_count : Bitmap → ℕ
bit_count words = length words * bits_per_word

-- `start ≤ k < start + len`
abbrev pub in_range : ℕ → ℕ → ℕ → Bool
in_range start len k = leb start k && ltb k (start + len)

-- Every word fits its type.
abbrev pub AreWords : Bitmap → Type 0
AreWords words = (i : ℕ) → get_or words i 0 < 4294967296

module _ (p : ℕ → Bool) where
  -- the answer of a search for the first `true` in `[start, end)`
  abbrev pub IsFirst : ℕ → ℕ → Option ℕ → Type 0
  IsFirst start end none = (j : ℕ) → start ≤ j → j < end → p j ≡ false
  IsFirst start end (some i) =
      (start ≤ i) × (i < end) × (p i ≡ true) × ((j : ℕ) → start ≤ j → j < i → p j ≡ false)

  -- the answer of a search for the end of the run of `true` that starts at `start`
  abbrev pub IsRunEnd : ℕ → ℕ → Option ℕ → Type 0
  IsRunEnd start end none = start < end → p start ≡ false
  IsRunEnd start end (some i) =
      (start ≤ i)
      × (i < end)
      × ((j : ℕ) → start ≤ j → j ≤ i → p j ≡ true)
      × (i + 1 < end → p (i + 1) ≡ false)

-- The bits of a word are those of the bitmap from `i * 32` on.
pub bit-word :
    (words : Bitmap) (i j : ℕ)
    → j < bits_per_word
    → bit words (i * bits_per_word + j) ≡ test_bit (get_or words i 0) j
unfolding bit
bit-word words i j h =
    let quotient : (i * bits_per_word + j) / bits_per_word ≡ i = omega arith in
    let rest : (i * bits_per_word + j) % bits_per_word ≡ j = omega arith in rw (quotient, rest)

-- The same, from a bit's index.
pub bit-within :
    (words : Bitmap) (i k : ℕ)
    → i * bits_per_word ≤ k
    → k < i * bits_per_word + bits_per_word
    → bit words k ≡ test_bit (get_or words i 0) (k - i * bits_per_word)
unfolding bit
bit-within words i k a b =
    let quotient : k / bits_per_word ≡ i = omega arith in
    let rest : k % bits_per_word ≡ k - i * bits_per_word = omega arith in rw (quotient, rest)

-- There is no bit past the end.
pub bit-past : (words : Bitmap) (k : ℕ) → length words * bits_per_word ≤ k → bit words k ≡ false
unfolding bit
bit-past words k h =
    rw (get_or-past words (k / bits_per_word) (omega arith)) (test_bit-zero (k % bits_per_word))

-- `len` set bits from `start` on
abbrev pub IsRun : Bitmap → ℕ → ℕ → Type 0
IsRun words start len = (j : ℕ) → start ≤ j → j < start + len → bit words j ≡ true

-- the answer of a search for the first run of `len` bits that starts at `from` or later
abbrev pub IsFirstRun : Bitmap → ℕ → ℕ → Option ℕ → Type 0
IsFirstRun words from len none = (i : ℕ) → from ≤ i → ¬ IsRun words i len
IsFirstRun words from len (some i) =
    (from ≤ i) × IsRun words i len × ((i' : ℕ) → from ≤ i' → i' < i → ¬ IsRun words i' len)
