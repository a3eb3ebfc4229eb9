-- ===== src/Bitmap/Find.antt =====
-- The searches through the words of a bitmap.
use native.Mathlib.Decide.{dec_lt}
use Prim.Native.Nat.{bit_and}
use yjkos.Prelude.{
  ℕ, zero, suc, ◌+◌, ◌-◌, ◌*◌, ◌/◌, ◌%◌, ◌≤◌, ◌<◌, ◌≡◌, ◌≢◌, inl, inr, refl, ap, ◌∙◌, ◌^◌, Bool,
  true, false, not, ◌&&◌, ◌||◌, Option, none, some, arith, ltb, leb, ◌==◌, Bool-cases,
  if◌then◌else◌, length, get_or, pos,
}
use yjkos.Bits.{test_bit}
use yjkos.Bits.Laws.{bit_and-one, test_bit-low}
use yjkos.Bitmap.{
  Bitmap, bits_per_word, find_first_in_word, find_last_contiguous_in_word, found_at,
  find_first_loop, bitmap_find_first_set_bit, find_last_contiguous_loop,
  bitmap_find_last_contiguous_bit,
}
use yjkos.Bitmap.Scan.{find_first_in_word-IsFirst, find_last_contiguous_in_word-IsRunEnd}
use yjkos.Bitmap.Spec.{bit, bit_count, bit-word, bit-within, AreWords, IsFirst, IsRunEnd}

module _ (words : Bitmap) (w off : ℕ) where
  -- What the search in word `w` says of the bitmap.
  word_hit :
      {idx : ℕ}
      → w < length words
      → IsFirst (test_bit (get_or words w 0)) off 32 (some idx)
      → IsFirst
          (bit words)
          (w * bits_per_word + off)
          (length words * bits_per_word)
          (some (w * bits_per_word + idx))
  word_hit {idx} lt (a, b, hit, before) = (
    omega arith,
    omega arith,
    rw (bit-word words w idx b) hit,
    λ j c d.
        rw (bit-within words w j (omega arith) (omega arith))
          (before (j - w * bits_per_word) (omega arith) (omega arith)),
  )

  word_miss_prefix :
      IsFirst (test_bit (get_or words w 0)) off 32 none
      → (j : ℕ) → w * bits_per_word + off ≤ j
      → j < (w + 1) * bits_per_word
      → bit words j ≡ false
  word_miss_prefix miss j a b =
      rw (bit-within words w j (omega arith) (omega arith))
        (miss (j - w * bits_per_word) (omega arith) (omega arith))

-- Nothing found before `mid`: the search goes on there.
IsFirst-later :
    {p : ℕ → Bool} {start mid : ℕ} (end : ℕ) (o : Option ℕ)
    → start ≤ mid
    → ((j : ℕ) → start ≤ j → j < mid → p j ≡ false)
    → IsFirst p mid end o
    → IsFirst p start end o
IsFirst-later {mid} end none le miss rest =
    λ j a b. elim (dec_lt j mid) [ yes early ↦ miss j a early | no late ↦ rest j (omega arith) b ]
IsFirst-later {mid} end (some i) le miss (a, b, hit, before) = (
  omega arith,
  b,
  hit,
  λ j c d. elim (dec_lt j mid) [ yes early ↦ miss j c early | no late ↦ before j (omega arith) d ],
)

found_at-within :
    (w idx : ℕ) → w * bits_per_word < 2147483648 → found_at w idx ≡ some (w * bits_per_word + idx)
unfolding found_at
found_at-within w idx h =
    let base : w * bits_per_word % 2 ^ 32 ≡ w * bits_per_word = omega arith in
    let positive : ltb (w * bits_per_word) 2147483648 ≡ true = ground arith in
    ap (λ b. if ltb b 2147483648 then some (b + idx) else none) base
    ∙ ap (λ b. if b then some (w * bits_per_word + idx) else none) positive

find_first_loop-IsFirst :
    (n : ℕ) (words : Bitmap) (w off : ℕ)
    → bit_count words < 2147483648
    → n ≡ length words - w
    → off < 32
    → IsFirst
        (bit words)
        (w * bits_per_word + off)
        (length words * bits_per_word)
        (find_first_loop n words w off)
unfolding find_first_loop
find_first_loop-IsFirst zero words w off small e o = λ j a b. absurd (omega arith)
find_first_loop-IsFirst (suc n) words w off small e o =
    step (find_first_in_word (get_or words w 0) off)
      (find_first_in_word-IsFirst (get_or words w 0) off)
      (find_first_loop-IsFirst n words (w + 1) 0 small (omega arith) (omega arith))
  where
    step :
        (r : Option ℕ)
        → IsFirst (test_bit (get_or words w 0)) off 32 r
        → IsFirst
            (bit words)
            ((w + 1) * bits_per_word + 0)
            (length words * bits_per_word)
            (find_first_loop n words (w + 1) 0)
        → IsFirst
            (bit words)
            (w * bits_per_word + off)
            (length words * bits_per_word)
            (elim r [ some idx ↦ found_at w idx | none ↦ find_first_loop n words (w + 1) 0 ])
    step (some idx) found rest =
        rw (found_at-within w idx (omega arith)) (word_hit words w off (omega arith) found)
    step none miss rest =
        IsFirst-later _ (find_first_loop n words (w + 1) 0) (omega arith)
          (λ j a b. word_miss_prefix words w off miss j a (omega arith)) rest

-- For a bitmap of fewer than 2^31 bits, bitmap_find_first_set_bit returns the first set bit from
-- the start on, and a negative number exactly if there is none.
pub bitmap_find_first_set_bit-IsFirst :
    (words : Bitmap) (startpos : ℕ)
    → bit_count words < 2147483648
    → IsFirst
        (bit words)
        startpos
        (bit_count words)
        (bitmap_find_first_set_bit words (pos startpos))
unfolding bitmap_find_first_set_bit
bitmap_find_first_set_bit-IsFirst words startpos small =
    let split : startpos / bits_per_word * bits_per_word + startpos % bits_per_word ≡ startpos =
      omega arith in
    rw split at (
      find_first_loop-IsFirst (length words - startpos / bits_per_word) words
        (startpos / bits_per_word) (startpos % bits_per_word) small refl (omega arith))

-- What the end of a run in word `w` says of the bitmap.
module _ (words : Bitmap) (w off idx : ℕ)
    (run : IsRunEnd (test_bit (get_or words w 0)) off 32 (some idx)) where
  run_in_word :
      (j : ℕ) → w * bits_per_word + off ≤ j → j < w * bits_per_word + idx + 1 → bit words j ≡ true
  run_in_word j a b =
      rw (bit-within words w j (omega arith) (omega (arith, run.1)))
        (run.2 (j - w * bits_per_word) (omega arith) (omega arith))

  -- The run ends inside the word, or at its last bit.
  end_in_word : idx ≢ 31 → bit words (w * bits_per_word + idx + 1) ≡ false
  end_in_word ne =
      rw (bit-within words w (w * bits_per_word + idx + 1) (omega arith) (omega (arith, run.1))) (
        let e : w * bits_per_word + idx + 1 - w * bits_per_word ≡ idx + 1 = omega arith in
        rw e (run.3 (omega (arith, run.1))))

-- `words[i] & 1` is the first bit of word `i`.
low_bit-bit :
    (words : Bitmap) (i : ℕ)
    → (bit_and (get_or words i 0) 1 == 0) ≡ not (bit words (i * bits_per_word + 0))
low_bit-bit words i =
    rw (bit-word words i 0 (omega arith), bit_and-one) (test_bit-low (get_or words i 0))

-- the run so far starts at `s` and has reached word `w`
module _ (words : Bitmap) (w off s : ℕ) (lt : w < length words) (o : off < 32)
    (le : s ≤ w * bits_per_word + off)
    (h : (j : ℕ) → s ≤ j → j < w * bits_per_word + off → bit words j ≡ true) where
  module _ {idx : ℕ} (run : IsRunEnd (test_bit (get_or words w 0)) off 32 (some idx)) where
    run_so_far : (j : ℕ) → s ≤ j → j < w * bits_per_word + idx + 1 → bit words j ≡ true
    run_so_far j a b = elim (dec_lt j (w * bits_per_word + off)) [
      | yes early ↦ h j a early
      | no late ↦ run_in_word words w off idx run j (omega arith) b
    ]

    run_stops :
        (w * bits_per_word + idx + 1 < length words * bits_per_word
          → bit words (w * bits_per_word + idx + 1) ≡ false)
        → IsRunEnd (bit words) s (length words * bits_per_word) (some (w * bits_per_word + idx))
    run_stops next =
        (omega (arith, run.0), omega (arith, run.1), λ j a b. run_so_far j a (omega arith), next)

  run_step :
      (r rest : Option ℕ)
      → IsRunEnd (test_bit (get_or words w 0)) off 32 r
      → (s < w * bits_per_word + off → bit words (w * bits_per_word + off) ≡ true)
      → (((j : ℕ) → s ≤ j → j < (w + 1) * bits_per_word + 0 → bit words j ≡ true)
          → (w + 1 < length words
              → s < (w + 1) * bits_per_word + 0
              → bit words ((w + 1) * bits_per_word + 0) ≡ true)
          → IsRunEnd (bit words) s (length words * bits_per_word) rest)
      → IsRunEnd (bit words) s (length words * bits_per_word) (elim r [
        | none ↦ none
        | some idx ↦
            if not (idx == bits_per_word - 1)
              || (ltb (w + 1) (length words) && bit_and (get_or words (w + 1) 0) 1 == 0)
            then some (w * bits_per_word + idx)
            else rest
      ])
  run_step none rest miss cur more = λ c. elim (dec_lt s (w * bits_per_word + off)) [
    | yes begun ↦ absurd (cc (cur begun, bit-word words w off o, miss o))
    | no fresh ↦
        let same : s ≡ w * bits_per_word + off = omega arith in
        rw (same, bit-word words w off o) (miss o)
  ]
  run_step (some idx) rest run cur more = elim (Bool-cases (idx == bits_per_word - 1)) [
    | inr inside ↦ rw inside (run_stops run (λ c. end_in_word words w off idx run (ground arith)))
    | inl last ↦
        rw (last, low_bit-bit words (w + 1))
          (elim (Bool-cases
            (ltb (w + 1) (length words) && not (bit words ((w + 1) * bits_per_word + 0)))) [
              | inl ends ↦
                  let next : w * bits_per_word + idx + 1 ≡ (w + 1) * bits_per_word + 0 =
                    ground arith in
                  rw ends (run_stops run (λ c. rw next (ground arith)))
              | inr continues ↦
                  rw continues
                    (more (λ j a b. run_so_far run j a (ground arith)) (λ c d. ground arith))
            ])
  ]

find_last_contiguous_loop-IsRunEnd :
    (n : ℕ) (words : Bitmap) (w off s : ℕ)
    → AreWords words
    → n ≡ length words - w
    → off < 32
    → s < length words * bits_per_word
    → s ≤ w * bits_per_word + off
    → ((j : ℕ) → s ≤ j → j < w * bits_per_word + off → bit words j ≡ true)
    → (w < length words → s < w * bits_per_word + off → bit words (w * bits_per_word + off) ≡ true)
    → IsRunEnd
        (bit words)
        s
        (length words * bits_per_word)
        (find_last_contiguous_loop n words w off)
unfolding find_last_contiguous_loop
find_last_contiguous_loop-IsRunEnd zero words w off s fits e o lt le h cur =
    (omega arith, omega arith, λ j a b. h j a (omega arith), λ c. absurd (omega arith))
find_last_contiguous_loop-IsRunEnd (suc n) words w off s fits e o lt le h cur =
    run_step words w off s (omega arith) o le h
      (find_last_contiguous_in_word (get_or words w 0) off)
      (find_last_contiguous_loop n words (w + 1) 0)
      (find_last_contiguous_in_word-IsRunEnd (get_or words w 0) off (fits w)) (cur (omega arith))
      (find_last_contiguous_loop-IsRunEnd n words (w + 1) 0 s fits (omega arith) (omega arith) lt
        (omega arith))

-- bitmap_find_last_contiguous_bit returns the last bit of the run of set bits at the start, across
-- words, and -1 only if the start's bit is not set.
pub bitmap_find_last_contiguous_bit-IsRunEnd :
    (words : Bitmap) (startpos : ℕ)
    → AreWords words
    → IsRunEnd
        (bit words)
        startpos
        (bit_count words)
        (bitmap_find_last_contiguous_bit words (pos startpos))
unfolding bitmap_find_last_contiguous_bit
bitmap_find_last_contiguous_bit-IsRunEnd words startpos fits =
    elim (Bool-cases (leb (length words) (startpos / bits_per_word))) [
      | inl past ↦ rw past (λ c. absurd (ground arith))
      | inr within ↦ rw within (
          find_last_contiguous_loop-IsRunEnd (length words - startpos / bits_per_word) words
            (startpos / bits_per_word) (startpos % bits_per_word) startpos fits refl (omega arith)
            (ground arith) (omega arith) (λ j a b. absurd (omega arith))
            (λ c d. absurd (omega arith)))
    ]
