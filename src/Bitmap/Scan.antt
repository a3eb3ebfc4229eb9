-- ===== src/Bitmap/Scan.antt =====
-- The searches in one word.
use yjkos.Prelude.{
  ℕ, zero, suc, ◌+◌, ◌-◌, ◌/◌, ◌^◌, ◌≤◌, ◌<◌, ◌≡◌, inl, inr, Bool, true, false, some, arith, leb,
  ◌==◌, Bool-cases,
}
use native.Mathlib.Decide.{dec_lt}
use yjkos.Bits.{shr, test_bit}
use yjkos.Bits.Laws.{
  low_bit-shr, shr-suc, test_bit-shr, test_bit-zero, test_bit-ones, test_bit-above,
}
use yjkos.Bitmap.{
  bits_per_word, word_all_ones, skip_zeros, find_first_in_word, skip_ones,
  find_last_contiguous_in_word,
}
use yjkos.Bitmap.Spec.{IsFirst, IsRunEnd}

-- `shr-suc` for the next round of a loop
shr-next : (x k : ℕ) → shr x k / 2 ≡ shr x (k + 1)
shr-next x k = let e : k + 1 ≡ suc k = omega arith in rw e (shr-suc x k)

-- One more bit that is known.
extend_run :
    {p : ℕ → Bool} {v : Bool} {start index : ℕ}
    → ((j : ℕ) → start ≤ j → j < index → p j ≡ v)
    → p index ≡ v
    → (j : ℕ) → start ≤ j
    → j < index + 1
    → p j ≡ v
extend_run {p} {v} {start} {index} h e j a b = elim (dec_lt j index) [
  | yes below ↦ h j a below
  | no here ↦ let same : j ≡ index = omega arith in rw same e
]

skip_zeros-IsFirst :
    (fuel word start index : ℕ)
    → 32 ≤ index + fuel
    → index < 32
    → start ≤ index
    → ((j : ℕ) → start ≤ j → j < index → test_bit word j ≡ false)
    → IsFirst (test_bit word) start 32 (skip_zeros fuel (shr word index) index)
unfolding skip_zeros
skip_zeros-IsFirst zero word start index e f le h = absurd (omega arith)
skip_zeros-IsFirst (suc fuel) word start index e f le h =
    rw (low_bit-shr word index, shr-next word index)
      (elim (Bool-cases (test_bit word index)) [
        | inl hit ↦ rw hit (le, omega arith, hit, h)
        | inr miss ↦ rw miss (elim (Bool-cases (index == bits_per_word - 1)) [
          | inl last ↦ rw last (λ j a b. extend_run h miss j a (ground arith))
          | inr more ↦ rw more (
              skip_zeros-IsFirst fuel word start (index + 1) (omega arith) (ground arith)
                (omega arith) (extend_run h miss))
        ])
      ])

-- `findfirstsetbit` finds the first set bit of the word from `startpos` on.
pub find_first_in_word-IsFirst :
    (word start : ℕ) → IsFirst (test_bit word) start 32 (find_first_in_word word start)
unfolding find_first_in_word
find_first_in_word-IsFirst word start = elim (Bool-cases (leb bits_per_word start)) [
  | inl out ↦ rw out (λ j a b. absurd (ground arith))
  | inr within ↦ rw within (elim (Bool-cases (shr word start == 0)) [
    | inl empty ↦ rw empty (λ j a b. none_left j a (ground arith))
    | inr left ↦ rw left (
        skip_zeros-IsFirst 32 word start start (omega arith) (ground arith) (omega arith)
          (λ j a b. absurd (omega arith)))
  ])
]
  where
    none_left : (j : ℕ) → start ≤ j → shr word start ≡ 0 → test_bit word j ≡ false
    none_left j a e =
        let split : start + (j - start) ≡ j = omega arith in
        rw (← split, ← test_bit-shr word start (j - start), e) (test_bit-zero (j - start))

-- A digit 1 of a word of 32 digits lies below the end.
below_top : (word index : ℕ) → word < 2 ^ 32 → test_bit word index ≡ true → index < 32
below_top word index fits one = elim (dec_lt index 32) [
  | yes p ↦ p
  | no p ↦ absurd (cc (test_bit-above 32 word index fits (omega arith)))
]

-- The loop ends just past a run of ones, within a word of 32 digits.
skip_ones-run :
    (fuel word start index : ℕ)
    → 32 < index + fuel
    → index ≤ 32
    → start ≤ index
    → word < 2 ^ 32
    → test_bit word start ≡ true
    → ((j : ℕ) → start ≤ j → j < index → test_bit word j ≡ true)
    → IsRunEnd (test_bit word) start 32 (some (skip_ones fuel (shr word index) index - 1))
unfolding skip_ones
skip_ones-run zero word start index e f le fits hit h = absurd (omega arith)
skip_ones-run (suc fuel) word start index e f le fits hit h =
    rw (low_bit-shr word index, shr-next word index)
      (elim (Bool-cases (test_bit word index)) [
        | inl one ↦ rw one (
            skip_ones-run fuel word start (index + 1) (omega arith)
              (omega (arith, below_top word index fits one)) (omega arith) fits hit
              (extend_run h one))
        | inr here ↦
            let later : start < index = stopped here in
            let back : index - 1 + 1 ≡ index = omega arith in
            rw here (omega arith, omega arith, λ j a b. h j a (omega arith), λ lt. rw back here)
      ])
  where
    stopped : test_bit word index ≡ false → start < index
    stopped here = elim (dec_lt start index) [
      | yes p ↦ p
      | no p ↦ let same : start ≡ index = omega arith in absurd (cc)
    ]

-- `findlastcontiguousbit` finds the end of the run of ones at `startpos`.
pub find_last_contiguous_in_word-IsRunEnd :
    (word start : ℕ)
    → word < 2 ^ 32
    → IsRunEnd (test_bit word) start 32 (find_last_contiguous_in_word word start)
unfolding find_last_contiguous_in_word
find_last_contiguous_in_word-IsRunEnd word start fits =
    elim (Bool-cases (leb bits_per_word start)) [
      | inl out ↦ rw out (λ lt. absurd (ground arith))
      | inr within ↦ rw within (elim (Bool-cases (word == word_all_ones)) [
        | inl full ↦ rw full (
          ground arith,
          omega arith,
          λ j a b. all_ones j (ground arith) (omega arith),
          λ lt. absurd (omega arith),
        )
        | inr part ↦
            rw (part, low_bit-shr word start)
              (elim (Bool-cases (test_bit word start)) [
                | inl one ↦ rw one (
                    skip_ones-run 33 word start start (omega arith) (ground arith) (omega arith)
                      fits one (λ j a b. absurd (omega arith)))
                | inr no_run ↦ rw no_run (λ lt. no_run)
              ])
      ])
    ]
  where
    all_ones : (j : ℕ) → word ≡ 2 ^ 32 - 1 → j < 32 → test_bit word j ≡ true
    all_ones j e lt = rw (e, test_bit-ones 32 j) (ground arith)
