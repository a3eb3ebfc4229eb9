-- ===== src/Bitmap/Runs.antt =====
-- `bitmap_find_set_bits`.
use native.Mathlib.Decide.{dec_lt}
use yjkos.Prelude.{
  ℕ, zero, suc, ◌+◌, ◌-◌, ◌*◌, ◌≤◌, ◌<◌, ◌≡◌, inl, inr, refl, ap, false, Option, none, some, arith,
  leb, Bool-cases, if◌then◌else◌, length, pos,
}
use yjkos.Bitmap.{
  Bitmap, bits_per_word, bitmap_find_first_set_bit, bitmap_find_last_contiguous_bit, found_len,
  next_start, find_set_bits_loop, returned, bitmap_find_set_bits,
}
use yjkos.Bitmap.Find.{bitmap_find_first_set_bit-IsFirst, bitmap_find_last_contiguous_bit-IsRunEnd}
use yjkos.Bitmap.Spec.{bit, bit_count, bit-past, AreWords, IsFirst, IsRunEnd, IsRun, IsFirstRun}

-- a loop that has ended, with such a result
abbrev Finds : Bitmap → ℕ → ℕ → Option (Option ℕ) → Type 0
Finds words from minlen o = (r : Option ℕ) × (o ≡ some r) × IsFirstRun words from minlen r

-- A bitmap of fewer than 2 ^ 31 bits, and what the loop has found out from `from` on.
module _ (words : Bitmap) (minlen from : ℕ) (small : bit_count words < 2147483648)
    (some_len : 0 < minlen) where
  blocked_by_clear : (i : ℕ) → bit words i ≡ false → ¬ IsRun words i minlen
  blocked_by_clear i clear run = absurd (cc (run i (omega arith) (omega arith)))

  module _ {first : ℕ} (found : IsFirst (bit words) from (bit_count words) (some first)) where
    -- a run that ends before it is long enough holds no start
    short_by_end :
        {last : ℕ}
        → IsRunEnd (bit words) first (bit_count words) (some last)
        → last + 1 < first + minlen
        → (i : ℕ) → from ≤ i
        → i < last + 1
        → ¬ IsRun words i minlen
    short_by_end {last} run short i a b is = elim (dec_lt i first) [
      | yes early ↦ blocked_by_clear i (found.3 i a early) is
      | no late ↦ elim (dec_lt (last + 1) (bit_count words)) [
        | yes within ↦ absurd (cc (run.3 within, is (last + 1) (omega arith) (omega arith)))
        | no past ↦ absurd (
            cc (bit-past words (last + 1) (omega arith), is (last + 1) (omega arith) (omega arith)))
      ]
    ]

    found_len-run :
        {last : ℕ}
        → IsRunEnd (bit words) first (bit_count words) (some last)
        → found_len (some last) first ≡ last + 1 - first
    unfolding found_len
    found_len-run run = omega (arith, run.0, run.1)

    set_bits_step :
        (last : Option ℕ) (rest : Option (Option ℕ))
        → IsRunEnd (bit words) first (bit_count words) last
        → ((l : ℕ)
            → last ≡ some l
            → from ≤ l
            → l < bit_count words
            → Finds words (l + 1) minlen rest)
        → Finds words from minlen
            (if leb minlen (found_len last first) then some (some first) else rest)
    set_bits_step none rest run more = absurd (cc (run found.1, found.2))
    set_bits_step (some last) rest run more =
        rw (found_len-run run) (elim (Bool-cases (leb minlen (last + 1 - first))) [
          | inl long ↦ rw long (
            some first,
            refl,
            (
              found.0,
              λ j a b. run.2 j a (ground (arith, run.0)),
              λ i a b. blocked_by_clear i (found.3 i a b),
            ),
          )
          | inr short ↦
              let (r, e, after) = more last refl (omega (arith, found.0, run.0)) run.1 in
              rw short (r, e, later r (short_by_end run (ground (arith, run.0))) after)
        ])
      where
        later :
            (r : Option ℕ)
            → ((i : ℕ) → from ≤ i → i < last + 1 → ¬ IsRun words i minlen)
            → IsFirstRun words (last + 1) minlen r
            → IsFirstRun words from minlen r
        later none miss after = λ i a. elim (dec_lt i (last + 1)) [
          | yes early ↦ miss i a early
          | no late ↦ after i (omega arith)
        ]
        later (some i) miss (a, is, before) = (
          omega (arith, found.0, run.0),
          is,
          λ j b c. elim (dec_lt j (last + 1)) [
            | yes early ↦ miss j b early
            | no late ↦ before j (omega arith) c
          ],
        )

  all_clear : IsFirst (bit words) from (bit_count words) none → IsFirstRun words from minlen none
  all_clear miss i a = elim (dec_lt i (bit_count words)) [
    | yes within ↦ blocked_by_clear i (miss i a within)
    | no past ↦ blocked_by_clear i (bit-past words i (omega arith))
  ]

module _ (words : Bitmap) (fits : AreWords words) (minlen : ℕ)
    (small : bit_count words < 2147483648) (some_len : 0 < minlen) where
  find_set_bits_loop-Finds :
      (fuel from : ℕ)
      → bit_count words - from < fuel
      → Finds words from minlen (find_set_bits_loop fuel words from minlen)
  unfolding find_set_bits_loop next_start
  find_set_bits_loop-Finds zero from h = absurd (omega arith)
  find_set_bits_loop-Finds (suc fuel) from h =
      step (bitmap_find_first_set_bit words (pos from))
        (bitmap_find_first_set_bit-IsFirst words from small)
        (λ l a b. find_set_bits_loop-Finds fuel (l + 1) (omega arith))
    where
      step :
          (r : Option ℕ)
          → IsFirst (bit words) from (bit_count words) r
          → ((l : ℕ)
              → from ≤ l
              → l < bit_count words
              → Finds words (l + 1) minlen (find_set_bits_loop fuel words (l + 1) minlen))
          → Finds words from minlen (elim r [
            | none ↦ some none
            | some first ↦
                let last = bitmap_find_last_contiguous_bit words (pos first) in
                let rest = find_set_bits_loop fuel words (next_start last) minlen in
                if leb minlen (found_len last first) then some (some first) else rest
          ])
      step none miss more = (none, refl, all_clear words minlen from small some_len miss)
      step (some first) found more =
          set_bits_step words minlen from small some_len found
            (bitmap_find_last_contiguous_bit words (pos first))
            (find_set_bits_loop fuel words
              (next_start (bitmap_find_last_contiguous_bit words (pos first))) minlen)
            (bitmap_find_last_contiguous_bit-IsRunEnd words first fits)
            (λ l e a b. rw e (more l a b))

  -- For a minimum length that is not 0 and a bitmap of fewer than 2^31 bits, the unbounded loop of
  -- bitmap_find_set_bits ends within one round more than the bitmap has bits, and what it returns
  -- is the first place from the start on where that many set bits begin, and -1 exactly if there is
  -- none.
  pub bitmap_find_set_bits-IsFirstRun :
      (startpos : ℕ)
      → (result : Option ℕ) × (find_set_bits_loop
            (length words * bits_per_word + 1)
            words
            startpos
            minlen
          ≡ some result)
        × (bitmap_find_set_bits words (pos startpos) minlen ≡ result)
        × IsFirstRun words startpos minlen result
  unfolding bitmap_find_set_bits returned
  bitmap_find_set_bits-IsFirstRun startpos =
      let (r, e, found) =
        find_set_bits_loop-Finds (length words * bits_per_word + 1) startpos (omega arith) in
      (r, e, ap returned e, found)

  -- the same of the result alone
  pub first_run :
      (startpos : ℕ)
      → IsFirstRun words startpos minlen (bitmap_find_set_bits words (pos startpos) minlen)
  first_run startpos =
      let (r, e, same, found) = bitmap_find_set_bits-IsFirstRun startpos in rw same found
