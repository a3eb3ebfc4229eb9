-- ===== src/MiscMath/Bytes.antt =====
-- The little-endian reads of kernel/lib/miscmath.c.
use Prim.Native.Nat.{bit_or}
use yjkos.Prelude.{
  ℕ, zero, suc, ◌+◌, ◌*◌, ◌/◌, ◌%◌, ◌^◌, ◌≤◌, ◌<◌, ◌≡◌, ap, ◌∙◌, List, [], ◌∷◌, arith, get_or,
}
use native.Mathlib.Nat.{mod-eq_of_lt, pow-succ'}
use yjkos.Bits.{word_mod, shl}
use yjkos.Bits.Laws.{bit_or_step, shl-mul}
use yjkos.MiscMath.{u16le_at, u32le_at}

bit_or-zero_upto : (n a : ℕ) → a ≤ n → bit_or a 0 ≡ a
bit_or-zero_upto zero a h = omega (
  arith,
  bit_or_step a 0,
  bit_or_step 0 0,
  ap (λ (t : ℕ). bit_or t 0) (let e : a ≡ 0 = omega arith in e),
)
bit_or-zero_upto (suc n) zero h = bit_or-zero_upto n 0 (omega arith)
bit_or-zero_upto (suc n) (suc a) h =
    omega (arith, bit_or_step (suc a) 0, bit_or-zero_upto n (suc a / 2) (omega arith))

-- Without a common digit, `|` adds.
bit_or-add : (k a b : ℕ) → b < 2 ^ k → bit_or (shl a k) b ≡ shl a k + b
unfolding shl
bit_or-add zero a b h =
    let e : b ≡ 0 = omega arith in rw e (bit_or-zero_upto a a (omega arith) ∙ omega arith)
bit_or-add (suc k) a b h = omega (
  arith,
  bit_or_step (2 * shl a k) b,
  ap (λ t. bit_or t (b / 2)) (half (shl a k)),
  bit_or-add k a (b / 2) (omega (arith, pow-succ' 2 k)),
)
  where
    half : (x : ℕ) → 2 * x / 2 ≡ x
    half x = omega arith

-- a byte
abbrev pub IsByte : ℕ → Type 0
IsByte b = b < 256

-- u16le_at of two bytes is their sum with the weights 1 and 2^8.
pub u16le_at-sum :
    (ptr : List ℕ)
    → IsByte (get_or ptr 0 0)
    → IsByte (get_or ptr 1 0)
    → u16le_at ptr ≡ get_or ptr 0 0 + 256 * get_or ptr 1 0
unfolding u16le_at
u16le_at-sum ptr b0 b1 =
    let high = shl-mul (get_or ptr 1 0) 8 in
    rw (bit_or-add 8 (get_or ptr 1 0) (get_or ptr 0 0) (omega arith))
      (mod-eq_of_lt (omega arith) ∙ omega arith)

-- u32le_at of four bytes is their sum with the weights 1, 2^8, 2^16 and 2^24.
pub u32le_at-sum :
    (ptr : List ℕ)
    → IsByte (get_or ptr 0 0)
    → IsByte (get_or ptr 1 0)
    → IsByte (get_or ptr 2 0)
    → IsByte (get_or ptr 3 0)
    → u32le_at ptr
      ≡ get_or ptr 0 0 + 256 * (get_or ptr 1 0 + 256 * (get_or ptr 2 0 + 256 * get_or ptr 3 0))
unfolding u32le_at
u32le_at-sum ptr byte0 byte1 byte2 byte3 =
    let b0 = get_or ptr 0 0 in
    let b1 = get_or ptr 1 0 in
    let b2 = get_or ptr 2 0 in
    let b3 = get_or ptr 3 0 in
    let m3 = shl-mul b3 24 in
    let m2 = shl-mul b2 16 in
    let m1 = shl-mul b1 8 in
    let cut3 : shl b3 24 % word_mod ≡ shl b3 24 = mod-eq_of_lt (omega arith) in
    let cut2 : shl b2 16 % word_mod ≡ shl b2 16 = mod-eq_of_lt (omega arith) in
    let cut1 : shl b1 8 % word_mod ≡ shl b1 8 = mod-eq_of_lt (omega arith) in
    let upper : shl b3 24 + shl b2 16 ≡ shl (b3 * 256 + b2) 16 =
      omega (arith, shl-mul (b3 * 256 + b2) 16) in
    let middle : shl (b3 * 256 + b2) 16 + shl b1 8 ≡ shl ((b3 * 256 + b2) * 256 + b1) 8 =
      omega (arith, shl-mul (b3 * 256 + b2) 16, shl-mul ((b3 * 256 + b2) * 256 + b1) 8) in
    rw
      (
        cut3,
        cut2,
        cut1,
        bit_or-add 24 b3 (shl b2 16) (omega arith),
        upper,
        bit_or-add 16 (b3 * 256 + b2) (shl b1 8) (omega arith),
        middle,
        bit_or-add 8 ((b3 * 256 + b2) * 256 + b1) b0 (omega arith),
      )
      (omega (arith, shl-mul ((b3 * 256 + b2) * 256 + b1) 8))

-- u32le_at reads a number below 2^32 back from its four bytes, the lowest first.
pub u32le_at-bytes :
    (n : ℕ)
    → n < word_mod
    → u32le_at (n % 256 ∷ n / 256 % 256 ∷ n / 65536 % 256 ∷ n / 16777216 % 256 ∷ []) ≡ n
u32le_at-bytes n h =
    u32le_at-sum _ (omega arith) (omega arith) (omega arith) (omega arith) ∙ omega arith
