-- ===== src/Bits/Laws.antt =====
-- The digits of a shift, of the bitwise operations and of a mask.
use Prim.Native.Nat.{
  bit_and, bit_or, bit_xor, digits, bit_and-bitwise, bit_or-bitwise, bit_xor-bitwise, max, differ,
}
use native.Mathlib.Nat.{
  pow-succ', one-le-pow, div-add-mod, mod-lt, mod-eq_of_lt, mul-add-mod_self_left,
}
use yjkos.Prelude.{
  ℕ, zero, suc, ◌+◌, ◌-◌, ◌*◌, ◌/◌, ◌%◌, ◌^◌, ◌≤◌, ◌<◌, min, ◌≡◌, refl, sym, ap, true, false, ◌&&◌,
  ◌||◌, not, arith, ◌==◌, ltb,
}
use yjkos.Bits.{shr, shl, test_bit}

-- The three operations recur on a count that only has to be large enough: one law for all.
module _ (z : ℕ → ℕ) (f : ℕ → ℕ → ℕ) where
  digits_stable : (n m x y : ℕ) → x ≤ n → x ≤ m → digits z f n x y ≡ digits z f m x y
  digits_stable zero zero x y p q = refl
  digits_stable zero (suc m) zero y p q = refl
  digits_stable zero (suc m) (suc x) y p q = absurd (omega arith)
  digits_stable (suc n) zero zero y p q = refl
  digits_stable (suc n) zero (suc x) y p q = absurd (omega arith)
  digits_stable (suc n) (suc m) zero y p q = refl
  digits_stable (suc n) (suc m) (suc x) y p q =
      ap (λ t. t * 2 + f (suc x % 2) (y % 2))
        (digits_stable n m (suc x / 2) (y / 2) (omega arith) (omega arith))

pub bit_and_step : (x y : ℕ) → bit_and x y ≡ bit_and (x / 2) (y / 2) * 2 + min (x % 2) (y % 2)
bit_and_step zero y = omega (arith, bit_and-bitwise 0 y, bit_and-bitwise 0 (y / 2))
bit_and_step (suc x) y = omega (
  arith,
  bit_and-bitwise (suc x) y,
  bit_and-bitwise (suc x / 2) (y / 2),
  digits_stable (λ t. zero) min x (suc x / 2) (suc x / 2) (y / 2) (omega arith) (omega arith),
)

pub bit_or_step : (x y : ℕ) → bit_or x y ≡ bit_or (x / 2) (y / 2) * 2 + max (x % 2) (y % 2)
bit_or_step zero y = omega (arith, bit_or-bitwise 0 y, bit_or-bitwise 0 (y / 2))
bit_or_step (suc x) y = omega (
  arith,
  bit_or-bitwise (suc x) y,
  bit_or-bitwise (suc x / 2) (y / 2),
  digits_stable (λ t. t) max x (suc x / 2) (suc x / 2) (y / 2) (omega arith) (omega arith),
)

pub bit_xor_step : (x y : ℕ) → bit_xor x y ≡ bit_xor (x / 2) (y / 2) * 2 + differ (x % 2) (y % 2)
bit_xor_step zero y = omega (arith, bit_xor-bitwise 0 y, bit_xor-bitwise 0 (y / 2))
bit_xor_step (suc x) y = omega (
  arith,
  bit_xor-bitwise (suc x) y,
  bit_xor-bitwise (suc x / 2) (y / 2),
  digits_stable (λ t. t) differ x (suc x / 2) (suc x / 2) (y / 2) (omega arith) (omega arith),
)

-- The lowest digit and the rest of a number that is written `2 * q + r`.
module _ (q r : ℕ) (h : r < 2) where
  div_digit : (q * 2 + r) / 2 ≡ q
  div_digit = omega arith

  mod_digit : (q * 2 + r) % 2 ≡ r
  mod_digit = omega arith

pub test_bit-bit_and : (a b i : ℕ) → test_bit (bit_and a b) i ≡ (test_bit a i && test_bit b i)
unfolding test_bit
test_bit-bit_and a b zero = ground (arith, bit_and_step a b)
test_bit-bit_and a b (suc i) =
    rw (bit_and_step a b, div_digit (bit_and (a / 2) (b / 2)) (min (a % 2) (b % 2)) (omega arith))
      (test_bit-bit_and (a / 2) (b / 2) i)

pub test_bit-bit_or : (a b i : ℕ) → test_bit (bit_or a b) i ≡ (test_bit a i || test_bit b i)
unfolding test_bit
test_bit-bit_or a b zero = ground (arith, bit_or_step a b)
test_bit-bit_or a b (suc i) =
    rw (bit_or_step a b, div_digit (bit_or (a / 2) (b / 2)) (max (a % 2) (b % 2)) (omega arith))
      (test_bit-bit_or (a / 2) (b / 2) i)

differ-lt : (a b : ℕ) → a < 2 → b < 2 → differ a b < 2
differ-lt zero b p q = q
differ-lt (suc zero) zero p q = p
differ-lt (suc zero) (suc b) p q = omega arith
differ-lt (suc (suc a)) b p q = absurd (omega arith)

differ-one : (a : ℕ) → a < 2 → (differ a 1 == 1) ≡ not (a == 1)
differ-one zero p = refl
differ-one (suc zero) p = refl
differ-one (suc (suc a)) p = absurd (omega arith)

differ-zero : (a : ℕ) → differ a 0 ≡ a
differ-zero zero = refl
differ-zero (suc a) = refl

-- Exclusive or with a number whose digit is 1 complements the digit.
pub test_bit-bit_xor :
    (a b i : ℕ) → test_bit b i ≡ true → test_bit (bit_xor a b) i ≡ not (test_bit a i)
unfolding test_bit
test_bit-bit_xor a b zero h =
    let one : b % 2 ≡ 1 = ground arith in
    rw
      (
        bit_xor_step a b,
        mod_digit (bit_xor (a / 2) (b / 2)) (differ (a % 2) (b % 2))
            (differ-lt (a % 2) (b % 2) (omega arith) (omega arith)),
        one,
      )
      (differ-one (a % 2) (omega arith))
test_bit-bit_xor a b (suc i) h =
    rw
      (
        bit_xor_step a b,
        div_digit (bit_xor (a / 2) (b / 2)) (differ (a % 2) (b % 2))
            (differ-lt (a % 2) (b % 2) (omega arith) (omega arith)),
      )
      (test_bit-bit_xor (a / 2) (b / 2) i h)

pub test_bit-shr : (x k i : ℕ) → test_bit (shr x k) i ≡ test_bit x (k + i)
unfolding shr test_bit
test_bit-shr x zero i = let e : 0 + i ≡ i = omega arith in rw e
test_bit-shr x (suc k) i =
    let e : suc k + i ≡ suc (k + i) = omega arith in rw e (test_bit-shr (x / 2) k i)

pub test_bit-shl_below : (x k i : ℕ) → i < k → test_bit (shl x k) i ≡ false
unfolding shl test_bit
test_bit-shl_below x zero i h = absurd (omega arith)
test_bit-shl_below x (suc k) zero h = ground arith
test_bit-shl_below x (suc k) (suc i) h =
    let half : 2 * shl x k / 2 ≡ shl x k = omega arith in
    rw half (test_bit-shl_below x k i (omega arith))

pub test_bit-shl : (x k i : ℕ) → test_bit (shl x k) (k + i) ≡ test_bit x i
unfolding shl test_bit
test_bit-shl x zero i = let e : 0 + i ≡ i = omega arith in rw e
test_bit-shl x (suc k) i =
    let shift : suc k + i ≡ suc (k + i) = omega arith in
    let half : 2 * shl x k / 2 ≡ shl x k = omega arith in
    let next : test_bit (2 * shl x k / 2) (k + i) ≡ test_bit x i = rw half (test_bit-shl x k i) in
    rw shift next

module _ (x m : ℕ) (h : 0 < m) where
  half-mod : x % (2 * m) / 2 ≡ x / 2 % m
  half-mod =
      let split : 2 * m * (x / (2 * m)) + x % (2 * m) ≡ x = div-add-mod x (2 * m) in
      let below : x % (2 * m) < 2 * m = mod-lt x (omega arith) in
      let half : x / 2 ≡ m * (x / (2 * m)) + x % (2 * m) / 2 = omega arith in
      let small : x % (2 * m) / 2 < m = omega arith in
      rw (half, mul-add-mod_self_left) (sym (mod-eq_of_lt small))

  parity-mod : x % (2 * m) % 2 ≡ x % 2
  parity-mod =
      let split : 2 * m * (x / (2 * m)) + x % (2 * m) ≡ x = div-add-mod x (2 * m) in omega arith

pow_two-pos : (n : ℕ) → 0 < 2 ^ n
pow_two-pos n = one-le-pow n 2 (omega arith)

-- Cutting a number to `n` digits keeps those.
pub test_bit-mod : (x n i : ℕ) → i < n → test_bit (x % 2 ^ n) i ≡ test_bit x i
unfolding test_bit
test_bit-mod x zero i h = absurd (omega arith)
test_bit-mod x (suc n) zero h = rw (pow-succ', parity-mod x (2 ^ n) (pow_two-pos n))
test_bit-mod x (suc n) (suc i) h =
    rw (pow-succ', half-mod x (2 ^ n) (pow_two-pos n)) (test_bit-mod (x / 2) n i (omega arith))

pub test_bit-zero : (i : ℕ) → test_bit 0 i ≡ false
unfolding test_bit
test_bit-zero zero = refl
test_bit-zero (suc i) = test_bit-zero i

pub test_bit-ones : (n i : ℕ) → test_bit (2 ^ n - 1) i ≡ ltb i n
unfolding test_bit
test_bit-ones zero i = rw (test_bit-zero i) (ground arith)
test_bit-ones (suc n) zero = ground (arith, pow-succ' 2 n, pow_two-pos n)
test_bit-ones (suc n) (suc i) =
    let half : (2 ^ suc n - 1) / 2 ≡ 2 ^ n - 1 = omega (arith, pow-succ' 2 n, pow_two-pos n) in
    rw half (ground (arith, test_bit-ones n i))

-- Numbers of `n` digits are equal if their digits are.
pub test_bit-injective :
    (n x y : ℕ) → x < 2 ^ n → y < 2 ^ n → ((i : ℕ) → i < n → test_bit x i ≡ test_bit y i) → x ≡ y
unfolding test_bit
test_bit-injective zero x y p q h = omega arith
test_bit-injective (suc n) x y p q h =
    let high : x / 2 ≡ y / 2 =
      (test_bit-injective n (x / 2) (y / 2) (omega (arith, pow-succ' 2 n))
        (omega (arith, pow-succ' 2 n)) (λ i lt. h (suc i) (omega arith))) in
    ground (arith, h 0)

bit_and-zero_upto : (n a : ℕ) → a ≤ n → bit_and a 0 ≡ 0
bit_and-zero_upto n zero h = omega (arith, bit_and-bitwise 0 0)
bit_and-zero_upto zero (suc a) h = absurd (omega arith)
bit_and-zero_upto (suc n) (suc a) h =
    omega (arith, bit_and_step (suc a) 0, bit_and-zero_upto n (suc a / 2) (omega arith))

pub bit_and-one : (a : ℕ) → bit_and a 1 ≡ a % 2
bit_and-one a = omega (arith, bit_and_step a 1, bit_and-zero_upto a (a / 2) (omega arith))

-- The test `(x & 1) == 0` of the lowest digit of `x >> k`.
pub low_bit-shr : (x k : ℕ) → (bit_and (shr x k) 1 == 0) ≡ not (test_bit x k)
unfolding test_bit
low_bit-shr x k =
    let e : k + 0 ≡ k = omega arith in
    let low : test_bit (shr x k) 0 ≡ test_bit x (k + 0) = test_bit-shr x k 0 in
    rw (← e, ← low, bit_and-one) (ground arith)

pub shr-suc : (x k : ℕ) → shr x k / 2 ≡ shr x (suc k)
unfolding shr
shr-suc x zero = refl
shr-suc x (suc k) = shr-suc (x / 2) k

-- A number of `n` digits has no digit 1 above them.
pub test_bit-above : (n x i : ℕ) → x < 2 ^ n → n ≤ i → test_bit x i ≡ false
unfolding test_bit
test_bit-above zero x i h le = let e : x ≡ 0 = omega arith in rw e (test_bit-zero i)
test_bit-above (suc n) x zero h le = absurd (omega arith)
test_bit-above (suc n) x (suc i) h le =
    test_bit-above n (x / 2) i (omega (arith, pow-succ' 2 n)) (omega arith)

pub test_bit-low : (x : ℕ) → (x % 2 == 0) ≡ not (test_bit x 0)
unfolding test_bit
test_bit-low x = ground arith

bit_and-le_upto : (n a b : ℕ) → a ≤ n → bit_and a b ≤ b
bit_and-le_upto n zero b h = omega (arith, bit_and-bitwise 0 b)
bit_and-le_upto zero (suc a) b h = absurd (omega arith)
bit_and-le_upto (suc n) (suc a) b h =
    omega (arith, bit_and_step (suc a) b, bit_and-le_upto n (suc a / 2) (b / 2) (omega arith))

pub bit_and-le : (a b : ℕ) → bit_and a b ≤ b
bit_and-le a b = bit_and-le_upto a a b (omega arith)

bit_and-le_left_upto : (n a b : ℕ) → a ≤ n → bit_and a b ≤ a
bit_and-le_left_upto n zero b h = omega (arith, bit_and-bitwise 0 b)
bit_and-le_left_upto zero (suc a) b h = absurd (omega arith)
bit_and-le_left_upto (suc n) (suc a) b h =
    omega (arith, bit_and_step (suc a) b, bit_and-le_left_upto n (suc a / 2) (b / 2) (omega arith))

pub bit_and-le_left : (a b : ℕ) → bit_and a b ≤ a
bit_and-le_left a b = bit_and-le_left_upto a a b (omega arith)

pub bit_or-lt : (n a b : ℕ) → a < 2 ^ n → b < 2 ^ n → bit_or a b < 2 ^ n
bit_or-lt zero zero b h k = omega (arith, bit_or-bitwise 0 b)
bit_or-lt zero (suc a) b h k = absurd (omega arith)
bit_or-lt (suc n) a b h k = omega (
  arith,
  bit_or_step a b,
  pow-succ' 2 n,
  bit_or-lt n (a / 2) (b / 2) (omega (arith, pow-succ' 2 n)) (omega (arith, pow-succ' 2 n)),
)

pub shl-mul : (x k : ℕ) → shl x k ≡ x * 2 ^ k
unfolding shl
shl-mul x zero = omega arith
shl-mul x (suc k) = omega (arith, shl-mul x k, ap (λ (t : ℕ). x * t) (pow-succ' 2 k))

pub shl_one-lt : (n k : ℕ) → k < n → shl 1 k < 2 ^ n
unfolding shl
shl_one-lt zero k h = absurd (omega arith)
shl_one-lt (suc n) zero h = omega (arith, pow-succ' 2 n, pow_two-pos n)
shl_one-lt (suc n) (suc k) h = omega (arith, pow-succ' 2 n, shl_one-lt n k (omega arith))
