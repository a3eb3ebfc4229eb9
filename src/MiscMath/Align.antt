-- ===== src/MiscMath/Align.antt =====
-- The alignment functions of kernel/lib/miscmath.c against what they are for.
use yjkos.Prelude.{
  ℕ, ◌+◌, ◌-◌, ◌*◌, ◌/◌, ◌%◌, ◌≤◌, ◌<◌, ◌≡◌, ◌≢◌, refl, sym, ap, ◌∙◌, true, false, some, arith, ltb,
  ◌==◌,
}
use native.Mathlib.Decide.{dec_lt, ℕ_discrete}
use native.Mathlib.Nat.{
  mod-eq_of_lt, mod-lt, div-add-mod, mul-mod_right, mul-add-mod_self_left, mod_self,
}
use yjkos.Bits.{word_mod}
use yjkos.MiscMath.{will_add_overflow, align_up, align_down, size_to_blocks}

-- `y` is the smallest multiple of `align` that is not below `x`.
pub record IsRoundedUp (x align y : ℕ) : Type 0 where
  multiple : y % align ≡ 0
  not_below : x ≤ y
  smallest : (z : ℕ) → z % align ≡ 0 → x ≤ z → y ≤ z

-- `y` is the largest multiple of `align` that is not above `x`.
pub record IsRoundedDown (x align y : ℕ) : Type 0 where
  multiple : y % align ≡ 0
  not_above : y ≤ x
  largest : (z : ℕ) → z % align ≡ 0 → z ≤ x → z ≤ y

quotient : (x align : ℕ) → x ≡ align * (x / align) + x % align
quotient x align = sym (div-add-mod x align)

-- For a base that is at most the maximum, and a maximum below 2^32, WILL_ADD_OVERFLOW says whether
-- base plus offset exceeds the maximum.
pub will_add_overflow-add :
    (base offset max : ℕ)
    → base ≤ max
    → max < word_mod
    → will_add_overflow base offset max ≡ ltb max (base + offset)
unfolding will_add_overflow
will_add_overflow-add base offset max le lt = ground arith

mul_mono : (a b c : ℕ) → b ≤ c → a * b ≤ a * c
mul_mono a b c h = grind arith

next-le :
    (x z align : ℕ)
    → 0 < align
    → z % align ≡ 0
    → x % align ≢ 0
    → x ≤ z
    → align * (x / align) + align ≤ z
next-le x z align some_align h out le = elim (dec_lt (x / align) (z / align)) [
  | yes p ↦
      omega (arith, quotient z align, mul_mono align (x / align + 1) (z / align) (omega arith))
  | no p ↦ absurd (
      omega (
        arith,
        quotient z align,
        quotient x align,
        mul_mono align (z / align) (x / align) (omega arith),
      ))
]

-- align_up gives the smallest multiple of the alignment that is not below the argument, where the
-- alignment is not 0 and the sum of both is at most 2^32.
pub align_up-IsRoundedUp :
    (x align : ℕ)
    → 0 < align
    → x + align ≤ word_mod
    → (y : ℕ) × (align_up x align ≡ some y) × IsRoundedUp x align y
unfolding align_up
align_up-IsRoundedUp x align some_align fits =
    let given : (align == 0) ≡ false = ground arith in
    let low = mod-lt x some_align in
    elim (ℕ_discrete (x % align) 0) [
      | yes exact ↦
          let aligned : (x % align == 0) ≡ true = ground arith in
          (
            x,
            rw (given, aligned) refl,
            record { multiple = exact; not_below = omega arith; smallest = λ z m le. le },
          )
      | no out ↦
          let aligned : (x % align == 0) ≡ false = ground arith in
          let small : (x + (align - x % align)) % word_mod ≡ x + (align - x % align) =
            mod-eq_of_lt (omega arith) in
          let whole : x + (align - x % align) ≡ align * (x / align) + align =
            omega (arith, quotient x align) in
          (
            x + (align - x % align),
            rw (given, aligned, small) refl,
            record {
              multiple =
                  ap (λ t. t % align) whole
                  ∙ mul-add-mod_self_left align (x / align) align
                  ∙ mod_self align;
              not_below = omega arith;
              smallest = λ z m le. omega (arith, next-le x z align some_align m out le);
            },
          )
    ]

-- align_down gives the largest multiple of the alignment, which is not 0, that is not above the
-- argument.
pub align_down-IsRoundedDown :
    (x align : ℕ) → 0 < align → (y : ℕ) × (align_down x align ≡ some y) × IsRoundedDown x align y
unfolding align_down
align_down-IsRoundedDown x align some_align =
    let given : (align == 0) ≡ false = ground arith in
    let whole : x - x % align ≡ align * (x / align) = omega (arith, quotient x align) in
    (
      x - x % align,
      rw given refl,
      record {
        multiple = ap (λ t. t % align) whole ∙ mul-mod_right align (x / align);
        not_above = omega arith;
        largest = λ z m le. elim (dec_lt (x / align) (z / align)) [
          | yes p ↦ absurd (
              omega (
                arith,
                quotient z align,
                quotient x align,
                mod-lt x some_align,
                mul_mono align (x / align + 1) (z / align) (omega arith),
              ))
          | no p ↦ omega (
            arith,
            quotient z align,
            quotient x align,
            mul_mono align (z / align) (x / align) (omega arith),
          )
        ];
      },
    )

-- size_to_blocks gives the smallest number of blocks, of a size that is not 0, that hold the size.
pub size_to_blocks-smallest :
    (size block_size : ℕ)
    → 0 < block_size
    → (n : ℕ) × (size_to_blocks size block_size ≡ some n)
      × (size ≤ block_size * n)
      × ((m : ℕ) → size ≤ block_size * m → n ≤ m)
unfolding size_to_blocks
size_to_blocks-smallest size block_size some_size =
    let given : (block_size == 0) ≡ false = ground arith in
    elim (ℕ_discrete (size % block_size) 0) [
      | yes exact ↦
          let whole : (size % block_size == 0) ≡ true = ground arith in
          (
            size / block_size,
            rw (given, whole) refl,
            omega (arith, quotient size block_size),
            λ m le. elim (dec_lt m (size / block_size)) [
              | yes p ↦ absurd (
                  omega (
                    arith,
                    quotient size block_size,
                    mul_mono block_size (m + 1) (size / block_size) (omega arith),
                  ))
              | no p ↦ omega arith
            ],
          )
      | no rest ↦
          let whole : (size % block_size == 0) ≡ false = ground arith in
          (
            size / block_size + 1,
            rw (given, whole) refl,
            omega (arith, quotient size block_size, mod-lt size some_size),
            λ m le. elim (dec_lt (size / block_size) m) [
              | yes p ↦ omega arith
              | no p ↦ absurd (
                  omega (
                    arith,
                    quotient size block_size,
                    mul_mono block_size m (size / block_size) (omega arith),
                  ))
            ],
          )
    ]
