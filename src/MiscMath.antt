-- ===== src/MiscMath.antt =====
-- kernel/lib/miscmath.c. `none` is a failed assertion. A pointer is its address, so
-- `is_ptr_aligned`, `align_ptr_up` and `align_ptr_down` are the functions on sizes.
pub mod Align
pub mod Bytes
mod Tests
use Prim.Native.Nat.{bit_or}
use yjkos.Prelude.{
  ℕ, ◌+◌, ◌-◌, ◌/◌, ◌%◌, ◌^◌, Bool, Option, none, some, List, ltb, ◌==◌, if◌then◌else◌, get_or,
}
use yjkos.Bits.{word_mod, shl}

-- `WILL_ADD_OVERFLOW`, at `size_t`
unfoldable pub will_add_overflow : ℕ → ℕ → ℕ → Bool
will_add_overflow base offset max = ltb ((max + word_mod - base) % word_mod) offset

unfoldable pub is_aligned : ℕ → ℕ → Option Bool
is_aligned x align = if align == 0 then none else some (x % align == 0)

unfoldable pub align_up : ℕ → ℕ → Option ℕ
align_up x align =
    if align == 0
    then none
    else if x % align == 0
    then some x
    else some ((x + (align - x % align)) % word_mod)

unfoldable pub align_down : ℕ → ℕ → Option ℕ
align_down x align = if align == 0 then none else some (x - x % align)

unfoldable pub size_to_blocks : ℕ → ℕ → Option ℕ
size_to_blocks size block_size =
    if block_size == 0
    then none
    else if size % block_size == 0
    then some (size / block_size)
    else some (size / block_size + 1)

-- The bytes from `ptr` on. `uint16_t` and `uint32_t` hold the whole result, if these are bytes.
unfoldable pub u16le_at : List ℕ → ℕ
u16le_at ptr = bit_or (shl (get_or ptr 1 0) 8) (get_or ptr 0 0) % 2 ^ 16

unfoldable pub u32le_at : List ℕ → ℕ
u32le_at ptr =
    bit_or
      (bit_or (bit_or (shl (get_or ptr 3 0) 24 % word_mod) (shl (get_or ptr 2 0) 16 % word_mod))
        (shl (get_or ptr 1 0) 8 % word_mod))
      (get_or ptr 0 0)
