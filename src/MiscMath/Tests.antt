-- ===== src/MiscMath/Tests.antt =====
-- Runs of kernel/lib/miscmath.c.
use yjkos.Prelude.{ℕ, ◌/◌, ◌%◌, ◌≡◌, List, [], ◌∷◌, arith}
use yjkos.MiscMath.{u32le_at}
use yjkos.MiscMath.Bytes.{u32le_at-bytes}

abbrev some_bytes : List ℕ
some_bytes = 1 ∷ 2 ∷ 3 ∷ 255 ∷ []

u32le_at-bytes_example :
    u32le_at (
      4278387201 % 256
      ∷ 4278387201 / 256 % 256
      ∷ 4278387201 / 65536 % 256
      ∷ 4278387201 / 16777216 % 256
      ∷ [])
    ≡ 4278387201
u32le_at-bytes_example = u32le_at-bytes 4278387201 (omega arith)
