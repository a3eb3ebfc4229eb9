-- ===== src/PathReader.antt =====
-- kernel/lib/pathreader.c, with `kstrchr` of kernel/lib/strutil.c. A string is the list of its
-- characters, without the one that ends it, and a pointer into it is what follows; the reader's
-- state is the path that remains; `name_buf` holds the name that was read last, which is a result
-- here.
pub mod Components
pub mod Next
mod Tests
use yjkos.Prelude.{
  ℕ, zero, suc, ◌+◌, Bool, true, false, Option, none, some, List, [], ◌∷◌, ltb, ◌==◌, if◌then◌else◌,
  length, take, drop, Errno, enoent, enametoolong, ◌⊎◌, inl, inr,
}

abbrev pub slash : ℕ
slash = 47

abbrev pub name_max : ℕ
name_max = 255

-- The index of the first `c` in the string, its end included; `none` is the null pointer.
unfoldable pub kstrchr : List ℕ → ℕ → Option ℕ
kstrchr [] c = if c == 0 then some 0 else none
kstrchr (x ∷ s) c =
    let rest = kstrchr s c in
    if x == c then some 0 else elim rest [ none ↦ none | some i ↦ some (suc i) ]

abbrev pub Next : Type 0
Next = Errno ⊎ (List ℕ × List ℕ)

-- what a round of the loop does with a name and the path after it
unfoldable pub take_name : List ℕ → List ℕ → Next → Next
take_name [] remaining rest = rest
take_name (c ∷ name) remaining rest = inr (c ∷ name, remaining)

-- `pathreader_next`, with a round for each character: the error, or the name and what remains. Each
-- round takes a character at least.
unfoldable pub next_loop : ℕ → List ℕ → Next
next_loop zero path = inl enoent
next_loop (suc fuel) [] = inl enoent
next_loop (suc fuel) (c ∷ path) = elim (kstrchr (c ∷ path) slash) [
  | none ↦ take_name (c ∷ path) [] (next_loop fuel [])
  | some len ↦
      let rest = next_loop fuel (drop (suc len) (c ∷ path)) in
      if ltb name_max len
      then inl enametoolong
      else take_name (take len (c ∷ path)) (drop (suc len) (c ∷ path)) rest
]

unfoldable pub pathreader_next : List ℕ → Next
pathreader_next path = next_loop (length path) path
