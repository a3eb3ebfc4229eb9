-- ===== src/PathReader/Next.antt =====
-- `pathreader_next` reads the first name of a path.
use yjkos.Prelude.{
  sym, ◌++◌, append_assoc, ℕ, zero, suc, ◌≤◌, ◌<◌, ◌≡◌, refl, ap, ◌∙◌, Bool-cases, Option, none,
  some, List, [], ◌∷◌, arith, ltb, ◌==◌, if◌then◌else◌, length, take, drop, enametoolong, inl, inr,
}
use mathlib.Core.Path.{subst}
use yjkos.PathReader.{slash, name_max, kstrchr, Next, take_name, next_loop, pathreader_next}
use yjkos.PathReader.Components.{
  emit, components_from, components, from_slash, components-kstrchr, Read, ended, named, too_long,
}

-- an index of a slash
IsIndex : List ℕ → Option ℕ → Type 0
IsIndex path none = Unit
IsIndex path (some i) = (i < length path) × (path ≡ take i path ++ slash ∷ drop (suc i) path)

kstrchr-IsIndex : (path : List ℕ) → IsIndex path (kstrchr path slash)
unfolding kstrchr IsIndex
kstrchr-IsIndex [] = record {}
kstrchr-IsIndex (c ∷ path) = elim (Bool-cases (c == slash)) [
  | inl h ↦ let found : c ≡ slash = ground arith in rw h (omega arith, ap (λ x. x ∷ path) found)
  | inr h ↦ rw h (later (kstrchr path slash) (kstrchr-IsIndex path))
]
  where
    later :
        (r : Option ℕ)
        → IsIndex path r
        → IsIndex (c ∷ path) (elim r [ none ↦ none | some i ↦ some (suc i) ])
    later none h = record {}
    later (some i) (lt, e) = (omega arith, ap (λ l. c ∷ l) e)

length-take_le : (n : ℕ) (s : List ℕ) → n ≤ length s → length (take n s) ≡ n
length-take_le zero s h = refl
length-take_le (suc n) [] h = absurd (omega arith)
length-take_le (suc n) (c ∷ s) h = ap suc (length-take_le n s (omega arith))

length-drop_le : (n : ℕ) (s : List ℕ) → length (drop n s) ≤ length s
length-drop_le zero s = omega arith
length-drop_le (suc n) [] = omega arith
length-drop_le (suc n) (c ∷ s) = omega (arith, length-drop_le n s)

-- A path with slashes in front is read the same way.
Read-after :
    (pre path path' : List ℕ) (r : Next)
    → path ≡ pre ++ path'
    → components path ≡ components path'
    → Read path' r
    → Read path r
Read-after pre path path' r split e (ended h) = ended (e ∙ h)
Read-after pre path path' r split e (named name remaining h (inl fits)) =
    named name remaining (e ∙ h) (inl fits)
Read-after pre path path' r split e (named name remaining h (inr (before, last, none_left))) =
    named name remaining (e ∙ h) (
      inr (
        pre ++ before,
        split ∙ ap (λ l. pre ++ l) last ∙ sym (append_assoc pre before name),
        none_left,
      ))
Read-after pre path path' r split e (too_long before name after slashed h long) =
    too_long (pre ++ before) name after
      (split
        ∙ ap (λ l. pre ++ l) (slashed ∙ append_assoc before name (slash ∷ after))
        ∙ sym (append_assoc pre before (name ++ slash ∷ after))
        ∙ sym (append_assoc (pre ++ before) name (slash ∷ after)))
      (e ∙ h) long

emit-long :
    (name : List ℕ) (names : List (List ℕ))
    → name_max < length name
    → emit name names ≡ name ∷ names
emit-long [] names h = absurd (omega arith)
emit-long (c ∷ name) names h = refl

-- a round of the loop, with what `kstrchr` found
round : ℕ → List ℕ → Option ℕ → Next
round fuel path none = take_name path [] (next_loop fuel [])
round fuel path (some len) =
    let rest = next_loop fuel (drop (suc len) path) in
    if ltb name_max len
    then inl enametoolong
    else take_name (take len path) (drop (suc len) path) rest

-- a name that a slash ends
take_name-Read :
    (path name remaining : List ℕ) (rest : Next)
    → path ≡ name ++ slash ∷ remaining
    → length name ≤ name_max
    → components path ≡ emit name (components remaining)
    → Read remaining rest
    → Read path (take_name name remaining rest)
unfolding take_name
take_name-Read path [] remaining rest split fits e read =
    Read-after (slash ∷ []) path remaining rest split e read
take_name-Read path (c ∷ name) remaining rest split fits e read =
    named (c ∷ name) remaining e (inl fits)

-- the last name, which no slash ends
last_name-Read :
    (path : List ℕ) (rest : Next)
    → 0 < length path
    → components path ≡ emit path []
    → Read path (take_name path [] rest)
unfolding take_name components_from
last_name-Read [] rest filled e = absurd (omega arith)
last_name-Read (c ∷ path) rest filled e = named (c ∷ path) [] e (inr ([], refl, refl))

round-Read :
    (fuel : ℕ) (path : List ℕ) (r : Option ℕ)
    → IsIndex path r
    → components path ≡ from_slash [] path r
    → ((remaining : List ℕ)
        → length remaining < length path
        → Read remaining (next_loop fuel remaining))
    → 0 < length path
    → Read path (round fuel path r)
unfolding round from_slash components_from IsIndex
round-Read fuel path none i e read filled = last_name-Read path (next_loop fuel []) filled e
round-Read fuel path (some len) (lt, split) e read filled =
    let size = length-take_le len path (omega arith) in
    elim (Bool-cases (ltb name_max len)) [
      | inl long ↦
          let over : name_max < length (take len path) = ground arith in
          rw long (
            too_long [] (take len path) (drop (suc len) path) split
              (e ∙ emit-long (take len path) _ over) over)
      | inr short ↦ rw short (
          take_name-Read path (take len path) (drop (suc len) path) _ split (ground arith) e
            (read (drop (suc len) path) (shorter path filled)))
    ]
  where
    shorter : (path : List ℕ) → 0 < length path → length (drop (suc len) path) < length path
    shorter [] h = h
    shorter (c ∷ path) h = omega (arith, length-drop_le len path)

next_loop-Read : (fuel : ℕ) (path : List ℕ) → length path ≤ fuel → Read path (next_loop fuel path)
unfolding next_loop components_from round
next_loop-Read zero [] h = ended refl
next_loop-Read zero (c ∷ path) h = absurd (omega arith)
next_loop-Read (suc fuel) [] h = ended refl
next_loop-Read (suc fuel) (c ∷ path) h =
    let read =
      round-Read fuel (c ∷ path) (kstrchr (c ∷ path) slash) (kstrchr-IsIndex (c ∷ path))
        (components-kstrchr [] (c ∷ path))
        (λ remaining lt. next_loop-Read fuel remaining (omega arith)) (omega arith) in
    subst (Read (c ∷ path)) (same (kstrchr (c ∷ path) slash)) read
  where
    same :
        (r : Option ℕ)
        → round fuel (c ∷ path) r ≡ elim r [
          | none ↦ take_name (c ∷ path) [] (next_loop fuel [])
          | some len ↦
              let rest = next_loop fuel (drop (suc len) (c ∷ path)) in
              if ltb name_max len
              then inl enametoolong
              else take_name (take len (c ∷ path)) (drop (suc len) (c ∷ path)) rest
        ]
    same none = refl
    same (some len) = refl

-- pathreader_next returns the first name of the path that is not empty, together with a path that
-- has exactly the names after it, where the name has at most 255 characters or is the end of the
-- path; or -ENOENT if there is no name; or -ENAMETOOLONG only if the first name has more than 255
-- characters and a slash after it.
pub pathreader_next-Read : (path : List ℕ) → Read path (pathreader_next path)
unfolding pathreader_next
pathreader_next-Read path = next_loop-Read (length path) path (omega arith)
