-- ===== src/PathReader/Components.antt =====
-- The names of a path, and that `pathreader_next` reads the first of them.
use yjkos.Prelude.{
  ℕ, suc, ◌<◌, ◌≤◌, ◌⊎◌, ◌≡◌, sym, ap, ◌∙◌, Bool-cases, Option, none, some, List, [], ◌∷◌, ◌++◌,
  append-nil, append_assoc, ◌==◌, if◌then◌else◌, length, take, drop, enoent, enametoolong, inl, inr,
}
use yjkos.PathReader.{slash, name_max, kstrchr, Next}

-- a name that is not empty, in front of the others
abbrev pub emit : List ℕ → List (List ℕ) → List (List ℕ)
emit [] names = names
emit (c ∷ name) names = (c ∷ name) ∷ names

-- the names between the slashes, where `name` has been read of the first
unfoldable pub components_from : List ℕ → List ℕ → List (List ℕ)
components_from name [] = emit name []
components_from name (c ∷ path) =
    let ended = emit name (components_from [] path) in
    let longer = components_from (name ++ c ∷ []) path in if c == slash then ended else longer

abbrev pub components : List ℕ → List (List ℕ)
components path = components_from [] path

-- the names, once it is known where the first slash is
unfoldable pub from_slash : List ℕ → List ℕ → Option ℕ → List (List ℕ)
from_slash name path none = emit (name ++ path) []
from_slash name path (some len) = emit (name ++ take len path) (components (drop (suc len) path))

from_slash-suc :
    (name path : List ℕ) (c : ℕ) (r : Option ℕ)
    → from_slash (name ++ c ∷ []) path r
      ≡ from_slash name (c ∷ path) (elim r [ none ↦ none | some i ↦ some (suc i) ])
unfolding from_slash
from_slash-suc name path c none = ap (λ n. emit n []) (append_assoc name (c ∷ []) path)
from_slash-suc name path c (some len) =
    ap (λ n. emit n (components (drop (suc len) path))) (append_assoc name (c ∷ []) (take len path))

-- A slash that `kstrchr` finds ends a name; without one the path is one name.
pub components-kstrchr :
    (name path : List ℕ) → components_from name path ≡ from_slash name path (kstrchr path slash)
unfolding components_from kstrchr from_slash
components-kstrchr name [] = ap (λ n. emit n []) (sym (append-nil name))
components-kstrchr name (c ∷ path) = elim (Bool-cases (c == slash)) [
  | inl h ↦ rw h (ap (λ n. emit n (components path)) (sym (append-nil name)))
  | inr h ↦
      rw h
        (components-kstrchr (name ++ c ∷ []) path ∙ from_slash-suc name path c (kstrchr path slash))
]

-- What `pathreader_next` returns: no name is left; the first name and a path that has the other
-- names, where the name fits the buffer or is the end of the path; or, a name that is too long and
-- has a slash after it.
pub data Read (path : List ℕ) : Next → Type 0 where
  ended : components path ≡ [] → Read path (inl enoent)
  named :
      (name remaining : List ℕ)
      → components path ≡ name ∷ components remaining
      → (length name ≤ name_max) ⊎ ((before : List ℕ) × (path ≡ before ++ name) × (remaining ≡ []))
      → Read path (inr (name, remaining))
  too_long :
      (before name after : List ℕ)
      → path ≡ before ++ name ++ slash ∷ after
      → components path ≡ name ∷ components after
      → name_max < length name
      → Read path (inl enametoolong)
