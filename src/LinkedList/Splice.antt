-- ===== src/LinkedList/Splice.antt =====
-- kernel/lib/list.c: a node between two parts of a list, put in and taken out.
use yjkos.Prelude.{ℕ, ◌≡◌, ◌≢◌, refl, sym, ap, ◌∙◌, List, [], ◌∷◌, ◌++◌, Option, none, some}
use yjkos.LinkedList.{store, store_if}
use yjkos.LinkedList.Segments.{
  head_or, last_or, NotIn, NoDup, Seg, store_at, store_other, Seg-next, Seg-prev, Seg-first,
  Seg-last, Seg-split, Seg-join,
}

abbrev pub Avoids : Option ℕ → List ℕ → Type 0
Avoids none xs = Unit
Avoids (some k) xs = NotIn k xs

pub NotIn-left : (k : ℕ) (xs ys : List ℕ) → NotIn k (xs ++ ys) → NotIn k xs
NotIn-left k [] ys n = tt
NotIn-left k (x ∷ xs) ys (ne, n) = (ne, NotIn-left k xs ys n)

pub NotIn-right : (k : ℕ) (xs ys : List ℕ) → NotIn k (xs ++ ys) → NotIn k ys
NotIn-right k [] ys n = n
NotIn-right k (x ∷ xs) ys (ne, n) = NotIn-right k xs ys n

pub NotIn-both : (k : ℕ) (xs ys : List ℕ) → NotIn k xs → NotIn k ys → NotIn k (xs ++ ys)
NotIn-both k [] ys n m = m
NotIn-both k (x ∷ xs) ys (ne, n) m = (ne, NotIn-both k xs ys n m)

NoDup-left : (xs ys : List ℕ) → NoDup (xs ++ ys) → NoDup xs
NoDup-left [] ys d = tt
NoDup-left (x ∷ xs) ys (n, d) = (NotIn-left x xs ys n, NoDup-left xs ys d)

pub NoDup-right : (xs ys : List ℕ) → NoDup (xs ++ ys) → NoDup ys
NoDup-right [] ys d = d
NoDup-right (x ∷ xs) ys (n, d) = NoDup-right xs ys d

pub NoDup-insert :
    (node : ℕ) (xs ys : List ℕ) → NotIn node (xs ++ ys) → NoDup (xs ++ ys) → NoDup (xs ++ node ∷ ys)
NoDup-insert node [] ys n d = (n, d)
NoDup-insert node (x ∷ xs) ys (ne, n) (m, d) = (
  NotIn-both x xs (node ∷ ys) (NotIn-left x xs ys m) (λ e. ne (sym e), NotIn-right x xs ys m),
  NoDup-insert node xs ys n d,
)

pub NoDup-remove :
    (node : ℕ) (xs ys : List ℕ) → NoDup (xs ++ node ∷ ys) → NotIn node (xs ++ ys) × NoDup (xs ++ ys)
NoDup-remove node [] ys (n, d) = (n, d)
NoDup-remove node (x ∷ xs) ys (m, d) =
    let (n, d') = NoDup-remove node xs ys d in
    let (ne, right) = NotIn-right x xs (node ∷ ys) m in
    ((λ e. ne (sym e), n), (NotIn-both x xs ys (NotIn-left x xs (node ∷ ys) m) right, d'))

last-Avoids :
    (o : Option ℕ) (xs ys : List ℕ) → Avoids o ys → NoDup (xs ++ ys) → Avoids (last_or xs o) ys
last-Avoids o [] ys a d = a
last-Avoids o (x ∷ xs) ys a (n, d) = last-Avoids (some x) xs ys (NotIn-right x xs ys n) d

head-Avoids : (xs ys : List ℕ) → NoDup (xs ++ ys) → Avoids (head_or ys none) xs
head-Avoids xs [] d = tt
head-Avoids [] (y ∷ ys) d = tt
head-Avoids (x ∷ xs) (y ∷ ys) (n, d) =
    let (ne, m) = NotIn-right x xs (y ∷ ys) n in (λ e. ne (sym e), head-Avoids xs (y ∷ ys) d)

module _ (next prev : ℕ → Option ℕ) (before : Option ℕ) (xs : List ℕ) (after v : Option ℕ)
    (s : Seg next prev before xs after) where
  Seg-next_if : (o : Option ℕ) → Avoids o xs → Seg (store_if next o v) prev before xs after
  Seg-next_if none a = s
  Seg-next_if (some k) a = Seg-next next prev before xs after k v a s

  Seg-prev_if : (o : Option ℕ) → Avoids o xs → Seg next (store_if prev o v) before xs after
  Seg-prev_if none a = s
  Seg-prev_if (some k) a = Seg-prev next prev before xs after k v a s

-- the last node of one part and the first of another are linked to new neighbors
module _ (next prev : ℕ → Option ℕ) (xs ys : List ℕ) (d : NoDup (xs ++ ys)) (a b : Option ℕ)
    (new_next new_prev : Option ℕ) (left : Seg next prev none xs a)
    (right : Seg next prev b ys none) where
  pub Seg-relinked :
      Seg
        (store_if next (last_or xs none) new_next)
        (store_if prev (head_or ys none) new_prev)
        none
        xs
        new_next
      × Seg
          (store_if next (last_or xs none) new_next)
          (store_if prev (head_or ys none) new_prev)
          new_prev
          ys
          none
  Seg-relinked =
      let next' = store_if next (last_or xs none) new_next in
      (
        Seg-prev_if next' prev none xs new_next new_prev
            (Seg-last next prev none xs a new_next (NoDup-left xs ys d) left) (head_or ys none)
            (head-Avoids xs ys d),
        Seg-first next' prev b new_prev ys none (NoDup-right xs ys d) (
            Seg-next_if next prev b ys none new_next right (last_or xs none)
              (last-Avoids none xs ys tt d)),
      )

pub store_if_other :
    (field : ℕ → Option ℕ) (k : ℕ) (o v : Option ℕ) → (o ≢ some k) → store_if field o v k ≡ field k
store_if_other field k none v ne = refl
store_if_other field k (some p) v ne = store_other field p k v (λ e. ne (ap some (sym e)))

pub last_or-other :
    (k : ℕ) (xs : List ℕ) (o : Option ℕ) → NotIn k xs → o ≢ some k → last_or xs o ≢ some k
last_or-other k [] o n ne = ne
last_or-other k (x ∷ xs) o (ne', n) ne = last_or-other k xs (some x) n (λ e. ne' (cc))

pub head_or-other : (k : ℕ) (xs : List ℕ) → NotIn k xs → head_or xs none ≢ some k
head_or-other k [] n = λ e. cc
head_or-other k (x ∷ xs) (ne, n) = λ e. ne cc

module _ (next prev : ℕ → Option ℕ) (node : ℕ) (xs ys : List ℕ) where
  -- `node` is put between two parts.
  pub Seg-insert :
      NotIn node (xs ++ ys)
      → NoDup (xs ++ ys)
      → Seg next prev none (xs ++ ys) none
      → Seg
          (store_if (store next node (head_or ys none)) (last_or xs none) (some node))
          (store_if (store prev node (last_or xs none)) (head_or ys none) (some node))
          none
          (xs ++ node ∷ ys)
          none
  Seg-insert n d s =
      let next1 = store next node (head_or ys none) in
      let prev1 = store prev node (last_or xs none) in
      let in_xs = NotIn-left node xs ys n in
      let in_ys = NotIn-right node xs ys n in
      let (left, right) = Seg-split next prev none xs ys none s in
      let left1 =
        Seg-prev next1 prev none xs (head_or ys none) node (last_or xs none) in_xs
          (Seg-next next prev none xs (head_or ys none) node (head_or ys none) in_xs left) in
      let right1 =
        Seg-prev next1 prev (last_or xs none) ys none node (last_or xs none) in_ys
          (Seg-next next prev (last_or xs none) ys none node (head_or ys none) in_ys right) in
      let (left2, right2) =
        Seg-relinked next1 prev1 xs ys d (head_or ys none) (last_or xs none) (some node) (some node)
          left1 right1 in
      Seg-join _ _ none xs (node ∷ ys) none left2 (
        store_if_other prev1 node (head_or ys none) (some node) (head_or-other node ys in_ys)
            ∙ store_at prev node (last_or xs none),
        store_if_other next1 node (last_or xs none) (some node)
              (last_or-other node xs none in_xs (λ e. cc))
            ∙ store_at next node (head_or ys none),
        right2,
      )

  -- `node` is taken from between two parts.
  pub Seg-remove :
      NoDup (xs ++ node ∷ ys)
      → Seg next prev none (xs ++ node ∷ ys) none
      → Seg
          (store_if next (last_or xs none) (head_or ys none))
          (store_if prev (head_or ys none) (last_or xs none))
          none
          (xs ++ ys)
          none
  Seg-remove d s =
      let (left, right) = Seg-split next prev none xs (node ∷ ys) none s in
      let (p, e, rest) = right in
      let (n, d') = NoDup-remove node xs ys d in
      let (left', right') =
        Seg-relinked next prev xs ys d' (some node) (some node) (head_or ys none) (last_or xs none)
          left rest in
      Seg-join _ _ none xs ys none left' right'
