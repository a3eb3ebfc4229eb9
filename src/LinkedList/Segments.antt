-- ===== src/LinkedList/Segments.antt =====
-- kernel/lib/list.c: the sequence of nodes that a list stands for.
use yjkos.Prelude.{ℕ, ◌≡◌, ◌≢◌, refl, sym, ◌∙◌, List, [], ◌∷◌, ◌++◌, Option, none, some, arith}
use yjkos.LinkedList.{LinkedList, store, store_if}

abbrev pub head_or : List ℕ → Option ℕ → Option ℕ
head_or [] o = o
head_or (x ∷ xs) o = some x

abbrev pub last_or : List ℕ → Option ℕ → Option ℕ
last_or [] o = o
last_or (x ∷ xs) o = last_or xs (some x)

abbrev pub NotIn : ℕ → List ℕ → Type 0
NotIn k [] = Unit
NotIn k (x ∷ xs) = (k ≢ x) × NotIn k xs

abbrev pub NoDup : List ℕ → Type 0
NoDup [] = Unit
NoDup (x ∷ xs) = NotIn x xs × NoDup xs

-- Nodes that are linked in both directions, between `before` and `after`.
abbrev pub Seg : (ℕ → Option ℕ) → (ℕ → Option ℕ) → Option ℕ → List ℕ → Option ℕ → Type 0
Seg next prev before [] after = Unit
Seg next prev before (x ∷ xs) after =
    (prev x ≡ before) × (next x ≡ head_or xs after) × Seg next prev (some x) xs after

-- A list with these nodes, in this order.
pub record IsList (list : LinkedList) (xs : List ℕ) : Type 0 where
  pub front : list.front ≡ head_or xs none
  pub back : list.back ≡ last_or xs none
  pub linked : Seg list.next list.prev none xs none
  pub distinct : NoDup xs

module _ {ℓ} {A : Type ℓ} where
  pub store_at : (field : ℕ → A) (p : ℕ) (v : A) → store field p v p ≡ v
  store_at field p v = ground arith

  pub store_other : (field : ℕ → A) (p a : ℕ) (v : A) → a ≢ p → store field p v a ≡ field a
  store_other field p a v ne = ground arith

pub Seg-next :
    (next prev : ℕ → Option ℕ) (before : Option ℕ) (xs : List ℕ) (after : Option ℕ) (k : ℕ)
    (v : Option ℕ)
    → NotIn k xs
    → Seg next prev before xs after
    → Seg (store next k v) prev before xs after
Seg-next next prev before [] after k v n s = tt
Seg-next next prev before (x ∷ xs) after k v (ne, n) (p, e, s) =
    (p, store_other next k x v (λ q. ne (sym q)) ∙ e, Seg-next next prev (some x) xs after k v n s)

pub Seg-prev :
    (next prev : ℕ → Option ℕ) (before : Option ℕ) (xs : List ℕ) (after : Option ℕ) (k : ℕ)
    (v : Option ℕ)
    → NotIn k xs
    → Seg next prev before xs after
    → Seg next (store prev k v) before xs after
Seg-prev next prev before [] after k v n s = tt
Seg-prev next prev before (x ∷ xs) after k v (ne, n) (p, e, s) =
    (store_other prev k x v (λ q. ne (sym q)) ∙ p, e, Seg-prev next prev (some x) xs after k v n s)

-- the first node gets another node before it
pub Seg-first :
    (next prev : ℕ → Option ℕ) (before before' : Option ℕ) (xs : List ℕ) (after : Option ℕ)
    → NoDup xs
    → Seg next prev before xs after
    → Seg next (store_if prev (head_or xs none) before') before' xs after
Seg-first next prev before before' [] after d s = tt
Seg-first next prev before before' (x ∷ xs) after (n, d) (p, e, s) =
    (store_at prev x before', e, Seg-prev next prev (some x) xs after x before' n s)

-- a store at the last node of a sequence leaves the others
last_other :
    (field : ℕ → Option ℕ) (k x : ℕ) (xs : List ℕ) (v : Option ℕ)
    → NotIn k (x ∷ xs)
    → store_if field (last_or xs (some x)) v k ≡ field k
last_other field k x [] v (ne, n) = store_other field x k v ne
last_other field k x (y ∷ ys) v (ne, n) = last_other field k y ys v n

-- the last node gets another node after it
pub Seg-last :
    (next prev : ℕ → Option ℕ) (before : Option ℕ) (xs : List ℕ) (after after' : Option ℕ)
    → NoDup xs
    → Seg next prev before xs after
    → Seg (store_if next (last_or xs none) after') prev before xs after'
Seg-last next prev before [] after after' d s = tt
Seg-last next prev before (x ∷ []) after after' d (p, e, s) = (p, store_at next x after', tt)
Seg-last next prev before (x ∷ y ∷ ys) after after' (n, d) (p, e, s) =
    (p, last_other next x y ys after' n ∙ e, Seg-last next prev (some x) (y ∷ ys) after after' d s)

head_or-append : (xs ys : List ℕ) (o : Option ℕ) → head_or (xs ++ ys) o ≡ head_or xs (head_or ys o)
head_or-append [] ys o = refl
head_or-append (x ∷ xs) ys o = refl

pub last_or-append :
    (xs ys : List ℕ) (o : Option ℕ) → last_or (xs ++ ys) o ≡ last_or ys (last_or xs o)
last_or-append [] ys o = refl
last_or-append (x ∷ xs) ys o = last_or-append xs ys (some x)

module _ (next prev : ℕ → Option ℕ) where
  pub Seg-split :
      (before : Option ℕ) (xs ys : List ℕ) (after : Option ℕ)
      → Seg next prev before (xs ++ ys) after
      → Seg next prev before xs (head_or ys after) × Seg next prev (last_or xs before) ys after
  Seg-split before [] ys after s = (tt, s)
  Seg-split before (x ∷ xs) ys after (p, e, s) =
      let (left, right) = Seg-split (some x) xs ys after s in
      ((p, e ∙ head_or-append xs ys after, left), right)

  pub Seg-join :
      (before : Option ℕ) (xs ys : List ℕ) (after : Option ℕ)
      → Seg next prev before xs (head_or ys after)
      → Seg next prev (last_or xs before) ys after
      → Seg next prev before (xs ++ ys) after
  Seg-join before [] ys after left right = right
  Seg-join before (x ∷ xs) ys after (p, e, left) right =
      (p, e ∙ sym (head_or-append xs ys after), Seg-join (some x) xs ys after left right)
