-- ===== src/LinkedList/InsertAt.antt =====
-- kernel/lib/list.c: insertion next to a node, on the sequence of nodes.
use yjkos.Prelude.{
  ℕ, ◌≡◌, refl, sym, ap, ◌∙◌, List, [], ◌∷◌, ◌++◌, Option, none, some, append_assoc, if◌then◌else◌,
}
use mathlib.Core.Path.{subst}
use yjkos.LinkedList.{LinkedList, store, store_if, points_to, list_insert_after, list_insert_before}
use yjkos.LinkedList.Segments.{
  head_or, last_or, NotIn, NoDup, Seg, IsList, store_at, last_or-append, Seg-split,
}
use yjkos.LinkedList.Splice.{NoDup-insert, NoDup-right, Seg-insert, last_or-other, NotIn-right}
use yjkos.LinkedList.Insert.{points_to_self, points_to-other}

-- The last node is the one before the new one, or it stays.
last_or-after :
    (after node : ℕ) (ys : List ℕ)
    → NotIn after ys
    → (if points_to (last_or ys (some after)) after then some node else last_or ys (some after))
      ≡ last_or ys (some node)
last_or-after after node [] n = ap (λ b. if b then some node else some after) (points_to_self after)
last_or-after after node (y ∷ ys) (ne, n) =
    ap (λ b. if b then some node else last_or ys (some y))
      (points_to-other (last_or ys (some y)) after
        (last_or-other after ys (some y) n (λ e. ne (cc))))

-- the first node does not depend on what follows a node
head_or-with :
    (xs : List ℕ) (k : ℕ) (ys zs : List ℕ)
    → head_or (xs ++ k ∷ ys) none ≡ head_or (xs ++ k ∷ zs) none
head_or-with [] k ys zs = refl
head_or-with (x ∷ xs) k ys zs = refl

-- list_insert_after of a new node puts it into the sequence of nodes behind the given one, leaves a
-- list that is linked in both directions, and sets the node's data.
pub list_insert_after-IsList :
    (list : LinkedList) (xs ys : List ℕ) (after node data_ptr : ℕ)
    → IsList list (xs ++ after ∷ ys)
    → NotIn node (xs ++ after ∷ ys)
    → IsList (list_insert_after after node data_ptr list) (xs ++ after ∷ node ∷ ys)
      × ((list_insert_after after node data_ptr list).data_of node ≡ data_ptr)
unfolding list_insert_after
list_insert_after-IsList list xs ys after node data_ptr v n =
    let pre = xs ++ after ∷ [] in
    let split = sym (append_assoc xs (after ∷ []) ys) in
    let (left, right) = Seg-split list.next list.prev none xs (after ∷ ys) none v.linked in
    let (p, e, rest) = right in
    let last : last_or pre none ≡ some after = last_or-append xs (after ∷ []) none in
    let (apart, ds) = NoDup-right xs (after ∷ ys) v.distinct in
    let n' = subst (NotIn node) split n in
    let d' = subst NoDup split v.distinct in
    let t =
      Seg-insert list.next list.prev node pre ys n' d'
        (subst (λ l. Seg list.next list.prev none l none) split v.linked) in
    let Linked : Option ℕ → Option ℕ → Type 0 = λ o w.
      Seg (store (store list.next node o) after (some node))
        (store_if (store list.prev node (some after)) w (some node)) none (xs ++ after ∷ node ∷ ys)
        none in
    let G : Option ℕ → Type 0 = λ o. Linked o (store list.next node o node) in
    let t' : Linked (head_or ys none) (head_or ys none) =
      subst
        (λ l.
          Seg (store (store list.next node (head_or ys none)) after (some node))
            (store_if (store list.prev node (some after)) (head_or ys none) (some node)) none l
            none)
        (append_assoc xs (after ∷ []) (node ∷ ys))
        (subst
          (λ l.
            Seg (store_if (store list.next node (head_or ys none)) l (some node))
              (store_if (store list.prev node l) (head_or ys none) (some node)) none
              (pre ++ node ∷ ys) none)
          last t) in
    (
      record {
        front = v.front ∙ head_or-with xs after ys (node ∷ ys);
        back =
            ap (λ o. if points_to o after then some node else o)
              (v.back ∙ last_or-append xs (after ∷ ys) none)
            ∙ last_or-after after node ys apart
            ∙ sym (last_or-append xs (after ∷ node ∷ ys) none);
        linked = subst G (sym e) (
            subst (λ w. Linked (head_or ys none) w)
              (sym (store_at list.next node (head_or ys none))) t');
        distinct =
            subst NoDup (append_assoc xs (after ∷ []) (node ∷ ys)) (NoDup-insert node pre ys n' d');
      },
      store_at list.data_of node data_ptr,
    )

-- The first node is the one after the new one, or it stays.
head_or-before :
    (before node : ℕ) (xs ys : List ℕ)
    → NoDup (xs ++ before ∷ ys)
    → (if points_to (head_or (xs ++ before ∷ ys) none) before
        then some node
        else head_or (xs ++ before ∷ ys) none)
      ≡ head_or (xs ++ node ∷ before ∷ ys) none
head_or-before before node [] ys d =
    ap (λ b. if b then some node else some before) (points_to_self before)
head_or-before before node (x ∷ xs) ys (n, d) =
    let (ne, m) = NotIn-right x xs (before ∷ ys) n in
    ap (λ b. if b then some node else some x) (points_to-other (some x) before (λ e. ne cc))

pub list_insert_before-IsList :
    (list : LinkedList) (xs ys : List ℕ) (before node data_ptr : ℕ)
    → IsList list (xs ++ before ∷ ys)
    → NotIn node (xs ++ before ∷ ys)
    → IsList (list_insert_before before node data_ptr list) (xs ++ node ∷ before ∷ ys)
      × ((list_insert_before before node data_ptr list).data_of node ≡ data_ptr)
unfolding list_insert_before
list_insert_before-IsList list xs ys before node data_ptr v n =
    let (left, right) = Seg-split list.next list.prev none xs (before ∷ ys) none v.linked in
    let (p, e, rest) = right in
    let t = Seg-insert list.next list.prev node xs (before ∷ ys) n v.distinct v.linked in
    let Linked : Option ℕ → Option ℕ → Type 0 = λ o w.
      Seg (store_if (store list.next node (some before)) w (some node))
        (store (store list.prev node o) before (some node)) none (xs ++ node ∷ before ∷ ys) none in
    (
      record {
        front =
            ap (λ o. if points_to o before then some node else o) v.front
            ∙ head_or-before before node xs ys v.distinct;
        back =
            v.back
            ∙ last_or-append xs (before ∷ ys) none
            ∙ sym (last_or-append xs (node ∷ before ∷ ys) none);
        linked =
            subst (λ o. Linked o (store list.prev node o node)) (sym p)
              (subst (Linked (last_or xs none)) (sym (store_at list.prev node (last_or xs none)))
                t);
        distinct = NoDup-insert node xs (before ∷ ys) n v.distinct;
      },
      store_at list.data_of node data_ptr,
    )
