-- ===== src/LinkedList/Insert.antt =====
-- kernel/lib/list.c: insertion, on the sequence of nodes.
use yjkos.Prelude.{
  ℕ, ◌≡◌, ◌≢◌, refl, sym, ap, ◌∙◌, true, false, List, [], ◌∷◌, ◌++◌, Option, none, some, ◌==◌,
  arith, append-nil,
}
use mathlib.Core.Path.{subst, fun_ext}
use yjkos.LinkedList.{
  LinkedList, store, store_if, points_to, or_node, list_insert_front, list_insert_back,
}
use yjkos.LinkedList.Segments.{
  head_or, last_or, NotIn, NoDup, Seg, IsList, store_at, last_or-append,
}
use yjkos.LinkedList.Splice.{NoDup-insert, Seg-insert, last_or-other, head_or-other}

pub same_node : (p : ℕ) → (p == p) ≡ true
same_node p = ground arith

other_node : (p q : ℕ) → p ≢ q → (p == q) ≡ false
other_node p q ne = ground arith

pub points_to_self : (p : ℕ) → points_to (some p) p ≡ true
points_to_self p = same_node p

pub points_to-other : (o : Option ℕ) (p : ℕ) → o ≢ some p → points_to o p ≡ false
points_to-other none p ne = refl
points_to-other (some a) p ne = other_node a p (λ e. ne (ap some e))

store_swap :
    (field : ℕ → Option ℕ) (node : ℕ) (v o w : Option ℕ)
    → o ≢ some node
    → store (store_if field o w) node v ≡ store_if (store field node v) o w
store_swap field node v none w ne = refl
store_swap field node v (some p) w ne = fun_ext at
  where
    at : (a : ℕ) → store (store field p w) node v a ≡ store (store field node v) p w a
    at a = let apart : p ≢ node = λ e. ne (ap some e) in ground arith

last_or-from : (xs : List ℕ) (x node : ℕ) → or_node (last_or xs (some x)) node ≡ last_or xs (some x)
last_or-from [] x node = refl
last_or-from (y ∷ ys) x node = last_or-from ys y node

or_node-last_or : (xs : List ℕ) (node : ℕ) → or_node (last_or xs none) node ≡ last_or xs (some node)
or_node-last_or [] node = refl
or_node-last_or (x ∷ xs) node = last_or-from xs x node

or_node-head_or :
    (xs : List ℕ) (node : ℕ) → or_node (head_or xs none) node ≡ head_or (xs ++ node ∷ []) none
or_node-head_or [] node = refl
or_node-head_or (x ∷ xs) node = refl

-- list_insert_front of a new node puts it before the sequence of nodes, leaves a list that is
-- linked in both directions, and sets the node's data.
pub list_insert_front-IsList :
    (list : LinkedList) (xs : List ℕ) (node data_ptr : ℕ)
    → IsList list xs
    → NotIn node xs
    → IsList (list_insert_front node data_ptr list) (node ∷ xs)
      × ((list_insert_front node data_ptr list).data_of node ≡ data_ptr)
unfolding list_insert_front
list_insert_front-IsList list xs node data_ptr v n =
    let swap =
      store_swap list.prev node none (head_or xs none) (some node) (head_or-other node xs n) in
    let t = Seg-insert list.next list.prev node [] xs n v.distinct v.linked in
    (
      record {
        front = refl;
        back = ap (λ o. or_node o node) v.back ∙ or_node-last_or xs node;
        linked =
            subst
              (λ o.
                Seg (store list.next node o) (store (store_if list.prev o (some node)) node none)
                  none (node ∷ xs) none)
              (sym v.front)
              (subst
                (λ prev. Seg (store list.next node (head_or xs none)) prev none (node ∷ xs) none)
                (sym swap) t);
        distinct = (n, v.distinct);
      },
      store_at list.data_of node data_ptr,
    )

pub list_insert_back-IsList :
    (list : LinkedList) (xs : List ℕ) (node data_ptr : ℕ)
    → IsList list xs
    → NotIn node xs
    → IsList (list_insert_back node data_ptr list) (xs ++ node ∷ [])
      × ((list_insert_back node data_ptr list).data_of node ≡ data_ptr)
unfolding list_insert_back
list_insert_back-IsList list xs node data_ptr v n =
    let swap =
      store_swap list.next node none (last_or xs none) (some node)
        (last_or-other node xs none n (λ e. cc)) in
    let all = sym (append-nil xs) in
    let n' = subst (NotIn node) all n in
    let d' = subst NoDup all v.distinct in
    let t =
      Seg-insert list.next list.prev node xs [] n' d'
        (subst (λ l. Seg list.next list.prev none l none) all v.linked) in
    (
      record {
        front = ap (λ o. or_node o node) v.front ∙ or_node-head_or xs node;
        back = sym (last_or-append xs (node ∷ []) none);
        linked =
            subst
              (λ o.
                Seg (store (store_if list.next o (some node)) node none) (store list.prev node o)
                  none (xs ++ node ∷ []) none)
              (sym v.back)
              (subst
                (λ next.
                  Seg next (store list.prev node (last_or xs none)) none (xs ++ node ∷ []) none)
                (sym swap) t);
        distinct = NoDup-insert node xs [] n' d';
      },
      store_at list.data_of node data_ptr,
    )
