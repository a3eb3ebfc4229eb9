-- ===== src/LinkedList/Remove.antt =====
-- kernel/lib/list.c: removal, on the sequence of nodes.
use yjkos.Prelude.{
  ℕ, ◌≡◌, refl, sym, ap, ap₂, ◌∙◌, List, [], ◌∷◌, ◌++◌, Option, none, some, append-nil,
  if◌then◌else◌,
}
use mathlib.Core.Path.{subst}
use yjkos.LinkedList.{
  LinkedList, store_if, points_to, ends, list_remove_front, list_remove_back, list_remove_node,
}
use yjkos.LinkedList.Segments.{
  head_or, last_or, NotIn, NoDup, Seg, IsList, last_or-append, Seg-split,
}
use yjkos.LinkedList.Splice.{
  NoDup-remove, Seg-remove, last_or-other, head_or-other, NotIn-left, NotIn-right, store_if_other,
}
use yjkos.LinkedList.Insert.{points_to_self, points_to-other}

last_or-some : (xs : List ℕ) (x : ℕ) → (l : ℕ) × (last_or xs (some x) ≡ some l)
last_or-some [] x = (x, refl)
last_or-some (y ∷ ys) x = last_or-some ys y

-- Both pointers are null for the empty list only.
ends-list :
    (xs : List ℕ) → ends (head_or xs none) (last_or xs none) ≡ (head_or xs none, last_or xs none)
unfolding ends
ends-list [] = refl
ends-list (x ∷ xs) = let (l, e) = last_or-some xs x in rw e refl

front-without :
    (node : ℕ) (xs ys : List ℕ)
    → NotIn node (xs ++ ys)
    → (if points_to (head_or (xs ++ node ∷ ys) none) node
        then head_or ys none
        else head_or (xs ++ node ∷ ys) none)
      ≡ head_or (xs ++ ys) none
front-without node [] ys n =
    ap (λ b. if b then head_or ys none else some node) (points_to_self node)
front-without node (x ∷ xs) ys (ne, n) =
    ap (λ b. if b then head_or ys none else some x) (points_to-other (some x) node (λ e. ne cc))

back-without :
    (node : ℕ) (xs ys : List ℕ)
    → NotIn node ys
    → (if points_to (last_or ys (some node)) node then last_or xs none else last_or ys (some node))
      ≡ last_or ys (last_or xs none)
back-without node xs [] n = ap (λ b. if b then last_or xs none else some node) (points_to_self node)
back-without node xs (y ∷ ys) (ne, n) =
    ap (λ b. if b then last_or xs none else last_or ys (some y))
      (points_to-other (last_or ys (some y)) node (last_or-other node ys (some y) n (λ e. ne cc)))

-- list_remove_node of a node of a list takes that node from its sequence of nodes, wherever it
-- stands, and leaves a list that is linked in both directions.
pub list_remove_node-IsList :
    (list : LinkedList) (xs ys : List ℕ) (node : ℕ)
    → IsList list (xs ++ node ∷ ys)
    → IsList (list_remove_node node list) (xs ++ ys)
unfolding list_remove_node
list_remove_node-IsList list xs ys node v =
    let (left, right) = Seg-split list.next list.prev none xs (node ∷ ys) none v.linked in
    let (p, e, rest) = right in
    let (n, d) = NoDup-remove node xs ys v.distinct in
    let in_ys = NotIn-right node xs ys n in
    let next' = store_if list.next (list.prev node) (list.next node) in
    let prev' = store_if list.prev (next' node) (list.prev node) in
    let in_xs = NotIn-left node xs ys n in
    let next_same : next' node ≡ head_or ys none =
      store_if_other list.next node (list.prev node) (list.next node)
        (λ q. last_or-other node xs none in_xs (λ r. cc) (sym p ∙ q))
      ∙ e in
    let prev_same : prev' node ≡ last_or xs none =
      store_if_other list.prev node (next' node) (list.prev node)
        (λ q. head_or-other node ys in_ys (sym next_same ∙ q))
      ∙ p in
    let front_same : (if points_to list.front node then next' node else list.front)
        ≡ head_or (xs ++ ys) none =
      ap₂ (λ f o. if points_to f node then o else f) v.front next_same
      ∙ front-without node xs ys n in
    let back_same : (if points_to list.back node then prev' node else list.back)
        ≡ last_or (xs ++ ys) none =
      ap₂ (λ b o. if points_to b node then o else b) (v.back ∙ last_or-append xs (node ∷ ys) none)
        prev_same
      ∙ back-without node xs ys in_ys
      ∙ sym (last_or-append xs ys none) in
    let both = ap₂ ends front_same back_same ∙ ends-list (xs ++ ys) in
    let Linked : Option ℕ → Option ℕ → Option ℕ → Type 0 = λ before after first.
      Seg (store_if list.next before after) (store_if list.prev first before) none (xs ++ ys)
        none in
    let t : Linked (last_or xs none) (head_or ys none) (head_or ys none) =
      Seg-remove list.next list.prev node xs ys v.distinct v.linked in
    let t' = subst (λ o. Linked (last_or xs none) (head_or ys none) o) (sym next_same) t in
    let t'' = subst (λ o. Linked (last_or xs none) o (next' node)) (sym e) t' in
    record {
      front = ap (λ r. r.0) both;
      back = ap (λ r. r.1) both;
      linked = subst (λ o. Linked o (list.next node) (next' node)) (sym p) t'';
      distinct = d;
    }

-- what removal from an end leaves of the other end
abbrev unless_null : Option ℕ → Option ℕ → Option ℕ
unless_null o end = elim o [ none ↦ none | some p ↦ end ]

back-left :
    (xs : List ℕ) (node : ℕ)
    → unless_null (head_or xs none) (last_or xs (some node)) ≡ last_or xs none
back-left [] node = refl
back-left (x ∷ xs) node = refl

front-left :
    (xs : List ℕ) (node : ℕ)
    → unless_null (last_or xs none) (head_or (xs ++ node ∷ []) none) ≡ head_or xs none
front-left [] node = refl
front-left (x ∷ xs) node = let (l, e) = last_or-some xs x in rw e refl

pub list_remove_front-IsList :
    (list : LinkedList) (xs : List ℕ) (node : ℕ)
    → IsList list (node ∷ xs)
    → ((list_remove_front list).0 ≡ some node) × IsList (list_remove_front list).1 xs
unfolding list_remove_front
list_remove_front-IsList list xs node v =
    let (p, e, rest) = v.linked in
    let t = Seg-remove list.next list.prev node [] xs v.distinct v.linked in
    let t' : Seg list.next (store_if list.prev (list.next node) none) none xs none =
      subst (λ o. Seg list.next (store_if list.prev o none) none xs none) (sym e) t in
    rw (list_remove_front, v.front)
      (
        refl,
        record {
          front = e;
          back = ap₂ unless_null e v.back ∙ back-left xs node;
          linked = t';
          distinct = v.distinct.1;
        },
      )

-- list_remove_back of a list with a last node returns it and leaves a list of the nodes before it
-- that is linked in both directions.
pub list_remove_back-IsList :
    (list : LinkedList) (xs : List ℕ) (node : ℕ)
    → IsList list (xs ++ node ∷ [])
    → ((list_remove_back list).0 ≡ some node) × IsList (list_remove_back list).1 xs
unfolding list_remove_back
list_remove_back-IsList list xs node v =
    let (left, right) = Seg-split list.next list.prev none xs (node ∷ []) none v.linked in
    let (p, e, rest) = right in
    let (n, d) = NoDup-remove node xs [] v.distinct in
    let whole = append-nil xs in
    let t =
      subst (λ l. Seg (store_if list.next (last_or xs none) none) list.prev none l none) whole
        (Seg-remove list.next list.prev node xs [] v.distinct v.linked) in
    let t' : Seg (store_if list.next (list.prev node) none) list.prev none xs none =
      subst (λ o. Seg (store_if list.next o none) list.prev none xs none) (sym p) t in
    let last : list.back ≡ some node = v.back ∙ last_or-append xs (node ∷ []) none in
    rw (list_remove_back, last)
      (
        refl,
        record {
          front = ap₂ unless_null p v.front ∙ front-left xs node;
          back = p;
          linked = t';
          distinct = subst NoDup whole d;
        },
      )
