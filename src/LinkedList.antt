-- ===== src/LinkedList.antt =====
-- kernel/lib/list.c: doubly linked lists whose nodes are in structures of the callers. A node is
-- known by its address, a number, and `none` is a null pointer; the fields of all nodes are
-- functions of the address, which a list shares with its `front` and `back`.
pub mod Segments
pub mod Splice
pub mod Insert
pub mod InsertAt
pub mod Remove
mod Tests
use yjkos.Prelude.{ℕ, Bool, true, false, Option, none, some, Run, ok, panicked, ◌==◌, if◌then◌else◌}

-- `struct list`, and the fields of `struct list_node` at each address
pub record LinkedList : Type 0 where
  pub front : Option ℕ
  pub back : Option ℕ
  pub next : ℕ → Option ℕ
  pub prev : ℕ → Option ℕ
  pub data_of : ℕ → ℕ

-- `p->field = v`
abbrev pub store {ℓ} : {A : Type ℓ} → (ℕ → A) → ℕ → A → ℕ → A
store field p v a = if a == p then v else field a

-- `if (p) { p->field = v; }`
abbrev pub store_if {ℓ} : {A : Type ℓ} → (ℕ → A) → Option ℕ → A → ℕ → A
store_if field none v = field
store_if field (some p) v = store field p v

-- `o == p` for a pointer that can be null
abbrev pub points_to : Option ℕ → ℕ → Bool
points_to none p = false
points_to (some a) p = a == p

-- `o` unless it is null
abbrev pub or_node : Option ℕ → ℕ → Option ℕ
or_node none node = some node
or_node (some a) node = some a

unfoldable pub list_init : LinkedList → LinkedList
list_init self = record self { front = none; back = none }

unfoldable pub list_insert_front : ℕ → ℕ → LinkedList → LinkedList
list_insert_front node data_ptr list = record {
  front = some node;
  back = or_node list.back node;
  next = store list.next node list.front;
  prev = store (store_if list.prev list.front (some node)) node none;
  data_of = store list.data_of node data_ptr;
}

unfoldable pub list_insert_back : ℕ → ℕ → LinkedList → LinkedList
list_insert_back node data_ptr list = record {
  front = or_node list.front node;
  back = some node;
  next = store (store_if list.next list.back (some node)) node none;
  prev = store list.prev node list.back;
  data_of = store list.data_of node data_ptr;
}

unfoldable pub list_insert_after : ℕ → ℕ → ℕ → LinkedList → LinkedList
list_insert_after after node data_ptr list =
    let next = store list.next node (list.next after) in
    let prev = store list.prev node (some after) in
    record {
      front = list.front;
      back = if points_to list.back after then some node else list.back;
      next = store next after (some node);
      prev = store_if prev (next node) (some node);
      data_of = store list.data_of node data_ptr;
    }

unfoldable pub list_insert_before : ℕ → ℕ → ℕ → LinkedList → LinkedList
list_insert_before before node data_ptr list =
    let next = store list.next node (some before) in
    let prev = store list.prev node (list.prev before) in
    record {
      front = if points_to list.front before then some node else list.front;
      back = list.back;
      next = store_if next (prev node) (some node);
      prev = store prev before (some node);
      data_of = store list.data_of node data_ptr;
    }

unfoldable pub list_remove_front : LinkedList → Option ℕ × LinkedList
list_remove_front list = elim list.front [
  | none ↦ (none, list)
  | some removed ↦
      let front = list.next removed in
      (
        some removed,
        record list {
          front = front;
          back = elim front [ none ↦ none | some p ↦ list.back ];
          prev = store_if list.prev front none;
        },
      )
]

unfoldable pub list_remove_back : LinkedList → Option ℕ × LinkedList
list_remove_back list = elim list.back [
  | none ↦ (none, list)
  | some removed ↦
      let back = list.prev removed in
      (
        some removed,
        record list {
          back = back;
          front = elim back [ none ↦ none | some p ↦ list.front ];
          next = store_if list.next back none;
        },
      )
]

-- `(front == nullptr) || (back == nullptr)`: both become null.
unfoldable pub ends : Option ℕ → Option ℕ → Option ℕ × Option ℕ
ends none back = (none, none)
ends (some f) none = (none, none)
ends (some f) (some b) = (some f, some b)

unfoldable pub list_remove_node : ℕ → LinkedList → LinkedList
list_remove_node node list =
    let next = store_if list.next (list.prev node) (list.next node) in
    let prev = store_if list.prev (next node) (list.prev node) in
    let front = if points_to list.front node then next node else list.front in
    let back = if points_to list.back node then prev node else list.back in
    let both = ends front back in
    record list { front = both.0; back = both.1; next = next; prev = prev }

-- The data of a node; a null pointer there, which is 0, fails the assertion.
unfoldable pub list_get_data_or_null : Option ℕ → LinkedList → Run ℕ
list_get_data_or_null none list = ok 0
list_get_data_or_null (some node) list =
    if list.data_of node == 0 then panicked else ok (list.data_of node)
