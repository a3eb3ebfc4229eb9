-- ===== src/LinkedList/Tests.antt =====
-- Runs of kernel/lib/list.c on the nodes 10, 20 and 30.
use yjkos.Prelude.{◌+◌, ◌≡◌, refl, [], ◌∷◌, none, some, ok, ◌==◌, if◌then◌else◌}
use yjkos.LinkedList.{
  LinkedList, list_init, list_insert_front, list_insert_back, list_insert_after, list_remove_back,
  list_remove_node, list_get_data_or_null,
}
use yjkos.LinkedList.Segments.{IsList, NotIn}
use yjkos.LinkedList.Insert.{list_insert_front-IsList}
use yjkos.LinkedList.InsertAt.{list_insert_after-IsList}
use yjkos.LinkedList.Remove.{list_remove_node-IsList, list_remove_back-IsList}

abbrev zeros : LinkedList
zeros = record { front = none; back = none; next = λ p. none; prev = λ p. none; data_of = λ p. 0 }

-- 10 and 30, in this order
abbrev two : LinkedList
two = record {
  front = some 10;
  back = some 30;
  next = λ p. if p == 10 then some 30 else none;
  prev = λ p. if p == 30 then some 10 else none;
  data_of = λ p. p + 1;
}

two-IsList : IsList two (10 ∷ 30 ∷ [])
two-IsList = record {
  front = refl;
  back = refl;
  linked = (refl, refl, (refl, refl, tt));
  distinct = ((λ e. cc, tt), (tt, tt));
}

new_node : NotIn 20 (10 ∷ 30 ∷ [])
new_node = (λ e. cc, (λ e. cc, tt))

pushed :
    list_get_data_or_null
      (list_insert_back 20 7 (list_init zeros)).back
      (list_insert_back 20 7 (list_init zeros))
    ≡ ok 7
unfolding list_get_data_or_null list_insert_back list_init
pushed = refl

list_insert_front-IsList_example :
    IsList (list_insert_front 20 7 two) (20 ∷ 10 ∷ 30 ∷ [])
    × ((list_insert_front 20 7 two).data_of 20 ≡ 7)
list_insert_front-IsList_example =
    list_insert_front-IsList two (10 ∷ 30 ∷ []) 20 7 two-IsList new_node

list_insert_after-IsList_example :
    IsList (list_insert_after 10 20 7 two) (10 ∷ 20 ∷ 30 ∷ [])
    × ((list_insert_after 10 20 7 two).data_of 20 ≡ 7)
list_insert_after-IsList_example =
    list_insert_after-IsList two [] (30 ∷ []) 10 20 7 two-IsList new_node

list_remove_node-IsList_example : IsList (list_remove_node 10 two) (30 ∷ [])
list_remove_node-IsList_example = list_remove_node-IsList two [] (30 ∷ []) 10 two-IsList

list_remove_back-IsList_example :
    ((list_remove_back two).0 ≡ some 30) × IsList (list_remove_back two).1 (10 ∷ [])
list_remove_back-IsList_example = list_remove_back-IsList two (10 ∷ []) 30 two-IsList
