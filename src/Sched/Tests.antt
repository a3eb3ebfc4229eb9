-- ===== src/Sched/Tests.antt =====
-- Runs of kernel/tasks/sched.c on queues of the priorities 10 and 20, in which thread 7 is queued.
use yjkos.Prelude.{◌≡◌, ◌++◌, refl, List, [], ◌∷◌, some, arith}
use yjkos.Sched.{
  SchedQueue, new_queue, get_queue, pick_next_queue, reset_queues, reset_loop, ready_queue,
  find_ready, from_current,
}
use yjkos.Sched.Order.{GetsQueue, get_queue-GetsQueue}
use yjkos.Sched.Pick.{reset_queues-opportunities, Picked, pick_next_queue-Picked}

abbrev first : SchedQueue
first = new_queue 1 10

abbrev second : SchedQueue
second = record (new_queue 2 20) { threads = 7 ∷ [] }

-- A queue with no thread is selected after a reset, although another has one.
empty_selected :
    (pick_next_queue (record { queues = first ∷ second ∷ []; current = some 2 })).0 ≡ some 1
unfolding pick_next_queue ready_queue find_ready from_current
empty_selected = refl

get_queue-GetsQueue_example :
    (queue : SchedQueue) × (out : List SchedQueue) × (get_queue (some 3) 15 (first ∷ second ∷ [])
      ≡ some (queue, out))
    × GetsQueue 15 (first ∷ second ∷ []) queue out
get_queue-GetsQueue_example =
    get_queue-GetsQueue 3 15 (first ∷ second ∷ []) (omega arith, tt)
      ((λ e. omega (arith, e), tt), (tt, tt))

pick_next_queue-Picked_example :
    Picked
      (record { queues = first ∷ second ∷ []; current = some 2 })
      (pick_next_queue (record { queues = first ∷ second ∷ []; current = some 2 }))
pick_next_queue-Picked_example =
    pick_next_queue-Picked (record { queues = first ∷ second ∷ []; current = some 2 })
      ((λ e. omega (arith, e), tt), (tt, tt))

reset_queues-opportunities_example :
    reset_queues ((first ∷ []) ++ second ∷ [])
    ≡ reset_queues (first ∷ []) ++ record second { opportunities = 2 } ∷ reset_loop 3 []
reset_queues-opportunities_example = reset_queues-opportunities (first ∷ []) [] second
