-- ===== src/Queue/Tests.antt =====
-- Runs of kernel/lib/queue.c on a queue of two slots of two bytes, with an item in the second.
use yjkos.Prelude.{refl, true, [], ◌∷◌, arith}
use yjkos.Queue.{Queue, queue_enqueue, queue_dequeue}
use yjkos.Queue.Fifo.{IsQueue}
use yjkos.Queue.Operations.{Enqueued, Dequeued, queue_enqueue-Enqueued, queue_dequeue-Dequeued}

abbrev some_queue : Queue
some_queue = record {
  buf = 1 ∷ 2 ∷ 3 ∷ 4 ∷ [];
  enqueue_index = 0;
  dequeue_index = 1;
  item_size = 2;
  cap = 2;
  last_was_enqueue = true;
}

some_queue-IsQueue : IsQueue some_queue
some_queue-IsQueue = record {
  enqueue_inside = omega arith;
  dequeue_inside = omega arith;
  room = omega arith;
}

queue_enqueue-Enqueued_example :
    Enqueued some_queue (8 ∷ 9 ∷ []) (queue_enqueue some_queue (8 ∷ 9 ∷ []) 2)
queue_enqueue-Enqueued_example =
    queue_enqueue-Enqueued some_queue some_queue-IsQueue (8 ∷ 9 ∷ []) refl

queue_dequeue-Dequeued_example : Dequeued some_queue (queue_dequeue some_queue 2)
queue_dequeue-Dequeued_example = queue_dequeue-Dequeued some_queue some_queue-IsQueue
