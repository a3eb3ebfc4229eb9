-- ===== src/Queue/Operations.antt =====
-- The operations of kernel/lib/queue.c on the sequence of items.
use yjkos.Prelude.{
  ℕ, suc, ◌+◌, ◌-◌, ◌*◌, ◌≤◌, ◌<◌, ◌≡◌, ◌⊎◌, inl, inr, refl, ap, ap₂, ◌∙◌, Bool-cases, true, false,
  Option, none, some, List, [], ◌∷◌, ◌++◌, arith, ltb, ◌==◌, length, Run, ok, Errno, enomem,
}
use native.Mathlib.Decide.{dec_lt}
use yjkos.Queue.{
  Queue, copy_in, copy_out, queue_init, queue_is_full, queue_is_empty, queue_enqueue, queue_dequeue,
}
use yjkos.Queue.Fifo.{
  next, next-mod, count, slots, items, IsQueue, slots-copy_in, slots-suc, count-eq, count-facts,
}
use yjkos.Queue.Slots.{length-copy_in, copy_out-copy_in, slot_inside}

-- A queue that queue_init sets up in a buffer with room for at least one item is valid and has no
-- item.
pub queue_init-items :
    (buf : List ℕ) (size cap : ℕ)
    → 0 < cap
    → cap * size ≤ length buf
    → IsQueue (queue_init buf size cap) × (items (queue_init buf size cap) ≡ [])
unfolding queue_init items count queue_is_empty slots
queue_init-items buf size cap some_slot room =
    (record { enqueue_inside = some_slot; dequeue_inside = some_slot; room = room }, refl)

-- How `queue_enqueue` ends: the queue is full, or the item comes last.
pub data Enqueued (q : Queue) (item : List ℕ) (out : Run (Errno ⊎ Queue)) : Type 0 where
  full : count q ≡ q.cap → out ≡ ok (inl enomem) → Enqueued q item out
  enqueued :
      (q' : Queue)
      → count q < q.cap
      → out ≡ ok (inr q')
      → IsQueue q'
      → items q' ≡ items q ++ item ∷ []
      → Enqueued q item out

-- the queue with the item in its next slot
abbrev with_item : Queue → List ℕ → Queue
with_item q item = record q {
  buf = copy_in q.buf (q.enqueue_index * q.item_size) item;
  enqueue_index = next q.cap q.enqueue_index;
  last_was_enqueue = true;
}

module _ (q : Queue) (v : IsQueue q) (item : List ℕ) (same : length item ≡ q.item_size) where
  not_full-facts :
      queue_is_full q ≡ false
      → (count q < q.cap)
        × (q.dequeue_index ≤ q.enqueue_index → q.dequeue_index + count q ≡ q.enqueue_index)
        × (q.enqueue_index < q.dequeue_index → q.dequeue_index + count q ≡ q.enqueue_index + q.cap)
  unfolding queue_is_full
  not_full-facts h =
      let (ahead, behind, level) = count-facts q v in
      let lo = v.dequeue_inside in
      let hi = v.enqueue_inside in
      elim (dec_lt q.dequeue_index q.enqueue_index) [
        | yes p ↦ let e = ahead p in (omega arith, λ le. e, behind)
        | no p ↦ elim (dec_lt q.enqueue_index q.dequeue_index) [
          | yes p' ↦ let e = behind p' in (omega arith, λ le. omega arith, behind)
          | no p' ↦
              let e : count q ≡ 0 = ground (arith, level (omega arith)) in
              (omega arith, λ le. omega arith, behind)
        ]
      ]

  count-with_item : queue_is_full q ≡ false → count (with_item q item) ≡ suc (count q)
  count-with_item h =
      let (less, after, before) = not_full-facts h in
      let lo = v.dequeue_inside in
      let hi = v.enqueue_inside in
      elim (dec_lt q.enqueue_index q.dequeue_index) [
        | yes behind ↦
            let e = before behind in
            count-eq (with_item q item) (suc (count q)) (λ p. ground arith) (λ p. ground arith)
              (λ p. ground arith)
        | no ahead ↦
            let e = after (omega arith) in
            count-eq (with_item q item) (suc (count q)) (λ p. ground arith) (λ p. ground arith)
              (λ p. ground arith)
      ]

  items-with_item : queue_is_full q ≡ false → items (with_item q item) ≡ items q ++ item ∷ []
  unfolding items
  items-with_item h =
      let (less, after, before) = not_full-facts h in
      let lo = v.dequeue_inside in
      let hi = v.enqueue_inside in
      let at = q.enqueue_index * q.item_size in
      let buf' = copy_in q.buf at item in
      let fits : at + length item ≤ length q.buf =
        omega (arith, v.room, slot_inside q.enqueue_index q.cap q.item_size hi) in
      let last : copy_out buf' at q.item_size ≡ item =
        (rw same at (copy_out-copy_in q.buf at item fits)) in
      ap (slots buf' q.item_size q.cap q.dequeue_index) (count-with_item h)
      ∙ slots-suc buf' q.item_size q.cap q.enqueue_index q.dequeue_index (count q) lo after before
          hi
      ∙ ap₂ (λ xs x. xs ++ x ∷ [])
          (slots-copy_in q.buf q.item_size q.cap q.enqueue_index q.dequeue_index (count q) item same
            hi lo (λ p. omega (arith, before p)) (λ p. omega (arith, after p)))
          last

  with_item-IsQueue : IsQueue (with_item q item)
  with_item-IsQueue =
      let hi = v.enqueue_inside in
      record {
        enqueue_inside = ground arith;
        dequeue_inside = v.dequeue_inside;
        room = omega (arith, v.room, length-copy_in q.buf (q.enqueue_index * q.item_size) item);
      }

  full-count : queue_is_full q ≡ true → count q ≡ q.cap
  unfolding queue_is_full
  full-count h = let (ahead, behind, level) = count-facts q v in ground (arith, level)

  -- queue_enqueue of an item of the queue's size appends it to the sequence of items and keeps the
  -- queue valid, or returns -ENOMEM exactly if the count has reached the capacity.
  pub queue_enqueue-Enqueued : Enqueued q item (queue_enqueue q item q.item_size)
  unfolding queue_enqueue
  queue_enqueue-Enqueued =
      let sized : (q.item_size == q.item_size) ≡ true = ground arith in
      elim (Bool-cases (queue_is_full q)) [
        | inl h ↦ full (full-count h) (rw (sized, h) refl)
        | inr h ↦
            let hi = v.enqueue_inside in
            let (less, after, before) = not_full-facts h in
            let some_slot : (q.cap == 0) ≡ false = ground arith in
            let fits : ltb (length q.buf) (q.enqueue_index * q.item_size + q.item_size) ≡ false =
              (ground (arith, v.room, slot_inside q.enqueue_index q.cap q.item_size hi)) in
            enqueued (with_item q item) less
              (rw (sized, h, some_slot, fits, next-mod q.cap q.enqueue_index hi) refl)
              with_item-IsQueue (items-with_item h)
      ]

-- How `queue_dequeue` ends: the queue is empty, or its first item is taken.
pub data Dequeued (q : Queue) (out : Run (Option (List ℕ × Queue))) : Type 0 where
  empty : items q ≡ [] → out ≡ ok none → Dequeued q out
  dequeued :
      (item : List ℕ) (q' : Queue)
      → out ≡ ok (some (item, q'))
      → IsQueue q'
      → items q ≡ item ∷ items q'
      → Dequeued q out

abbrev without_item : Queue → Queue
without_item q = record q { dequeue_index = next q.cap q.dequeue_index; last_was_enqueue = false }

module _ (q : Queue) (v : IsQueue q) where
  count-without_item : queue_is_empty q ≡ false → count q ≡ suc (count (without_item q))
  unfolding queue_is_empty
  count-without_item h =
      let (ahead, behind, level) = count-facts q v in
      let lo = v.dequeue_inside in
      let hi = v.enqueue_inside in
      elim (dec_lt q.dequeue_index q.enqueue_index) [
        | yes p ↦
            let e = ahead p in
            omega (
              arith,
              count-eq (without_item q) (count q - 1) (λ p. ground arith) (λ p. ground arith)
                  (λ p. ground arith),
            )
        | no p ↦ elim (dec_lt q.enqueue_index q.dequeue_index) [
          | yes p' ↦
              let e = behind p' in
              omega (
                arith,
                count-eq (without_item q) (count q - 1) (λ p. ground arith) (λ p. ground arith)
                    (λ p. ground arith),
              )
          | no p' ↦
              let e : count q ≡ q.cap = ground (arith, level (omega arith)) in
              omega (
                arith,
                count-eq (without_item q) (count q - 1) (λ p. ground arith) (λ p. ground arith)
                    (λ p. ground arith),
              )
        ]
      ]

  empty-count : queue_is_empty q ≡ true → count q ≡ 0
  unfolding queue_is_empty
  empty-count h = let (ahead, behind, level) = count-facts q v in ground (arith, level)

  -- queue_dequeue takes the first item of the sequence and keeps the queue valid, or returns false
  -- if there is no item.
  pub queue_dequeue-Dequeued : Dequeued q (queue_dequeue q q.item_size)
  unfolding queue_dequeue items slots
  queue_dequeue-Dequeued =
      let sized : (q.item_size == q.item_size) ≡ true = ground arith in
      elim (Bool-cases (queue_is_empty q)) [
        | inl h ↦ empty (rw (empty-count h) refl) (rw (sized, h) refl)
        | inr h ↦
            let lo = v.dequeue_inside in
            let some_slot : (q.cap == 0) ≡ false = ground arith in
            let fits : ltb (length q.buf) (q.dequeue_index * q.item_size + q.item_size) ≡ false =
              (ground (arith, v.room, slot_inside q.dequeue_index q.cap q.item_size lo)) in
            dequeued (copy_out q.buf (q.dequeue_index * q.item_size) q.item_size) (without_item q)
              (rw (sized, h, some_slot, fits, next-mod q.cap q.dequeue_index lo) refl)
              (record {
                enqueue_inside = v.enqueue_inside;
                dequeue_inside = ground arith;
                room = v.room;
              })
              (rw (count-without_item h) refl)
      ]
