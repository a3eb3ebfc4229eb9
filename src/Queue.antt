-- ===== src/Queue.antt =====
-- kernel/lib/queue.c: a queue of items of one size in a ring of bytes. The buffer is a list of
-- bytes and the index of its first byte is 0; a copy in or out of its bounds, like a failed
-- assertion, is a panic. The result of `queue_peek` is the index that its pointer points at.
pub mod Slots
pub mod Fifo
pub mod Operations
mod Tests
use yjkos.Prelude.{
  ℕ, zero, suc, ◌+◌, ◌*◌, ◌%◌, Bool, true, false, ◌&&◌, not, Option, none, some, List, [], ◌∷◌, ltb,
  ◌==◌, if◌then◌else◌, length, set, get_or, Run, ok, panicked, ◌>>=◌, Errno, enomem, ◌⊎◌, inl, inr,
}

-- `struct queue`
pub record Queue : Type 0 where
  pub buf : List ℕ
  pub enqueue_index : ℕ
  pub dequeue_index : ℕ
  pub item_size : ℕ
  pub cap : ℕ
  pub last_was_enqueue : Bool

-- `vmemcpy` to and from the buffer
unfoldable pub copy_in : List ℕ → ℕ → List ℕ → List ℕ
copy_in buf at [] = buf
copy_in buf at (b ∷ item) = copy_in (set buf at b) (suc at) item

unfoldable pub copy_out : List ℕ → ℕ → ℕ → List ℕ
copy_out buf at zero = []
copy_out buf at (suc n) = get_or buf at 0 ∷ copy_out buf (suc at) n

unfoldable pub queue_init : List ℕ → ℕ → ℕ → Queue
queue_init buf itemsize cap = record {
  buf = buf;
  enqueue_index = 0;
  dequeue_index = 0;
  item_size = itemsize;
  cap = cap;
  last_was_enqueue = false;
}

unfoldable pub queue_is_full : Queue → Bool
queue_is_full self = self.enqueue_index == self.dequeue_index && self.last_was_enqueue

unfoldable pub queue_is_empty : Queue → Bool
queue_is_empty self = self.enqueue_index == self.dequeue_index && not self.last_was_enqueue

-- `__queue_enqueue` of the bytes `item` (`data`); a division by a capacity of 0 is a panic.
unfoldable pub queue_enqueue : Queue → List ℕ → ℕ → Run (Errno ⊎ Queue)
queue_enqueue self item itemsize =
    if itemsize == self.item_size
    then if queue_is_full self
      then ok (inl enomem)
      else if self.cap == 0
      then panicked
      else if ltb (length self.buf) (self.enqueue_index * itemsize + itemsize)
      then panicked
      else ok (
          inr (record self {
            buf = copy_in self.buf (self.enqueue_index * itemsize) item;
            enqueue_index = (self.enqueue_index + 1) % self.cap;
            last_was_enqueue = true;
          }))
    else panicked

-- `__queue_dequeue`; `none` is the result `false`, and `some` has the bytes for `out_buf`.
unfoldable pub queue_dequeue : Queue → ℕ → Run (Option (List ℕ × Queue))
queue_dequeue self itemsize =
    if itemsize == self.item_size
    then if queue_is_empty self
      then ok none
      else if self.cap == 0
      then panicked
      else if ltb (length self.buf) (self.dequeue_index * itemsize + itemsize)
      then panicked
      else ok (
          some (
            copy_out self.buf (self.dequeue_index * itemsize) itemsize,
            record self {
              dequeue_index = (self.dequeue_index + 1) % self.cap;
              last_was_enqueue = false;
            },
          ))
    else panicked

unfoldable pub queue_peek : Queue → ℕ → Run (Option ℕ)
queue_peek self itemsize =
    if itemsize == self.item_size
    then if queue_is_empty self then ok none else ok (some (self.dequeue_index * itemsize))
    else panicked
