-- ===== src/Sched.antt =====
-- kernel/tasks/sched.c: the queues of threads by priority. The lists are the sequences of their
-- items, front first (LinkedList). A thread and a queue are known by their addresses, numbers; a
-- priority, which is an `int8_t`, is moved up by 128. What waits for mutexes is left out.
pub mod Order
pub mod Ready
pub mod Pick
mod Tests
use yjkos.Prelude.{
  ℕ, ◌+◌, ◌-◌, Bool, true, false, ◌&&◌, not, List, [], ◌∷◌, ◌++◌, ltb, ◌==◌, if◌then◌else◌, Option,
  none, some, Errno, enomem, ◌⊎◌, inl, inr, Run, ok, panicked,
}

-- `struct sched_queue`
pub record SchedQueue : Type 0 where
  pub address : ℕ
  pub priority : ℕ
  pub opportunities : ℕ
  pub threads : List ℕ

-- `s_queues` and `s_current_queue_node`
pub record Sched : Type 0 where
  pub queues : List SchedQueue
  pub current : Option ℕ

-- What the loop of `get_queue` finds: the queue, or the queue after which a new one goes.
pub data Place : Type 0 where
  at_queue : SchedQueue → Place
  after_queue : SchedQueue → Place
  at_front : Place

-- the loop of `get_queue`
unfoldable pub find_place : ℕ → List SchedQueue → Place
find_place priority [] = at_front
find_place priority (queue ∷ []) =
    if queue.priority == priority then at_queue queue else after_queue queue
find_place priority (queue ∷ next_queue ∷ queues) =
    let rest = find_place priority (next_queue ∷ queues) in
    if queue.priority == priority
    then at_queue queue
    else if ltb queue.priority priority && ltb priority next_queue.priority
    then after_queue queue
    else rest

-- `list_insert_after` on the sequence
unfoldable pub insert_after : ℕ → SchedQueue → List SchedQueue → List SchedQueue
insert_after address new [] = []
insert_after address new (queue ∷ queues) =
    let rest = insert_after address new queues in
    if queue.address == address then queue ∷ new ∷ queues else queue ∷ rest

-- `should_insert_front`
abbrev pub goes_front : ℕ → List SchedQueue → Bool
goes_front priority [] = false
goes_front priority (queue ∷ queues) = ltb priority queue.priority

abbrev pub new_queue : ℕ → ℕ → SchedQueue
new_queue address priority = record {
  address = address;
  priority = priority;
  opportunities = 0;
  threads = [];
}

-- `address` is what heap_alloc returns.
unfoldable pub alloc_queue :
    Option ℕ → Option SchedQueue → ℕ → List SchedQueue → Option (SchedQueue × List SchedQueue)
alloc_queue none after priority queues = none
alloc_queue (some address) none priority queues =
    let new = new_queue address priority in some (new, new ∷ queues)
alloc_queue (some address) (some after) priority queues =
    let new = new_queue address priority in some (new, insert_after after.address new queues)

-- the end of `get_queue`
unfoldable pub at_place :
    Option ℕ → ℕ → List SchedQueue → Place → Option (SchedQueue × List SchedQueue)
at_place address priority queues (at_queue queue) = some (queue, queues)
at_place address priority queues (after_queue queue) =
    alloc_queue address (some queue) priority queues
at_place address priority queues at_front = alloc_queue address none priority queues

unfoldable pub get_queue : Option ℕ → ℕ → List SchedQueue → Option (SchedQueue × List SchedQueue)
get_queue address priority queues =
    at_place address priority queues
      (if goes_front priority queues then at_front else find_place priority queues)

-- a change of the queue at an address
unfoldable pub update_queue : ℕ → (SchedQueue → SchedQueue) → List SchedQueue → List SchedQueue
update_queue address change [] = []
update_queue address change (queue ∷ queues) =
    let rest = update_queue address change queues in
    if queue.address == address then change queue ∷ queues else queue ∷ rest

unfoldable pub sched_queue : Option ℕ → ℕ → ℕ → Sched → Errno ⊎ Sched
sched_queue address thread priority s = elim (get_queue address priority s.queues) [
  | none ↦ inl enomem
  | some (queue, queues) ↦ inr (record s {
    queues = update_queue queue.address (λ q. record q { threads = thread ∷ q.threads }) queues;
  })
]

-- the loop of `reset_queues`
unfoldable pub reset_loop : ℕ → List SchedQueue → List SchedQueue
reset_loop opportunities [] = []
reset_loop opportunities (queue ∷ queues) =
    record queue { opportunities = opportunities } ∷ reset_loop (opportunities + 1) queues

unfoldable pub reset_queues : List SchedQueue → List SchedQueue
reset_queues queues = reset_loop 1 queues

abbrev pub is_current : Option ℕ → SchedQueue → Bool
is_current none queue = false
is_current (some address) queue = queue.address == address

abbrev pub has_threads : SchedQueue → Bool
has_threads queue = elim queue.threads [ [] ↦ false | thread ∷ threads ↦ true ]

-- The inner loop of `pick_next_queue`: the first queue that may run, but for the current one.
unfoldable pub find_ready : Option ℕ → List SchedQueue → Option SchedQueue
find_ready current [] = none
find_ready current (queue ∷ queues) =
    let rest = find_ready current queues in
    if is_current current queue
    then rest
    else if not (queue.opportunities == 0) && has_threads queue
    then some queue
    else rest

-- the queues from the current one on
unfoldable pub from_current : Option ℕ → List SchedQueue → List SchedQueue
from_current none queues = []
from_current (some address) [] = []
from_current (some address) (queue ∷ queues) =
    let rest = from_current (some address) queues in
    if queue.address == address then queue ∷ queues else rest

-- the choice of `pick_next_queue` before it resets
unfoldable pub ready_queue : Sched → Option SchedQueue
ready_queue s = elim (find_ready s.current (from_current s.current s.queues)) [
  | some queue ↦ some queue
  | none ↦ find_ready s.current s.queues
]

abbrev pub take_opportunity : SchedQueue → Sched → Option ℕ × Sched
take_opportunity queue s = (
  some queue.address,
  record s {
    queues =
        update_queue queue.address (λ q. record q { opportunities = q.opportunities - 1 }) s.queues;
    current = some queue.address;
  },
)

unfoldable pub pick_next_queue : Sched → Option ℕ × Sched
pick_next_queue s = elim (ready_queue s) [
  | some queue ↦ take_opportunity queue s
  | none ↦ elim s.queues [
    | [] ↦ (none, s)
    | first ∷ others ↦ take_opportunity first (record s { queues = reset_queues s.queues })
  ]
]
