-- ===== src/Sched/Order.antt =====
-- kernel/tasks/sched.c: the queues stay in the order of their priorities.
use yjkos.Prelude.{
  ℕ, ◌<◌, ◌≡◌, ◌≢◌, inl, inr, refl, sym, ap, ◌∙◌, Bool, true, false, Bool-cases, ◌&&◌, List, [],
  ◌∷◌, ◌++◌, ltb, ltb→lt, ◌==◌, if◌then◌else◌, some, arith, append_assoc,
}
use mathlib.Core.Path.{subst}
use yjkos.Sched.{
  SchedQueue, Place, at_queue, after_queue, at_front, find_place, insert_after, new_queue, at_place,
  alloc_queue, get_queue,
}

-- Priorities rise strictly.
abbrev pub IsSorted : List SchedQueue → Type 0
IsSorted [] = Unit
IsSorted (queue ∷ []) = Unit
IsSorted (queue ∷ next_queue ∷ queues) =
    (queue.priority < next_queue.priority) × IsSorted (next_queue ∷ queues)

-- No queue has the address.
abbrev pub NotAt : ℕ → List SchedQueue → Type 0
NotAt address [] = Unit
NotAt address (queue ∷ queues) = (queue.address ≢ address) × NotAt address queues

abbrev pub Distinct : List SchedQueue → Type 0
Distinct [] = Unit
Distinct (queue ∷ queues) = NotAt queue.address queues × Distinct queues

-- What `get_queue` returns: a queue of the list, or a new one in its place.
pub data GetsQueue (priority : ℕ) (queues : List SchedQueue) (queue : SchedQueue)
    (out : List SchedQueue) : Type 0 where
  found :
      (xs ys : List SchedQueue)
      → queues ≡ xs ++ queue ∷ ys
      → out ≡ queues
      → queue.priority ≡ priority
      → GetsQueue priority queues queue out
  inserted :
      (xs ys : List SchedQueue)
      → queues ≡ xs ++ ys
      → out ≡ xs ++ queue ∷ ys
      → queue.priority ≡ priority
      → queue.threads ≡ []
      → IsSorted out
      → GetsQueue priority queues queue out

-- where a loop from a queue of at most the priority ends
data Places (priority : ℕ) (queues : List SchedQueue) : Place → Type 0 where
  at :
      (xs ys : List SchedQueue) (queue : SchedQueue)
      → queues ≡ xs ++ queue ∷ ys
      → queue.priority ≡ priority
      → Places priority queues (at_queue queue)
  after :
      (xs ys : List SchedQueue) (queue : SchedQueue)
      → queues ≡ xs ++ queue ∷ ys
      → ((new : SchedQueue) → new.priority ≡ priority → IsSorted (xs ++ queue ∷ new ∷ ys))
      → Places priority queues (after_queue queue)

abbrev first_priority : List SchedQueue → ℕ
first_priority [] = 0
first_priority (queue ∷ queues) = queue.priority

-- a queue is put before a longer list
Places-cons :
    (priority : ℕ) (q r : SchedQueue) (queues : List SchedQueue) (place : Place)
    → q.priority < r.priority
    → Places priority (r ∷ queues) place
    → Places priority (q ∷ r ∷ queues) place
Places-cons priority q r queues place lt (at xs ys queue e p) =
    at (q ∷ xs) ys queue (ap (λ l. q ∷ l) e) p
Places-cons priority q r queues place lt (after [] ys queue e sorted) =
    after (q ∷ []) ys queue (ap (λ l. q ∷ l) e)
      (λ new p. (omega (arith, ap first_priority e), sorted new p))
Places-cons priority q r queues place lt (after (x ∷ xs) ys queue e sorted) =
    after (q ∷ x ∷ xs) ys queue (ap (λ l. q ∷ l) e)
      (λ new p. (omega (arith, ap first_priority e), sorted new p))

skip-Places :
    {priority : ℕ} {queues : List SchedQueue} (a b : Bool)
    → b ≡ false
    → (place rest : Place) → Places priority queues rest
    → Places priority queues (if a && b then place else rest)
skip-Places true false e place rest p = p
skip-Places false false e place rest p = p
skip-Places a true e place rest p = cc

find_place-Places :
    (priority : ℕ) (first : SchedQueue) (queues : List SchedQueue)
    → IsSorted (first ∷ queues)
    → ltb priority first.priority ≡ false
    → Places priority (first ∷ queues) (find_place priority (first ∷ queues))
unfolding find_place
find_place-Places priority first [] s not_less = elim (Bool-cases (first.priority == priority)) [
  | inl h ↦ rw h (at [] [] first refl (ground arith))
  | inr h ↦ rw h (after [] [] first refl (λ new p. (ground arith, tt)))
]
find_place-Places priority first (r ∷ queues) (lt, s) not_less =
    elim (Bool-cases (first.priority == priority)) [
      | inl h ↦ rw h (at [] (r ∷ queues) first refl (ground arith))
      | inr h ↦ elim (Bool-cases (ltb priority r.priority)) [
        | inl less ↦
            let more : ltb first.priority priority ≡ true = ground arith in
            rw (h, more, less)
              (after [] (r ∷ queues) first refl (λ new p. (ground arith, (ground arith, s))))
        | inr more ↦
            let rest = find_place priority (r ∷ queues) in
            rw h (
              skip-Places (ltb first.priority priority) (ltb priority r.priority) more
                (after_queue first) rest
                (Places-cons priority first r queues rest lt
                  (find_place-Places priority r queues s more)))
      ]
    ]

pub NotAt-append :
    (address : ℕ) (xs : List SchedQueue) (queue : SchedQueue) (ys : List SchedQueue)
    → NotAt address (xs ++ queue ∷ ys)
    → queue.address ≢ address
NotAt-append address [] queue ys n = n.0
NotAt-append address (x ∷ xs) queue ys n = NotAt-append address xs queue ys n.1

insert_after-split :
    (queue new : SchedQueue) (xs ys : List SchedQueue)
    → Distinct (xs ++ queue ∷ ys)
    → insert_after queue.address new (xs ++ queue ∷ ys) ≡ xs ++ queue ∷ new ∷ ys
unfolding insert_after
insert_after-split queue new [] ys d =
    let same : (queue.address == queue.address) ≡ true = ground arith in rw same refl
insert_after-split queue new (x ∷ xs) ys (n, d) =
    let apart : x.address ≢ queue.address = λ e. NotAt-append x.address xs queue ys n (sym e) in
    let other : (x.address == queue.address) ≡ false = ground arith in
    rw other (ap (λ l. x ∷ l) (insert_after-split queue new xs ys d))

placed :
    (address priority : ℕ) (queues : List SchedQueue)
    → Distinct queues
    → (place : Place) → Places priority queues place
    → (queue : SchedQueue) × (out : List SchedQueue) × (at_place
          (some address)
          priority
          queues
          place
        ≡ some (queue, out))
      × GetsQueue priority queues queue out
unfolding at_place alloc_queue
placed address priority queues d place (at xs ys queue e p) =
    (queue, queues, refl, found xs ys e refl p)
placed address priority queues d place (after xs ys queue e sorted) =
    let new = new_queue address priority in
    let split = insert_after-split queue new xs ys (subst Distinct e d) in
    let out = ap (insert_after queue.address new) e ∙ split in
    (
      new,
      insert_after queue.address new queues,
      refl,
      inserted (xs ++ queue ∷ []) ys (e ∙ sym (append_assoc xs (queue ∷ []) ys))
          (out ∙ sym (append_assoc xs (queue ∷ []) (new ∷ ys))) refl refl
          (subst IsSorted (sym out) (sorted new refl)),
    )

-- For queues in the strict order of their priorities, at different addresses, and if the heap has
-- memory, get_queue returns a queue of the given priority: one of the list, which it leaves as it
-- is, or a new one without threads, which it puts where the list stays in that order.
pub get_queue-GetsQueue :
    (address priority : ℕ) (queues : List SchedQueue)
    → IsSorted queues
    → Distinct queues
    → (queue : SchedQueue) × (out : List SchedQueue) × (get_queue (some address) priority queues
        ≡ some (queue, out))
      × GetsQueue priority queues queue out
unfolding get_queue find_place at_place alloc_queue
get_queue-GetsQueue address priority [] s d =
    let new = new_queue address priority in
    (new, new ∷ [], refl, inserted [] [] refl refl refl refl tt)
get_queue-GetsQueue address priority (first ∷ queues) s d = go (ltb priority first.priority) refl
  where
    go :
        (b : Bool)
        → ltb priority first.priority ≡ b
        → (queue : SchedQueue) × (out : List SchedQueue) × (at_place
              (some address)
              priority
              (first ∷ queues)
              (if b then at_front else find_place priority (first ∷ queues))
            ≡ some (queue, out))
          × GetsQueue priority (first ∷ queues) queue out
    go true h =
        let new = new_queue address priority in
        (
          new,
          new ∷ first ∷ queues,
          refl,
          inserted [] (first ∷ queues) refl refl refl refl (ltb→lt priority first.priority h, s),
        )
    go false h =
        placed address priority (first ∷ queues) d (find_place priority (first ∷ queues))
          (find_place-Places priority first queues s h)
