-- ===== src/Sched/Ready.antt =====
-- kernel/tasks/sched.c: the search for a queue that may be selected.
use yjkos.Prelude.{
  ℕ, ◌≡◌, ◌≢◌, refl, sym, ap, Bool, true, false, ◌&&◌, not, List, [], ◌∷◌, ◌++◌, ◌==◌,
  if◌then◌else◌, Option, none, some, arith, ◌⊎◌, inl, inr,
}
use yjkos.Sched.{SchedQueue, is_current, has_threads, find_ready, from_current, update_queue}
use yjkos.Sched.Order.{NotAt-append, Distinct}

-- A queue that may be selected: another than the current one, with an opportunity and a thread.
abbrev pub Ready : Option ℕ → SchedQueue → Type 0
Ready current queue =
    (current ≢ some queue.address) × (queue.opportunities ≢ 0) × (queue.threads ≢ [])

abbrev pub Busy : Option ℕ → SchedQueue → Type 0
Busy current queue =
    (current ≡ some queue.address) ⊎ ((queue.opportunities ≡ 0) ⊎ (queue.threads ≡ []))

abbrev pub AllBusy : Option ℕ → List SchedQueue → Type 0
AllBusy current [] = Unit
AllBusy current (queue ∷ queues) = Busy current queue × AllBusy current queues

-- the first queue that may be selected
pub data Finds (current : Option ℕ) (queues : List SchedQueue) : Option SchedQueue → Type 0 where
  none_ready : AllBusy current queues → Finds current queues none
  first_ready :
      (xs ys : List SchedQueue) (queue : SchedQueue)
      → queues ≡ xs ++ queue ∷ ys
      → AllBusy current xs
      → Ready current queue
      → Finds current queues (some queue)

module _ (q : SchedQueue) where
  is_current-true : (current : Option ℕ) → is_current current q ≡ true → current ≡ some q.address
  is_current-true none e = cc
  is_current-true (some address) e = ap some (ground arith)

  is_current-false : (current : Option ℕ) → is_current current q ≡ false → current ≢ some q.address
  is_current-false none e = λ same. cc
  is_current-false (some address) e = λ same. let same' : address ≡ q.address = cc in ground arith

may_run-true :
    (n : ℕ) (threads : List ℕ)
    → (not (n == 0) && elim threads as (λ x. Bool) [ [] ↦ false | thread ∷ others ↦ true ]) ≡ true
    → (n ≢ 0) × (threads ≢ [])
may_run-true n [] e = absurd (ground arith)
may_run-true n (thread ∷ threads) e = ((λ z. ground arith), (λ same. cc))

may_run-false :
    (n : ℕ) (threads : List ℕ)
    → (not (n == 0) && elim threads as (λ x. Bool) [ [] ↦ false | thread ∷ others ↦ true ]) ≡ false
    → (n ≡ 0) ⊎ (threads ≡ [])
may_run-false n [] e = inr refl
may_run-false n (thread ∷ threads) e = inl (ground arith)

Finds-Busy :
    (current : Option ℕ) (q : SchedQueue) (queues : List SchedQueue) (o : Option SchedQueue)
    → Busy current q
    → Finds current queues o
    → Finds current (q ∷ queues) o
Finds-Busy current q queues o busy (none_ready all) = none_ready (busy, all)
Finds-Busy current q queues o busy (first_ready xs ys queue e all ready) =
    first_ready (q ∷ xs) ys queue (ap (λ l. q ∷ l) e) (busy, all) ready

Finds-test :
    (current : Option ℕ) (q : SchedQueue) (queues : List SchedQueue) (a b : Bool)
    (rest : Option SchedQueue)
    → is_current current q ≡ a
    → (not (q.opportunities == 0) && has_threads q) ≡ b
    → Finds current queues rest
    → Finds current (q ∷ queues) (if a then rest else if b then some q else rest)
Finds-test current q queues true b rest c m f =
    Finds-Busy current q queues rest (inl (is_current-true q current c)) f
Finds-test current q queues false true rest c m f =
    let (some_left, some_thread) = may_run-true q.opportunities q.threads m in
    first_ready [] queues q refl tt (is_current-false q current c, some_left, some_thread)
Finds-test current q queues false false rest c m f =
    Finds-Busy current q queues rest (inr (may_run-false q.opportunities q.threads m)) f

pub find_ready-Finds :
    (current : Option ℕ) (queues : List SchedQueue)
    → Finds current queues (find_ready current queues)
unfolding find_ready
find_ready-Finds current [] = none_ready tt
find_ready-Finds current (q ∷ queues) =
    Finds-test current q queues (is_current current q) (not (q.opportunities == 0) && has_threads q)
      (find_ready current queues) refl refl (find_ready-Finds current queues)

-- the queues from the current one on
pub data From (current : Option ℕ) (queues : List SchedQueue) : List SchedQueue → Type 0 where
  not_there : From current queues []
  there :
      (pre post : List SchedQueue) (cur : SchedQueue)
      → queues ≡ pre ++ cur ∷ post
      → current ≡ some cur.address
      → From current queues (cur ∷ post)

pub from_current-From :
    (current : Option ℕ) (queues : List SchedQueue)
    → From current queues (from_current current queues)
unfolding from_current
from_current-From none queues = not_there
from_current-From (some address) [] = not_there
from_current-From (some address) (q ∷ queues) =
    go (q.address == address) refl (from_current (some address) queues)
      (from_current-From (some address) queues)
  where
    go :
        (b : Bool)
        → (q.address == address) ≡ b
        → (rest : List SchedQueue) → From (some address) queues rest
        → From (some address) (q ∷ queues) (if b then q ∷ queues else rest)
    go true e rest f = there [] queues q refl (is_current-true q (some address) e)
    go false e rest not_there = not_there
    go false e rest (there pre post cur e' same) =
        there (q ∷ pre) post cur (ap (λ l. q ∷ l) e') same

-- An address of a queue is found at that queue.
module _ (queue : SchedQueue) where
  apart :
      (x : SchedQueue) (xs ys : List SchedQueue)
      → Distinct (x ∷ xs ++ queue ∷ ys)
      → (x.address == queue.address) ≡ false
  apart x xs ys (n, d) =
      let ne : x.address ≢ queue.address = λ e. NotAt-append x.address xs queue ys n (sym e) in
      ground arith

  pub from_current-split :
      (xs ys : List SchedQueue)
      → Distinct (xs ++ queue ∷ ys)
      → from_current (some queue.address) (xs ++ queue ∷ ys) ≡ queue ∷ ys
  unfolding from_current
  from_current-split [] ys d =
      let same : (queue.address == queue.address) ≡ true = ground arith in rw same refl
  from_current-split (x ∷ xs) ys d = rw (apart x xs ys d) (from_current-split xs ys d.1)

  pub update_queue-split :
      (change : SchedQueue → SchedQueue) (xs ys : List SchedQueue)
      → Distinct (xs ++ queue ∷ ys)
      → update_queue queue.address change (xs ++ queue ∷ ys) ≡ xs ++ change queue ∷ ys
  unfolding update_queue
  update_queue-split change [] ys d =
      let same : (queue.address == queue.address) ≡ true = ground arith in rw same refl
  update_queue-split change (x ∷ xs) ys d =
      rw (apart x xs ys d) (ap (λ l. x ∷ l) (update_queue-split change xs ys d.1))
