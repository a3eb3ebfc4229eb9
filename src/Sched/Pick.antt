-- ===== src/Sched/Pick.antt =====
-- kernel/tasks/sched.c: the queue that is selected next, and the opportunities of the queues.
use mathlib.Core.Path.{subst}
use yjkos.Prelude.{
  ℕ, ◌+◌, ◌-◌, ◌≡◌, refl, sym, ap, ◌∙◌, true, List, [], ◌∷◌, ◌++◌, ◌==◌, if◌then◌else◌, Option,
  none, some, arith, append_assoc, length,
}
use yjkos.Sched.{
  SchedQueue, Sched, reset_loop, reset_queues, find_ready, from_current, ready_queue,
  take_opportunity, update_queue, pick_next_queue,
}
use yjkos.Sched.Order.{Distinct}
use yjkos.Sched.Ready.{
  Ready, AllBusy, Finds, none_ready, first_ready, find_ready-Finds, From, not_there, there,
  from_current-From, from_current-split, update_queue-split,
}

-- Each queue with a count that rises by one.
abbrev pub Counted : ℕ → List SchedQueue → List SchedQueue → Type 0
Counted n [] out = out ≡ []
Counted n (queue ∷ queues) [] = ⊥
Counted n (queue ∷ queues) (queue' ∷ out) =
    (queue' ≡ record queue { opportunities = n }) × Counted (n + 1) queues out

reset_loop-Counted : (n : ℕ) (queues : List SchedQueue) → Counted n queues (reset_loop n queues)
unfolding reset_loop
reset_loop-Counted n [] = refl
reset_loop-Counted n (queue ∷ queues) = (refl, reset_loop-Counted (n + 1) queues)

-- What `pick_next_queue` returns and leaves. The search starts at the current queue, and goes on at
-- the front.
pub data Picked (s : Sched) : Option ℕ × Sched → Type 0 where
  from_there :
      (pre post xs ys : List SchedQueue) (cur queue : SchedQueue) (out : List SchedQueue)
      → s.queues ≡ pre ++ cur ∷ post
      → s.current ≡ some cur.address
      → cur ∷ post ≡ xs ++ queue ∷ ys
      → AllBusy s.current xs
      → Ready s.current queue
      → out ≡ pre ++ xs ++ record queue { opportunities = queue.opportunities - 1 } ∷ ys
      → Picked s (some queue.address, record { queues = out; current = some queue.address })
  from_front :
      (xs ys : List SchedQueue) (queue : SchedQueue) (out : List SchedQueue)
      → s.queues ≡ xs ++ queue ∷ ys
      → ((pre post : List SchedQueue) (cur : SchedQueue)
          → s.queues ≡ pre ++ cur ∷ post
          → s.current ≡ some cur.address
          → AllBusy s.current post)
      → AllBusy s.current xs
      → Ready s.current queue
      → out ≡ xs ++ record queue { opportunities = queue.opportunities - 1 } ∷ ys
      → Picked s (some queue.address, record { queues = out; current = some queue.address })
  after_reset :
      (first : SchedQueue) (others counted : List SchedQueue)
      → s.queues ≡ first ∷ others
      → AllBusy s.current s.queues
      → Counted 2 others counted
      → Picked s (
        some first.address,
        record {
          queues = record first { opportunities = 0 } ∷ counted;
          current = some first.address;
        },
      )
  no_queue : s.queues ≡ [] → Picked s (none, s)

take_opportunity-split :
    (s : Sched) (xs ys : List SchedQueue) (queue : SchedQueue)
    → Distinct s.queues
    → s.queues ≡ xs ++ queue ∷ ys
    → (take_opportunity queue s).1.queues
      ≡ xs ++ record queue { opportunities = queue.opportunities - 1 } ∷ ys
take_opportunity-split s xs ys queue d e =
    let change = λ (q : SchedQueue). record q { opportunities = q.opportunities - 1 } in
    ap (update_queue queue.address change) e
    ∙ update_queue-split queue change xs ys (subst Distinct e d)

module _ (s : Sched) (d : Distinct s.queues) where
  -- no queue after the current one may be selected
  after-AllBusy :
      AllBusy s.current (from_current s.current s.queues)
      → (pre post : List SchedQueue) (cur : SchedQueue) → s.queues ≡ pre ++ cur ∷ post
      → s.current ≡ some cur.address
      → AllBusy s.current post
  after-AllBusy all pre post cur e same =
      let whole : from_current s.current s.queues ≡ cur ∷ post =
        ap (λ c. from_current c s.queues) same
        ∙ ap (from_current (some cur.address)) e
        ∙ from_current-split cur pre post (subst Distinct e d) in
      let all' : AllBusy s.current (cur ∷ post) = subst (AllBusy s.current) whole all in all'.1

  -- the choice
  chosen : Option SchedQueue → Option ℕ × Sched
  chosen (some queue) = take_opportunity queue s
  chosen none = elim s.queues as (λ x. Option ℕ × Sched) [
    | [] ↦ (none, s)
    | first ∷ others ↦ take_opportunity first (record s { queues = reset_queues s.queues })
  ]

  none-Picked :
      (queues : List SchedQueue)
      → s.queues ≡ queues
      → AllBusy s.current s.queues
      → Picked s (elim queues as (λ x. Option ℕ × Sched) [
        | [] ↦ (none, s)
        | first ∷ others ↦ take_opportunity first (record s { queues = reset_queues s.queues })
      ])
  unfolding reset_queues reset_loop update_queue
  none-Picked [] e all = no_queue e
  none-Picked (first ∷ others) e all =
      let same : (first.address == first.address) ≡ true = ground arith in
      let out : update_queue first.address (λ q. record q { opportunities = q.opportunities - 1 })
            (reset_queues s.queues)
          ≡ record first { opportunities = 0 } ∷ reset_loop 2 others =
        ap
          (λ queues.
            update_queue first.address (λ q. record q { opportunities = q.opportunities - 1 })
              (reset_queues queues))
          e
        ∙ ap
            (λ b.
              if b
              then record first { opportunities = 0 } ∷ reset_loop 2 others
              else record first { opportunities = 1 }
                ∷ update_queue first.address (λ q. record q { opportunities = q.opportunities - 1 })
                    (reset_loop 2 others))
            same in
      subst
        (λ (queues : List SchedQueue).
          Picked s (some first.address, record { queues = queues; current = some first.address }))
        (sym out)
        (after_reset first others (reset_loop 2 others) e all (reset_loop-Counted 2 others))

  front-Picked :
      (o : Option SchedQueue)
      → AllBusy s.current (from_current s.current s.queues)
      → Finds s.current s.queues o
      → Picked s (chosen o)
  unfolding chosen
  front-Picked none busy (none_ready all) = none-Picked s.queues refl all
  front-Picked (some q) busy (first_ready xs ys queue e all may) =
      from_front xs ys q _ e (after-AllBusy busy) all may (take_opportunity-split s xs ys q d e)

  there-Picked :
      (r : List SchedQueue) (q : SchedQueue)
      → From s.current s.queues r
      → Finds s.current r (some q)
      → Picked s (chosen (some q))
  unfolding chosen
  there-Picked r q not_there (first_ready [] ys queue e all may) = cc
  there-Picked r q not_there (first_ready (x ∷ xs) ys queue e all may) = cc
  there-Picked r q (there pre post cur e same) (first_ready xs ys queue e' all may) =
      let whole : s.queues ≡ (pre ++ xs) ++ q ∷ ys =
        e ∙ ap (λ l. pre ++ l) e' ∙ sym (append_assoc pre xs (q ∷ ys)) in
      from_there pre post xs ys cur q _ e same e' all may
        (take_opportunity-split s (pre ++ xs) ys q d whole)

  -- For queues at different addresses, pick_next_queue selects the first queue from the current one
  -- on, or else the first of all, that is not the current one and has an opportunity and a thread,
  -- makes it the current one and takes one of its opportunities; if there is none it resets the
  -- opportunities, so that each queue has one more than there are queues before it, and does the
  -- same with the first queue, whatever it has; if there is no queue it changes nothing.
  pub pick_next_queue-Picked : Picked s (pick_next_queue s)
  unfolding pick_next_queue ready_queue chosen
  pick_next_queue-Picked =
      go (find_ready s.current (from_current s.current s.queues))
        (find_ready-Finds s.current (from_current s.current s.queues))
    where
      go :
          (o : Option SchedQueue)
          → Finds s.current (from_current s.current s.queues) o
          → Picked s (
              chosen (elim o as (λ x. Option SchedQueue) [
                | some queue ↦ some queue
                | none ↦ find_ready s.current s.queues
              ]))
      go none (none_ready all) =
          front-Picked (find_ready s.current s.queues) all (find_ready-Finds s.current s.queues)
      go (some q) f =
          there-Picked (from_current s.current s.queues) q (from_current-From s.current s.queues) f

reset_loop-append :
    (n : ℕ) (xs ys : List SchedQueue)
    → reset_loop n (xs ++ ys) ≡ reset_loop n xs ++ reset_loop (n + length xs) ys
unfolding reset_loop
reset_loop-append n [] ys = ap (λ k. reset_loop k ys) (omega arith)
reset_loop-append n (x ∷ xs) ys =
    ap (λ l. record x { opportunities = n } ∷ l)
      (reset_loop-append (n + 1) xs ys
        ∙ ap (λ k. reset_loop (n + 1) xs ++ reset_loop k ys) (omega arith))

-- reset_queues gives each queue one opportunity more than there are queues before it, so that the
-- first queue, whose priority has the lowest value, gets one.
pub reset_queues-opportunities :
    (xs ys : List SchedQueue) (queue : SchedQueue)
    → reset_queues (xs ++ queue ∷ ys)
      ≡ reset_queues xs
        ++ record queue { opportunities = length xs + 1 } ∷ reset_loop (length xs + 2) ys
unfolding reset_queues reset_loop
reset_queues-opportunities xs ys queue =
    reset_loop-append 1 xs (queue ∷ ys)
    ∙ ap (λ k. reset_loop 1 xs ++ record queue { opportunities = k } ∷ reset_loop (k + 1) ys)
        (omega arith)
    ∙ ap (λ k. reset_loop 1 xs ++ record queue { opportunities = length xs + 1 } ∷ reset_loop k ys)
        (omega arith)
