-- ===== src/Queue/Fifo.antt =====
-- The queue as a sequence of items, first in, first out.
use yjkos.Prelude.{
  ℕ, zero, suc, ◌+◌, ◌-◌, ◌*◌, ◌%◌, ◌≤◌, ◌<◌, ◌≡◌, inl, inr, refl, ap, ap₂, ◌∙◌, Bool-cases, List,
  [], ◌∷◌, ◌++◌, arith, ltb, ◌==◌, if◌then◌else◌, length,
}
use native.Mathlib.Decide.{dec_lt, ℕ_discrete}
use native.Mathlib.Nat.{mod-eq_of_lt, mod_self}
use yjkos.Queue.{Queue, copy_in, copy_out, queue_is_empty}
use yjkos.Queue.Slots.{copy_out-copy_in_apart, slots_apart}

abbrev pub next : ℕ → ℕ → ℕ
next cap i = if i + 1 == cap then 0 else i + 1

pub next-mod : (cap i : ℕ) → i < cap → (i + 1) % cap ≡ next cap i
next-mod cap i h = elim (ℕ_discrete (i + 1) cap) [
  | yes e ↦ ap (λ t. t % cap) e ∙ mod_self cap ∙ ground arith
  | no ne ↦ mod-eq_of_lt (omega arith) ∙ ground arith
]

-- how many items the indices and the flag stand for
unfoldable pub count : Queue → ℕ
count q =
    if ltb q.dequeue_index q.enqueue_index
    then q.enqueue_index - q.dequeue_index
    else if queue_is_empty q
    then 0
    else q.enqueue_index + q.cap - q.dequeue_index

-- the items in `n` slots, from slot `i` on
unfoldable pub slots : List ℕ → ℕ → ℕ → ℕ → ℕ → List (List ℕ)
slots buf size cap i zero = []
slots buf size cap i (suc n) = copy_out buf (i * size) size ∷ slots buf size cap (next cap i) n

-- the items, the oldest first
unfoldable pub items : Queue → List (List ℕ)
items q = slots q.buf q.item_size q.cap q.dequeue_index (count q)

-- The indices lie in the ring, and the ring in the buffer.
pub record IsQueue (q : Queue) : Type 0 where
  pub enqueue_inside : q.enqueue_index < q.cap
  pub dequeue_inside : q.dequeue_index < q.cap
  pub room : q.cap * q.item_size ≤ length q.buf

-- A write to a slot past the last one leaves the items.
pub slots-copy_in :
    (buf : List ℕ) (size cap e i n : ℕ) (item : List ℕ)
    → length item ≡ size
    → e < cap
    → i < cap
    → (e < i → n + i ≤ e + cap)
    → (i ≤ e → n + i ≤ e)
    → slots (copy_in buf (e * size) item) size cap i n ≡ slots buf size cap i n
unfolding slots
slots-copy_in buf size cap e i zero item same he hi before after = refl
slots-copy_in buf size cap e i (suc n) item same he hi before after =
    ap₂ ◌∷◌
      (copy_out-copy_in_apart buf (e * size) item (i * size) size
        (rw same (slots_apart i e size (λ eq. omega (arith, after (omega arith))))))
      (slots-copy_in buf size cap e (next cap i) n item same he (ground arith) (λ h. ground arith)
        (λ h. ground arith))

-- One slot more at the end.
pub slots-suc :
    (buf : List ℕ) (size cap e i n : ℕ)
    → i < cap
    → (i ≤ e → i + n ≡ e)
    → (e < i → i + n ≡ e + cap)
    → e < cap
    → slots buf size cap i (suc n) ≡ slots buf size cap i n ++ copy_out buf (e * size) size ∷ []
unfolding slots
slots-suc buf size cap e i zero hi after before he = elim (dec_lt e i) [
  | yes p ↦ absurd (omega (arith, before p))
  | no p ↦ let same : i ≡ e = omega (arith, after (omega arith)) in rw same refl
]
slots-suc buf size cap e i (suc n) hi after before he =
    ap (λ s. copy_out buf (i * size) size ∷ s)
      (slots-suc buf size cap e (next cap i) n (ground arith) (λ h. ground arith)
        (λ h. ground arith) he)

-- A count that the indices give.
pub count-eq :
    (q : Queue) (n : ℕ)
    → (q.dequeue_index < q.enqueue_index → n ≡ q.enqueue_index - q.dequeue_index)
    → (q.enqueue_index < q.dequeue_index → n ≡ q.enqueue_index + q.cap - q.dequeue_index)
    → (q.enqueue_index ≡ q.dequeue_index → n ≡ (if q.last_was_enqueue then q.cap else 0))
    → count q ≡ n
unfolding count queue_is_empty
count-eq q n a b c = elim (dec_lt q.dequeue_index q.enqueue_index) [
  | yes p ↦ ground (arith, a p)
  | no p ↦ elim (dec_lt q.enqueue_index q.dequeue_index) [
    | yes p' ↦ ground (arith, b p')
    | no p' ↦ elim (Bool-cases q.last_was_enqueue) [
      | inl h ↦ ground (arith, c (omega arith))
      | inr h ↦ ground (arith, c (omega arith))
    ]
  ]
]

-- What the count is worth between the indices.
pub count-facts :
    (q : Queue)
    → IsQueue q
    → (q.dequeue_index < q.enqueue_index → q.dequeue_index + count q ≡ q.enqueue_index)
      × (q.enqueue_index < q.dequeue_index → q.dequeue_index + count q ≡ q.enqueue_index + q.cap)
      × (q.enqueue_index ≡ q.dequeue_index → count q ≡ (if q.last_was_enqueue then q.cap else 0))
unfolding count queue_is_empty
count-facts q v =
    let lo = v.dequeue_inside in
    (
      λ h. ground arith,
      λ h. ground arith,
      λ h. elim (Bool-cases q.last_was_enqueue) [ inl f ↦ ground arith | inr f ↦ ground arith ],
    )
