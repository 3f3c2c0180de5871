-- ===== src/Thread/Deferral.antt =====
-- The count of deferred events that a thread keeps, against the events in its queue.
use stm32app.Base.{
  ℕ, ◌+◌, ◌^◌, ◌≤◌, ◌<◌, ◌≡◌, refl, ◌≢◌, ◌⊎◌, Bool, true, false, Option, none, some, List, [], ◌∷◌,
  ◌++◌, length, arith, inl, inr,
}
use native.Mathlib.Decide.{ℕ_discrete}
use stm32app.Signal.{Status, waiting, received, addressed, handled, deferred, finalized}
use stm32app.Buffer.{u32}
use stm32app.Event.{Event, is_deferred}
use stm32app.Thread.{Thread, Rtos, Env, Kernel, put_queue}
use stm32app.Thread.Requeue.{Requeued, put_back, requeue_by, event_requeue, event_queue_shift}

abbrev pub bit : Bool → ℕ
bit true = 1
bit false = 0

-- The deferred events of a queue.
abbrev pub deferred_in : List Event → ℕ
deferred_in [] = 0
deferred_in (e ∷ es) = bit (is_deferred e.status) + deferred_in es

deferred_in-append : (xs ys : List Event) → deferred_in (xs ++ ys) ≡ deferred_in xs + deferred_in ys
deferred_in-append [] ys = omega arith
deferred_in-append (x ∷ xs) ys = omega (arith, deferred_in-append xs ys)

deferred_in-le : (es : List Event) → deferred_in es ≤ length es
deferred_in-le [] = omega arith
deferred_in-le (e ∷ es) = ground (arith, deferred_in-le es)

-- What FreeRTOS documents of its queues: a send to the back appends, unless the queue is full, and a
-- receive takes the front.
pub record IsFifo (k : Kernel) : Type 0 where
  pub send_back :
      (e : Event) (es : List Event)
      → (k.send false e es ≡ none) ⊎ (k.send false e es ≡ some (es ++ (e ∷ [])))
  pub receive_empty : k.receive [] ≡ none
  pub receive_front : (e : Event) (es : List Event) → k.receive (e ∷ es) ≡ some (e, es)

-- The count after requeueing, against the queue by then; `slack` is what it is too large by.
abbrev pub Counts : {W : Type 0} → Thread → ℕ → ℕ → Option (Requeued W) → Type 0
Counts t count slack none = ⊥
Counts t count slack (some q) =
    u32 (count + q.added) ≡ deferred_in (q.env.rtos.queues t.queue) + slack

module _ {W : Type 0} (k : Kernel) (finalize : ℕ → Event → Env W → Option (Event × Env W))
    (law : IsFifo k) (t : Thread) (e : Event) (previous : Status) (v : Env W) (count : ℕ)
    (own : t.queue ≢ 0)
    (exact : count ≡ deferred_in (v.rtos.queues t.queue) + bit (is_deferred previous))
    (small : count < 2 ^ 31) where
  put_back-Counts :
      k.send false (record e { status = deferred }) (v.rtos.queues t.queue) ≢ none
      → Counts t count 0 (some (put_back k finalize t.queue t e previous v))
  unfolding put_back
  put_back-Counts room = ground (
    arith,
    law.send_back (record e { status = deferred }) (v.rtos.queues t.queue),
    deferred_in-append (v.rtos.queues t.queue) (record e { status = deferred } ∷ []),
  )

  kept-Counts :
      (st : Status)
      → (st ≡ handled)
        ⊎ ((st ≡ deferred)
            ⊎ ((st ≡ addressed) ⊎ ((st ≡ received) × (is_deferred previous ≡ false))))
      → k.send false (record e { status = deferred }) (v.rtos.queues t.queue) ≢ none
      → Counts t count 0 (requeue_by k finalize st t.queue t e previous v)
  unfolding requeue_by
  kept-Counts handled st room = ground arith
  kept-Counts deferred st room = put_back-Counts room
  kept-Counts addressed st room = put_back-Counts room
  kept-Counts received st room = ground arith
  kept-Counts waiting st room = ground arith
  kept-Counts finalized st room = ground arith

  -- Where a thread keeps its own deferred events, its queue is first in, first out and has room,
  -- and the count, below 2 ^ 31, was exact before, the count stays exact for an event that is
  -- handled, deferred or left to be claimed, however it was before, and for one that is received
  -- for the first time.
  pub requeue-Counts :
      (e.status ≡ handled)
        ⊎ ((e.status ≡ deferred)
            ⊎ ((e.status ≡ addressed) ⊎ ((e.status ≡ received) × (is_deferred previous ≡ false))))
      → k.send false (record e { status = deferred }) (v.rtos.queues t.queue) ≢ none
      → Counts t count 0 (event_requeue k finalize t.queue t e previous v)
  unfolding event_requeue
  requeue-Counts st room = kept-Counts e.status st room

  -- Where the count was exact before, a deferred event that its listeners then receive without
  -- handling it leaves the queue and is still counted.
  pub received_miscounts :
      e.status ≡ received
      → previous ≡ deferred
      → Counts t count 1 (event_requeue k finalize t.queue t e previous v)
  unfolding event_requeue requeue_by
  received_miscounts h p = rw (h, requeue_by) (ground arith)

-- What a receive leaves of the queues: one of them is shorter, and all else is as before.
abbrev pub IsReceived : Thread → List Event → Rtos → Rtos → Type 0
IsReceived t es r r' =
    (r'.queues t.queue ≡ es)
    × ((q : ℕ) → q ≢ t.queue → r'.queues q ≡ r.queues q)
    × (r'.slots ≡ r.slots)

-- With an exact count, a thread whose queue is first in, first out leaves it alone just when all that
-- is in it is deferred, or it is empty; otherwise it takes the event at its front, which is no longer
-- in the queue, and leaves the other queues and the notifications as they are.
pub event_queue_shift_lem :
    (k : Kernel) (law : IsFifo k) (t : Thread) (r : Rtos)
    → t.queue ≢ 0
    → let count = deferred_in (r.queues t.queue) in
      ((count ≡ length (r.queues t.queue)) × (event_queue_shift k t count r ≡ none))
      ⊎ ((count ≢ length (r.queues t.queue))
          × ((e : Event) × (es : List Event) × (r' : Rtos) × (r.queues t.queue ≡ e ∷ es)
              × (event_queue_shift k t count r ≡ some (e, r'))
              × IsReceived t es r r'))
unfolding event_queue_shift
event_queue_shift_lem k law t r own = shift_cases (r.queues t.queue) refl
  where
    shift_cases :
        (q : List Event)
        → q ≡ r.queues t.queue
        → let count = deferred_in (r.queues t.queue) in
          ((count ≡ length (r.queues t.queue)) × (event_queue_shift k t count r ≡ none))
          ⊎ ((count ≢ length (r.queues t.queue))
              × ((e : Event) × (es : List Event) × (r' : Rtos) × (r.queues t.queue ≡ e ∷ es)
                  × (event_queue_shift k t count r ≡ some (e, r'))
                  × IsReceived t es r r'))
    shift_cases [] e = rw (← e) (inl (refl, ground (arith, law.receive_empty)))
    shift_cases (x ∷ xs) e = elim (ℕ_discrete (deferred_in (x ∷ xs)) (length (x ∷ xs))) [
      | yes all ↦ rw (← e) (inl (all, ground (arith, all, deferred_in-le xs)))
      | no left ↦ rw (← e) (
          inr (
            left,
            (
              x,
              xs,
              put_queue t.queue xs r,
              refl,
              ground (arith, left, law.receive_front x xs),
              (ground arith, λ q ne. ground (arith, ne), refl),
            ),
          ))
    ]
