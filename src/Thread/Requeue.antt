-- ===== src/Thread/Requeue.antt =====
-- What becomes of an event once its listeners have seen it, and which event the thread takes next:
-- `actor_thread_event_requeue` and `actor_thread_event_queue_shift` of thread.c.
use stm32app.Base.{
  ℕ, ◌-◌, ◌^◌, false, not, ◌&&◌, Option, none, some, length, ltb, ◌==◌, if◌then◌else◌,
}
use stm32app.Signal.{Status, waiting, received, addressed, handled, deferred, finalized}
use stm32app.Event.{Event, is_alarm, is_deferred}
use stm32app.Thread.{Thread, Rtos, Env, Kernel, put_queue}

-- What requeueing leaves: the event, what is added to the count of deferred events as a size_t, the
-- queues and the world.
pub record Requeued (W : Type 0) : Type 0 where
  pub event : Event
  pub added : ℕ
  pub env : Env W

module _ {W : Type 0} (k : Kernel) (finalize : ℕ → Event → Env W → Option (Event × Env W)) where
  -- An event that a busy actor wants later. `target` is the handle of the catchup thread's queue.
  unfoldable pub put_back : ℕ → Thread → Event → Status → Env W → Requeued W
  put_back target t e previous v =
      let e' = record e { status = if target == t.queue then deferred else waiting } in
      if target == 0
      then record { event = e; added = 0; env = v }
      else elim (k.send false e' (v.rtos.queues target)) [
        | none ↦ record { event = e'; added = 0; env = v }
        | some es ↦ record {
          event = e';
          added = if is_deferred e'.status && not (is_deferred previous) then 1 else 0;
          env = record v { rtos = put_queue target es v.rtos };
        }
      ]

  unfoldable pub requeue_by : Status → ℕ → Thread → Event → Status → Env W → Option (Requeued W)
  requeue_by waiting target t e previous v =
      if is_alarm e.type
      then some (record { event = e; added = 0; env = v })
      else elim (finalize e.producer e v) [
        | none ↦ none
        | some (e', v') ↦ some (record { event = e'; added = 0; env = v' })
      ]
  requeue_by deferred target t e previous v = some (put_back target t e previous v)
  requeue_by addressed target t e previous v = some (put_back target t e previous v)
  requeue_by handled target t e previous v = some (record {
    event = e;
    added = if is_deferred previous && not (t.queue == 0) then 2 ^ 32 - 1 else 0;
    env = v;
  })
  requeue_by received target t e previous v = some (record { event = e; added = 0; env = v })
  requeue_by finalized target t e previous v = some (record { event = e; added = 0; env = v })

  unfoldable pub event_requeue : ℕ → Thread → Event → Status → Env W → Option (Requeued W)
  event_requeue target t e previous v = requeue_by e.status target t e previous v

-- `none` where there is nothing to take: the thread then waits.
unfoldable pub event_queue_shift : Kernel → Thread → ℕ → Rtos → Option (Event × Rtos)
event_queue_shift k t deferred_count r =
    if t.queue == 0
    then none
    else if ltb 0 deferred_count && deferred_count == length (r.queues t.queue)
    then none
    else elim (k.receive (r.queues t.queue)) [
      | none ↦ none
      | some (e, es) ↦ some (e, put_queue t.queue es r)
    ]
