-- ===== src/Thread/Execute.antt =====
-- The task of a thread: `actor_thread_execute` of thread.c, a round at a time.
use stm32app.Base.{ℕ, ◌+◌, Bool, Option, none, some, List}
use stm32app.Buffer.{u32}
use stm32app.Event.{Event}
use stm32app.Thread.{Thread, Env, Kernel, max_sleep_time, put_queue}
use stm32app.Thread.Dispatch.{Dispatched, event_dispatch}
use stm32app.Thread.Requeue.{event_requeue, event_queue_shift}
use stm32app.Thread.Await.{Wake, alarm_event, event_await}

-- The locals and the objects of `actor_thread_execute`.
pub record Loop (W : Type 0) : Type 0 where
  pub thread : Thread
  pub event : Event
  pub deferred_count : ℕ
  pub env : Env W

-- Before the loop, at time `now`.
unfoldable pub execute_start : {W : Type 0} → Thread → ℕ → ℕ → Env W → Loop W
execute_start t now root v = record {
  thread = record t { current_time = now; last_time = now; next_time = u32 (now + max_sleep_time) };
  event = alarm_event root;
  deferred_count = 0;
  env = v;
}

module _ {W : Type 0} (k : Kernel) (root self target : ℕ) (mailbox : ℕ → Event)
    (subscribed : ℕ → Event → Bool) (callback : ℕ → Thread → Event → Env W → Dispatched (Env W))
    (finalize : ℕ → Event → Env W → Option (Event × Env W)) where
  -- Dispatching and requeueing, the first half of a round.
  unfoldable pub process : Loop W → Option (Loop W)
  process l = elim (event_dispatch subscribed callback self l.thread l.event l.env) [
    | none ↦ none
    | some d ↦ elim (event_requeue k finalize target d.thread d.event l.event.status d.world) [
      | none ↦ none
      | some q ↦ some (record {
        thread = d.thread;
        event = q.event;
        deferred_count = u32 (l.deferred_count + q.added);
        env = q.env;
      })
    ]
  ]

  -- The second half: the next event from the queue, or from a wait.
  unfoldable pub advance_event : List Wake → ℕ → Loop W → Option (Loop W)
  advance_event ws now l = elim (event_queue_shift k l.thread l.deferred_count l.env.rtos) [
    | some (e, r) ↦ some (record l { event = e; env = record (l.env) { rtos = r } })
    | none ↦ elim (event_await k root mailbox l.thread l.event ws now) [
      | none ↦ none
      | some (d, t) ↦ some (record l {
        thread = t;
        event = d.event;
        env = record (l.env) { rtos = put_queue l.thread.queue d.queue l.env.rtos };
      })
    ]
  ]

  -- One round of `while (true)`.
  unfoldable pub execute_round : List Wake → ℕ → Loop W → Option (Loop W)
  execute_round ws now l = elim (process l) [ none ↦ none | some l' ↦ advance_event ws now l' ]
