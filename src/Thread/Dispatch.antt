-- ===== src/Thread/Dispatch.antt =====
-- Who hears of an event: `actor_thread_event_dispatch` of actor_rtos/src/actor/thread.c, over any
-- state `W` that the worker callbacks change.
use stm32app.Base.{
  ℕ, zero, suc, Bool, true, false, not, ◌&&◌, ◌||◌, Option, none, some, length, get_elem?, ltb, leb,
  ◌==◌, if◌then◌else◌,
}
use stm32app.Signal.{Signal, ok, is_busy, Status, waiting, received}
use stm32app.Event.{Event, EventType, thread_start, thread_stop, thread_alarm, is_alarm}
use stm32app.Thread.{Worker, Thread, never, worker_for, set_worker}

abbrev pub is_start : EventType → Bool
is_start thread_start = true
is_start _ = false

abbrev pub is_waiting : Status → Bool
is_waiting waiting = true
is_waiting _ = false

-- `actor_thread_should_notify_actor`. `subscribed` is `actor_event_is_subscribed`.
abbrev pub notifies : EventType → Bool → Bool → Bool → Bool
notifies thread_stop due targeted subscribed = true
notifies thread_alarm due targeted subscribed = due
notifies _ due targeted subscribed = if targeted then true else subscribed

unfoldable pub should_notify_actor : (ℕ → Event → Bool) → Thread → Event → Worker → Bool
should_notify_actor subscribed t e w =
    notifies e.type (leb w.next_time t.current_time) (e.consumer == w.actor) (subscribed w.actor e)

-- What is left once worker callbacks have run. `W` is whatever else they may change.
pub record Dispatched (W : Type 0) : Type 0 where
  pub thread : Thread
  pub event : Event
  pub world : W
  pub signal : Signal

-- `if (event->type == ACTOR_EVENT_THREAD_ALARM || …THREAD_START) worker->next_time = -1;`
unfoldable pub before_callback : ℕ → Worker → Thread → Event → Thread
before_callback i w t e =
    if is_alarm e.type || is_start e.type
    then set_worker i (record w { next_time = never }) t
    else t

-- `worker->last_time = thread->current_time;` and the event marked as received.
unfoldable pub after_callback : {W : Type 0} → ℕ → Dispatched W → Dispatched W
after_callback i d =
    let t = d.thread in
    let e = d.event in
    record d {
      thread = elim (get_elem? t.workers i) [
        | none ↦ t
        | some w ↦ set_worker i (record w { last_time = t.current_time }) t
      ];
      event = if is_waiting e.status then record e { status = received } else e;
    }

-- The thread takes over an earlier wake-up time of the worker.
unfoldable pub adopt_time : ℕ → Thread → Thread
adopt_time i t = elim (get_elem? t.workers i) [
  | none ↦ t
  | some w ↦
      if not (w.next_time == 0) && ltb w.next_time t.next_time
      then record t { next_time = w.next_time }
      else t
]

-- `if (signal == ACTOR_SIGNAL_BUSY) worker->catchup = thread;`
unfoldable pub note_busy : {W : Type 0} → ℕ → ℕ → Dispatched W → Dispatched W
note_busy self i d =
    let t = d.thread in
    if is_busy d.signal
    then record d {
      thread = elim (get_elem? t.workers i) [
        | none ↦ t
        | some w ↦ set_worker i (record w { catchup = self }) t
      ];
    }
    else d

module _ {W : Type 0} (subscribed : ℕ → Event → Bool)
    (callback : ℕ → Thread → Event → W → Dispatched W) where
  -- The callback of worker `i`, between what thread.c does before and after it.
  unfoldable pub run_callback : ℕ → Worker → Thread → Event → W → Dispatched W
  run_callback i w t e world = after_callback i (callback i (before_callback i w t e) e world)

  unfoldable pub actor_dispatch : ℕ → Worker → Thread → Event → W → Dispatched W
  actor_dispatch i w t e world =
      let d =
        if should_notify_actor subscribed t e w
        then run_callback i w t e world
        else record { thread = t; event = e; world = world; signal = ok } in
      record d { thread = adopt_time i d.thread }

  -- The body of the loop of `actor_thread_event_dispatch` at index `i`; an addressed event goes to
  -- its consumer's worker, and a consumer without one is a NULL pointer.
  unfoldable pub dispatch_at : ℕ → ℕ → Dispatched W → Option (Dispatched W)
  dispatch_at self i d =
      let t = d.thread in
      let e = d.event in
      elim (if e.consumer == 0 then some i else worker_for e.consumer t.workers) [
        | none ↦ none
        | some j ↦ elim (get_elem? t.workers j) [
          | none ↦ none
          | some w ↦ some (note_busy self j (actor_dispatch j w t e d.world))
        ]
      ]

  -- The rounds left, from index `i` on; it stops once the event has a consumer.
  unfoldable pub dispatch_from : ℕ → ℕ → ℕ → Dispatched W → Option (Dispatched W)
  dispatch_from self zero i d = some d
  dispatch_from self (suc n) i d = elim (dispatch_at self i d) [
    | none ↦ none
    | some d' ↦
        let rest = dispatch_from self n (suc i) d' in
        if d'.event.consumer == 0 then rest else some d'
  ]

  unfoldable pub event_dispatch : ℕ → Thread → Event → W → Option (Dispatched W)
  event_dispatch self t e world =
      dispatch_from self (length t.workers) 0
        (record { thread = t; event = e; world = world; signal = ok })
