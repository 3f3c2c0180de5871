-- ===== src/Thread/Await.antt =====
-- How a thread sleeps and what wakes it: `actor_thread_event_await` of thread.c.
use stm32app.Base.{
  ℕ, ◌+◌, ◌-◌, ◌^◌, Bool, Option, none, some, List, [], ◌∷◌, ltb, leb, ◌==◌, if◌then◌else◌,
}
use stm32app.Buffer.{u32}
use stm32app.Event.{Event, thread_alarm, zero_event}
use stm32app.Thread.{Thread, Kernel, max_sleep_time}

-- One return of `ulTaskNotifyTake`: the value taken, and the events that are in the thread's queue by
-- then.
pub record Wake : Type 0 where
  pub value : ℕ
  pub queue : List Event

-- Above 50 a value is the address of an event.
abbrev pub is_address : ℕ → Bool
is_address v = ltb 50 v

-- The time that the thread asks to sleep: `int32_t timeout`, negative ones turned into 0.
unfoldable pub sleep_time : Thread → ℕ
sleep_time t =
    let timeout = u32 (2 ^ 32 + t.next_time - t.current_time) in
    if ltb timeout (2 ^ 31) then timeout else 0

-- What ends the wait: the signal, the event to go on with, the queue, and the returns not used.
pub record Woken : Type 0 where
  pub signal : ℕ
  pub event : Event
  pub queue : List Event

-- A wake-up by the schedule. `root` is the thread's root actor.
abbrev pub alarm_event : ℕ → Event
alarm_event root = record zero_event { producer = root; type = thread_alarm }

-- Times after waking up at `now`.
unfoldable pub wake_times : ℕ → Thread → Thread
wake_times now t = record t {
  last_time = t.current_time;
  current_time = now;
  next_time = if leb t.next_time now then u32 (now + max_sleep_time) else t.next_time;
}

module _ (k : Kernel) (root : ℕ) (mailbox : ℕ → Event) where
  -- The `switch` on one value; `none` goes back to sleep. `mailbox` reads an event by its address.
  unfoldable pub await_step : Thread → Event → Wake → Option Woken
  await_step t e w =
      if w.value == 0
      then some (record { signal = 0; event = alarm_event root; queue = w.queue })
      else if w.value == 8
      then none
      else if is_address w.value
      then (if t.queue == 0
          then some (record { signal = 0; event = mailbox w.value; queue = w.queue })
          else elim (k.receive w.queue) [
            | none ↦ none
            | some (e', es) ↦ some (record { signal = 0; event = e'; queue = es })
          ])
      else some (record { signal = w.value; event = e; queue = w.queue })

  -- The thread sleeps until a return of the kernel ends the wait; `none` is asleep to the end.
  unfoldable pub await_loop : Thread → Event → List Wake → Option Woken
  await_loop t e [] = none
  await_loop t e (w ∷ ws) = elim (await_step t e w) [ none ↦ await_loop t e ws | some d ↦ some d ]

  unfoldable pub event_await : Thread → Event → List Wake → ℕ → Option (Woken × Thread)
  event_await t e ws now = elim (await_loop t e ws) [
    | none ↦ none
    | some d ↦ some (d, wake_times now t)
  ]
