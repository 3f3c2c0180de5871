-- ===== src/Thread.antt =====
-- actor_rtos/src/actor/thread.h, and the part of thread.c that other actors call: schedules,
-- notifications and publishing. Queues and notification slots are FreeRTOS's, a parameter.
pub mod Dispatch
pub mod Requeue
pub mod Await
pub mod Execute
pub mod Creation
pub mod Deferral
pub mod Coverage
pub mod Wakeup
pub mod Routing
mod Tests
use stm32app.Base.{
  ℕ, zero, suc, ◌+◌, ◌-◌, ◌%◌, ◌^◌, Bool, true, false, not, ◌||◌, Option, none, some, List, [], ◌∷◌,
  length, get_elem?, set, ltb, ◌==◌, if◌then◌else◌, bit_and,
}
use stm32app.Event.{Event}

-- `catchup` is the thread whose deferred events the worker has to come back to, NULL if none.
pub record Worker : Type 0 where
  pub last_time : ℕ
  pub next_time : ℕ
  pub thread : ℕ
  pub actor : ℕ
  pub catchup : ℕ
  pub callback : ℕ

-- `worker_count` is the length of `workers`; `queue` is a handle, 0 where there is no queue.
pub record Thread : Type 0 where
  pub actor : ℕ
  pub last_time : ℕ
  pub current_time : ℕ
  pub next_time : ℕ
  pub task : ℕ
  pub queue : ℕ
  pub workers : List Worker
  pub flags : ℕ

-- What FreeRTOS keeps: the events in each queue, front first, and the value that waits in each
-- task's notification slot.
pub record Rtos : Type 0 where
  pub queues : ℕ → List Event
  pub slots : ℕ → Option ℕ

-- FreeRTOS and whatever else callbacks may change.
pub record Env (W : Type 0) : Type 0 where
  pub rtos : Rtos
  pub world : W

-- `xQueueGenericSend` without waiting, `xQueueReceive` without waiting, and `xTaskNotify` with the
-- value and whether it overwrites. The variants for interrupts have the same contract.
pub record Kernel : Type 0 where
  pub send : Bool → Event → List Event → Option (List Event)
  pub receive : List Event → Option (Event × List Event)
  pub notify : ℕ → Bool → Option ℕ → Bool × Option ℕ

abbrev pub never : ℕ
never = 2 ^ 32 - 1

abbrev pub max_sleep_time : ℕ
max_sleep_time = 60000

abbrev pub reschedule_value : ℕ
reschedule_value = 8

abbrev pub put_queue : ℕ → List Event → Rtos → Rtos
put_queue q es r = record r { queues = λ p. if p == q then es else r.queues p }

abbrev pub put_slot : ℕ → Option ℕ → Rtos → Rtos
put_slot t v r = record r { slots = λ p. if p == t then v else r.slots p }

-- The index of the first worker of the actor.
unfoldable pub worker_for : ℕ → List Worker → Option ℕ
worker_for actor [] = none
worker_for actor (w ∷ ws) =
    let rest = worker_for actor ws in
    if w.actor == actor then some 0 else elim rest [ none ↦ none | some i ↦ some (suc i) ]

abbrev pub set_worker : ℕ → Worker → Thread → Thread
set_worker i w t = record t { workers = set t.workers i w }

abbrev pub blockable_flag : ℕ
blockable_flag = 2

unfoldable pub is_blockable : Thread → Bool
is_blockable t = not (bit_and t.flags blockable_flag == 0)

module _ (k : Kernel) where
  unfoldable pub notify_generic : Thread → ℕ → Bool → Rtos → Bool × Rtos
  notify_generic t value overwrite r =
      let (done, slot) = k.notify value overwrite (r.slots t.task) in (done, put_slot t.task slot r)

  -- `address` is where the event stands, which goes into the notification slot.
  unfoldable pub publish_generic : Thread → Event → ℕ → Bool → Rtos → Bool × Rtos
  publish_generic t e address to_front r =
      if t.queue == 0
      then notify_generic t address true r
      else elim (k.send to_front e (r.queues t.queue)) [
        | none ↦ (false, r)
        | some es ↦ notify_generic t address true (put_queue t.queue es r)
      ]

  unfoldable pub schedule : Thread → ℕ → Rtos → Thread × Rtos
  schedule t time r =
      if ltb time t.next_time
      then (let (_, r') = notify_generic t reschedule_value false r in
          (record t { next_time = time }, r'))
      else (t, r)

  unfoldable pub worker_schedule : Thread → ℕ → ℕ → Rtos → Thread × Rtos
  worker_schedule t i time r = elim (get_elem? t.workers i) [
    | none ↦ (t, r)
    | some w ↦ schedule (set_worker i (record w { next_time = time }) t) time r
  ]

  -- `actor_thread_actor_schedule`: an actor without a worker on the thread is a NULL pointer.
  unfoldable pub actor_schedule : Thread → ℕ → ℕ → Rtos → Option (Thread × Rtos)
  actor_schedule t actor time r = elim (worker_for actor t.workers) [
    | none ↦ none
    | some i ↦ some (worker_schedule t i time r)
  ]
