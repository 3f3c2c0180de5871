-- ===== src/Intake.antt =====
-- Where events and jobs meet: the functions of actor_rtos/src/actor/event.c that start a job for an
-- event, pass an event or a signal to a job, and publish events, and `actor_job_wait` of job.c.
pub mod Starting
mod Tests
use stm32app.Base.{ℕ, Bool, false, not, ◌&&◌, Option, none, some, List, ◌==◌, if◌then◌else◌}
use stm32app.Signal.{Signal, ok, busy, is_ok, Status, waiting, signal_of_status, signal_value}
use stm32app.Store.{Store, System}
use stm32app.Event.{Event, EventType, Accepted, set_status, accept_and_process}
use stm32app.Job.{Job, JobSystem, Cell, execute}
use stm32app.Thread.{
  Thread, Rtos, Kernel, never, worker_for, set_worker, is_blockable, actor_schedule,
  publish_generic,
}
use stm32app.Thread.Await.{Wake, Woken, event_await}
use stm32app.Base.{get_elem?}

-- What these functions read and write: the pointer at `job_slot` and the job there, the event, the
-- buffers, and the thread with FreeRTOS's part of it.
pub record Desk : Type 0 where
  pub slot : ℕ
  pub job : Job
  pub event : Event
  pub store : Store
  pub thread : Thread
  pub rtos : Rtos

module _ (y : System) (k : Kernel) where
  -- `actor_thread_actor_schedule(thread, actor, thread->current_time)`.
  unfoldable pub schedule_now : ℕ → Desk → Option Desk
  schedule_now actor d = elim (actor_schedule k d.thread actor d.thread.current_time d.rtos) [
    | none ↦ none
    | some (t, r) ↦ some (record d { thread = t; rtos = r })
  ]

  -- `*job_slot = actor_job_alloc(actor)` where the slot is empty; `alloc` gives the address and the
  -- memory there.
  unfoldable pub claim_slot : (ℕ → ℕ × Job) → ℕ → Desk → Desk
  claim_slot alloc actor d =
      let (p, j) = alloc actor in if d.slot == 0 then record d { slot = p; job = j } else d

  -- The job takes the event if it has none yet. `self` is the thread's address.
  unfoldable pub start_job : ℕ → ℕ → ℕ → Status → Status → Desk → Option (Signal × Desk)
  start_job actor self handler ready_status busy_status d =
      elim (accept_and_process y actor d.event (some d.job.inciting_event) ready_status busy_status
        none d.store) [
          | none ↦ none
          | some a ↦
              let d' = record d {
                event = a.event;
                store = a.store;
                job = record (d.job) { inciting_event = a.slot };
              } in
              if is_ok a.signal
              then elim (schedule_now actor (record d' {
                job = record (d'.job) { actor = actor; thread = self; handler = handler };
              })) [ none ↦ none | some d'' ↦ some (a.signal, d'') ]
              else some (a.signal, d')
        ]

  -- Without memory for a job the status is returned in place of a signal.
  unfoldable pub accept_and_start_job :
      (ℕ → ℕ × Job) → ℕ → ℕ → ℕ → Status → Status → Desk → Option (Signal × Desk)
  accept_and_start_job alloc actor self handler ready_status busy_status d =
      let d' = claim_slot alloc actor d in
      if d'.slot == 0
      then some (signal_of_status busy_status, d')
      else start_job actor self handler ready_status busy_status d'

  unfoldable pub accept_and_pass_to_job : ℕ → ℕ → Status → Status → Desk → Option (Signal × Desk)
  accept_and_pass_to_job actor handler ready_status busy_status d =
      if d.slot == 0
      then none
      else if d.job.handler == handler
      then elim (accept_and_process y actor d.event (some d.job.incoming_event) ready_status
          busy_status none d.store) [
            | none ↦ none
            | some a ↦
                let d' = record d {
                  event = a.event;
                  store = a.store;
                  job = record (d.job) { incoming_event = a.slot };
                } in
                if is_ok a.signal
                then elim (schedule_now actor d') [ none ↦ none | some d'' ↦ some (a.signal, d'') ]
                else some (a.signal, d')
          ]
      else elim (set_status y actor d.event busy_status d.store) [
        | none ↦ none
        | some (e, s) ↦ some (busy, record d { event = e; store = s })
      ]

  unfoldable pub signal_pass_to_job : ℕ → Signal → Desk → Option (Signal × Desk)
  signal_pass_to_job actor signal d =
      if d.slot == 0
      then some (ok, d)
      else elim (schedule_now actor
          (record d { job = record (d.job) { incoming_signal = signal_value signal } })) [
            | none ↦ none
            | some d' ↦ some (ok, d')
          ]

-- `actor_job_execute` runs with the fuel given.
unfoldable pub signal_job : {W : Type 0} → JobSystem W → ℕ → Signal → Cell W → Option (Cell W)
signal_job y fuel signal c =
    if c.slot == 0
    then some c
    else execute y fuel
        (record c { job = record (c.job) { incoming_signal = signal_value signal } })

abbrev pub prepared_event : ℕ → EventType → ℕ → ℕ → ℕ → ℕ → Event
prepared_event producer type target payload size argument = record {
  type = type;
  status = waiting;
  payload = payload;
  size = size;
  argument = argument;
  producer = producer;
  consumer = target;
}

-- `address` is that of `actor_prepared_event`; `t` is the input thread of the actor's node.
unfoldable pub publish_event : Kernel → Thread → ℕ → Event → Rtos → Bool × Rtos
publish_event k t address e r = publish_generic k t e address false r

-- What waiting leaves: the signal, the job, and the thread with its queue.
pub record Waited : Type 0 where
  pub signal : ℕ
  pub job : Job
  pub thread : Thread
  pub queue : List Event

-- `actor_job_wait`: the event that ends the wait replaces the job's inciting one. An actor without a
-- worker on the thread is a NULL pointer.
unfoldable pub wait :
    Kernel → ℕ → (ℕ → Event) → List Wake → ℕ → Thread → List Event → Job → Option Waited
wait k root mailbox wakes now t queue j =
    if j.thread == 0
    then none
    else if is_blockable t
    then elim (event_await k root mailbox t j.inciting_event wakes now) [
      | none ↦ none
      | some (woken, t') ↦ elim (worker_for j.actor t'.workers) [
        | none ↦ none
        | some i ↦ elim (get_elem? t'.workers i) [
          | none ↦ none
          | some w ↦ some (record {
            signal = woken.signal;
            job = record j { incoming_signal = woken.signal; inciting_event = woken.event };
            thread = set_worker i (record w { next_time = never }) t';
            queue = woken.queue;
          })
        ]
      ]
    ]
    else some (record { signal = 0; job = j; thread = t; queue = queue })

-- `actor_job_publish_event_generic`: the event is kept in the job and published, and the job waits.
-- `input` is the input thread, `address` that of the job's outgoing event.
unfoldable pub job_publish_event :
    Kernel
    → Thread
    → ℕ
    → ℕ
    → (ℕ → Event)
    → List Wake
    → ℕ
    → Thread
    → List Event
    → Event
    → Job
    → Rtos
    → Option (Waited × Rtos)
job_publish_event k input address root mailbox wakes now t queue e j r =
    let (_, r') = publish_generic k input e address false r in
    elim (wait k root mailbox wakes now t queue (record j { outgoing_event = e })) [
      | none ↦ none
      | some w ↦ some (w, r')
    ]
