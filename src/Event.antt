-- ===== src/Event.antt =====
-- actor_rtos/src/actor/event.h and the parts of event.c that move an event between its queue, an
-- actor's slot for it, and the end of its life. `none` is a run that does not come back.
pub mod Life
mod Tests
use stm32app.Base.{
  ℕ, zero, suc, Bool, true, false, not, ◌&&◌, ◌||◌, Option, none, some, ◌==◌, if◌then◌else◌,
}
use stm32app.Signal.{
  Signal, ok, busy, Status, waiting, received, addressed, handled, deferred, finalized,
}
use stm32app.Buffer.{dynamic_size}
use stm32app.Store.{Store, System, buffer_use, release}

-- `enum actor_event_type`.
pub data EventType : Type 0 where
  idle read read_to_buffer write transfer erase mount unmount response lock unlock introspection
        diagnose open_file query delete close sync stats start enable disable thread_start
        thread_stop thread_alarm :
      EventType

abbrev pub is_idle : EventType → Bool
is_idle idle = true
is_idle _ = false

abbrev pub is_alarm : EventType → Bool
is_alarm thread_alarm = true
is_alarm _ = false

-- `data` is a buffer's address where `size` is the dynamic size.
pub record Event : Type 0 where
  pub type : EventType
  pub status : Status
  pub payload : ℕ
  pub size : ℕ
  pub argument : ℕ
  pub producer : ℕ
  pub consumer : ℕ

-- `memset(event, 0, sizeof(actor_event_t))`: an idle event that waits.
abbrev pub zero_event : Event
zero_event = record {
  type = idle;
  status = waiting;
  payload = 0;
  size = 0;
  argument = 0;
  producer = 0;
  consumer = 0;
}

abbrev pub is_deferred : Status → Bool
is_deferred deferred = true
is_deferred _ = false

-- What a handler makes of the event in its slot.
abbrev pub Handler : Type 0
Handler = Event → Store → Signal × Event × Store

-- The signal, the event, and the slot it may have been copied to.
pub record Accepted : Type 0 where
  pub signal : Signal
  pub event : Event
  pub slot : Event
  pub store : Store

module _ (y : System) where
  -- The claim on a payload that is a buffer: at the first status that keeps the event.
  unfoldable pub claim : ℕ → Event → Store → Store
  claim actor e s = if is_deferred e.status then s else buffer_use y e.payload actor s

  -- The `switch` of `actor_event_set_status`, for an event that carries a buffer.
  unfoldable pub set_shared_status : ℕ → Event → Status → Store → Option (Event × Store)
  set_shared_status actor e received s = some (record e { status = received }, claim actor e s)
  set_shared_status actor e handled s =
      some (record e { status = handled; consumer = actor }, claim actor e s)
  set_shared_status actor e deferred s =
      some (record e { status = deferred; consumer = actor }, claim actor e s)
  set_shared_status actor e finalized s = elim (release y e.payload actor s) [
    | none ↦ none
    | some s' ↦ some (record e { status = finalized }, s')
  ]
  set_shared_status actor e waiting s = some (record e { status = waiting }, s)
  set_shared_status actor e addressed s = some (record e { status = addressed }, s)

  unfoldable pub set_status : ℕ → Event → Status → Store → Option (Event × Store)
  set_status actor e status s =
      if e.size == dynamic_size
      then set_shared_status actor e status s
      else some (record e { status = status }, s)

  -- `slot` is the event at `destination`, absent where that is NULL: the test lets NULL pass, and
  -- the copy then faults.
  unfoldable pub accept_and_process :
      ℕ → Event → Option Event → Status → Status → Option Handler → Store → Option Accepted
  accept_and_process actor e none ready_status busy_status handler s = none
  accept_and_process actor e (some slot) ready_status busy_status handler s =
      if is_idle slot.type
      then elim (set_status actor e ready_status s) [
        | none ↦ none
        | some (e', s') ↦ elim handler [
          | none ↦ some (record { signal = ok; event = e'; slot = e'; store = s' })
          | some h ↦
              let (signal, slot', s'') = h e' s' in
              some (record { signal = signal; event = e'; slot = slot'; store = s'' })
        ]
      ]
      else elim (set_status actor e busy_status s) [
        | none ↦ none
        | some (e', s') ↦ some (record { signal = busy; event = e'; slot = slot; store = s' })
      ]

  -- `report` is the weak symbol `actor_event_report_callback`. An absent event is NULL.
  unfoldable pub finalize :
      (ℕ → Event → Store → Event × Store) → ℕ → Event → Store → Option (Event × Store)
  finalize report actor e s =
      if is_idle e.type
      then some (e, s)
      else if is_alarm e.type
      then some (zero_event, s)
      else (let (e', s') = report actor e s in
          elim (set_status actor e' finalized s') [
            | none ↦ none
            | some (_, s'') ↦ some (zero_event, s'')
          ])
