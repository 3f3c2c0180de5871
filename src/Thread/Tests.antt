-- ===== src/Thread/Tests.antt =====
-- Threads at concrete inputs: one with the workers of actors 3 and 4 and the queue 5.
use stm32app.Base.{
  zero, suc, ◌<◌, ◌⊎◌, List, get_elem?, some-inj, ℕ, ◌+◌, ◌≡◌, refl, ◌≢◌, inl, Bool, true, false,
  Option, none, some, [], ◌∷◌, ◌++◌, arith, length, ltb, ◌==◌, if◌then◌else◌,
}
use stm32app.Signal.{ok, waiting, handled, deferred}
use stm32app.Event.{Event, write, zero_event}
use stm32app.Thread.{Rtos, Worker, Thread, Env, Kernel, never, worker_schedule}
use stm32app.Thread.Dispatch.{Dispatched, event_dispatch}
use stm32app.Thread.Requeue.{event_requeue, event_queue_shift}
use stm32app.Thread.Deferral.{
  IsFifo, Counts, deferred_in, requeue-Counts, IsReceived, event_queue_shift_lem,
}
use stm32app.Thread.Coverage.{Covers, IsScheduled, worker_schedule-Covers}
use stm32app.Thread.Wakeup.{IsPolite, AllCovered, event_dispatch-Covers}
use stm32app.Thread.Routing.{IsDelivered, addressed_once}

-- Queues of at most ten events.
abbrev kernel : Kernel
kernel = record {
  send = λ front e es.
      if ltb (length es) 10 then some (if front then e ∷ es else es ++ (e ∷ [])) else none;
  receive = λ es. elim es [ [] ↦ none | e ∷ es' ↦ some (e, es') ];
  notify = λ value overwrite slot. elim slot [
    | none ↦ (true, some value)
    | some old ↦ if overwrite then (true, some value) else (false, some old)
  ];
}

kernel-IsFifo : IsFifo kernel
kernel-IsFifo = record {
  send_back = λ e es. ground arith;
  receive_empty = refl;
  receive_front = λ e es. refl;
}

abbrev worker : ℕ → ℕ → Worker
worker actor time = record {
  last_time = 0;
  next_time = time;
  thread = 0;
  actor = actor;
  catchup = 0;
  callback = 0;
}

-- At time 100, with an alarm for actor 4 that is due since 90.
abbrev thread : Thread
thread = record {
  actor = 1;
  last_time = 0;
  current_time = 80;
  next_time = 90;
  task = 1;
  queue = 5;
  workers = worker 3 never ∷ worker 4 90 ∷ [];
  flags = 0;
}

abbrev quiet : ℕ → Thread → Event → ℕ → Dispatched ℕ
quiet i t e world = record { thread = t; event = e; world = world + 1; signal = ok }

abbrev all : ℕ → Event → Bool
all _ _ = true

quiet-IsPolite : IsPolite quiet
quiet-IsPolite = record {
  covers = λ i t e world j ne c. c;
  places = λ i t e world. refl;
  broadcasts = λ i t e world z. z;
}

abbrev event : Event
event = record zero_event { type = write; producer = 7 }

abbrev to_three : Event
to_three = record event { consumer = 3 }

abbrev env : Env ℕ
env = record {
  rtos = record {
    queues = λ q. if q == 5 then record event { status = deferred } ∷ event ∷ [] else [];
    slots = λ t. none;
  };
  world = 0;
}

abbrev keep : ℕ → Event → Env ℕ → Option (Event × Env ℕ)
keep actor e v = some (zero_event, v)

worker_schedule-Covers_example :
    let out = worker_schedule kernel thread 0 85 (env.rtos) in
    (get_elem? out.0.workers 0 ≡ some (record (worker 3 never) { next_time = 85 }))
    × IsScheduled kernel thread 85 (env.rtos) out
    × ((j : ℕ)
        → 0 ≢ j
        → (get_elem? out.0.workers j ≡ get_elem? thread.workers j)
          × (Covers thread j → Covers out.0 j))
worker_schedule-Covers_example =
    worker_schedule-Covers kernel thread 0 85 (worker 3 never) (env.rtos) refl

event_dispatch-Covers_example : AllCovered 2 (event_dispatch all quiet 9 thread event 0)
event_dispatch-Covers_example = event_dispatch-Covers all quiet quiet-IsPolite 9 thread event 0 refl

event_queue_shift_lem_example :
    let count = deferred_in (env.rtos.queues 5) in
    ((count ≡ length (env.rtos.queues 5))
      × (event_queue_shift kernel thread count (env.rtos) ≡ none))
    ⊎ ((count ≢ length (env.rtos.queues 5))
        × ((e : Event) × (es : List Event) × (r' : Rtos) × (env.rtos.queues 5 ≡ e ∷ es)
            × (event_queue_shift kernel thread count (env.rtos) ≡ some (e, r'))
            × IsReceived thread es (env.rtos) r'))
event_queue_shift_lem_example =
    event_queue_shift_lem kernel kernel-IsFifo thread (env.rtos) (omega arith)

abbrev to_four : Event
to_four = record to_three { consumer = 4 }

first_of_four :
    (i : ℕ) (v : Worker) → i < 1 → get_elem? thread.workers i ≡ some v → v.actor ≢ to_four.consumer
first_of_four zero v lt at = let same = some-inj (worker 3 never) v at in rw (← same) (omega arith)
first_of_four (suc i) v lt at = absurd (omega (arith, lt))

four_given : to_four.consumer ≢ 0
four_given = omega arith

addressed_once_example :
    (d : Dispatched ℕ) × (event_dispatch all quiet 9 thread to_four 0 ≡ some d)
    × IsDelivered (quiet 1 thread to_four 0) d
addressed_once_example =
    addressed_once all quiet 9 thread to_four 0 four_given refl 1 (worker 4 90) refl refl
      first_of_four four_given

requeue-Counts_example :
    Counts thread 1 0
      (event_requeue kernel keep 5 thread (record event { status = handled }) waiting env)
requeue-Counts_example =
    requeue-Counts kernel keep kernel-IsFifo thread (record event { status = handled }) waiting env
      1 (omega arith) refl (omega arith) (inl refl) (ground arith)
