-- ===== src/Job.antt =====
-- actor_rtos/src/actor/job.h and job.c: jobs that a handler works through in phases. `none` is a run
-- that does not come back, as in `Buffer`.
pub mod Phases
pub mod Passes
pub mod Ending
pub mod Progress
mod Tests
use stm32app.Base.{
  ℕ, zero, suc, ◌+◌, ◌^◌, Bool, true, false, not, ◌&&◌, ◌||◌, Option, none, some, ◌==◌,
  if◌then◌else◌,
}
use stm32app.Buffer.{u32}
use stm32app.Event.{Event, zero_event}

-- `enum actor_job_signal`.
pub data JobSignal : Type 0 where
  halt task_continue task_retry task_wait task_quit_isr task_loop retry task_success task_failure
        success failure :
      JobSignal

-- The values that the enumeration gives, which phases are compared with.
abbrev pub code : JobSignal → ℕ
code halt = 0
code task_continue = 1
code task_retry = 2
code task_wait = 3
code task_quit_isr = 4
code task_loop = 5
code retry = 6
code task_success = 252
code task_failure = 253
code success = 254
code failure = 255

abbrev pub is_halt : JobSignal → Bool
is_halt halt = true
is_halt _ = false

-- Pointers are addresses; `incoming_signal` is the number of the signal.
pub record Job : Type 0 where
  pub actor : ℕ
  pub thread : ℕ
  pub inciting_event : Event
  pub outgoing_event : Event
  pub incoming_event : Event
  pub incoming_signal : ℕ
  pub source_buffer : ℕ
  pub target_buffer : ℕ
  pub result_buffer : ℕ
  pub counter : ℕ
  pub result : ℕ
  pub job_phase : ℕ
  pub task_phase : ℕ
  pub handler : ℕ

abbrev pub zero_job : Job
zero_job = record {
  actor = 0;
  thread = 0;
  inciting_event = zero_event;
  outgoing_event = zero_event;
  incoming_event = zero_event;
  incoming_signal = 0;
  source_buffer = 0;
  target_buffer = 0;
  result_buffer = 0;
  counter = 0;
  result = 0;
  job_phase = 0;
  task_phase = 0;
  handler = 0;
}

-- ACTOR_SIGNAL_PENDING.
abbrev pub pending_value : ℕ
pending_value = 1

-- The last `switch` of `actor_job_advance`.
unfoldable pub advance_by : JobSignal → Job → Job
advance_by success j = record j { job_phase = code success }
advance_by failure j = record j { job_phase = code failure }
advance_by retry j = record j { task_phase = 0; job_phase = 0 }
advance_by task_retry j = record j { task_phase = 0 }
advance_by task_wait j = record j { task_phase = u32 (j.task_phase + 1) }
advance_by task_continue j = record j { task_phase = u32 (j.task_phase + 1) }
advance_by task_success j = record j { task_phase = code task_success }
advance_by task_failure j = record j { task_phase = code task_failure }
advance_by halt j = j
advance_by task_loop j = j
advance_by task_quit_isr j = j

unfoldable pub advance : Job → JobSignal → JobSignal × Job
advance j signal =
    if j.job_phase == code failure
    then (failure, record j { job_phase = 0 })
    else if j.job_phase == code success
    then (success, record j { job_phase = 0 })
    else if j.task_phase == code task_failure
    then (failure, record j { job_phase = code failure })
    else if j.task_phase == code task_success
    then (task_success, record j { job_phase = u32 (j.job_phase + 1); task_phase = 0 })
    else (signal, advance_by signal j)

-- What job.c calls: the handler at an address, the weak symbols `actor_job_complete_callback`,
-- `actor_node_idle_callback` and `actor_job_free` (with what it leaves in the memory of the job),
-- `actor_thread_is_interrupted`, and what event.c and thread.c do for it.
pub record JobSystem (W : Type 0) : Type 0 where
  pub call : ℕ → Job → W → JobSignal × Job × W
  pub complete : Job → W → Job × W
  pub idle : ℕ → W → W
  pub free : Job → W → Job × W
  pub interrupted : ℕ → W → Bool
  pub finalize_event : ℕ → Event → W → Option (Event × W)
  pub schedule_actor : ℕ → ℕ → W → Option W

-- `slot` is the pointer at `job_slot`, `job` the memory that it points or pointed to.
pub record Cell (W : Type 0) : Type 0 where
  pub slot : ℕ
  pub job : Job
  pub world : W

-- How a round of the loop ends: with another one, with `halt`, or by a `return` from within.
pub data Next : Type 0 where
  again stop leave : Next

-- `job->incoming_signal = ACTOR_SIGNAL_PENDING;`
abbrev pub reset : {W : Type 0} → Cell W → Cell W
reset c = record c { job = record (c.job) { incoming_signal = pending_value } }

module _ {W : Type 0} (y : JobSystem W) where
  unfoldable pub finalize_job : Cell W → Option (Cell W)
  finalize_job c = elim (y.finalize_event c.job.actor c.job.inciting_event c.world) [
    | none ↦ none
    | some (e, w) ↦ elim (y.finalize_event c.job.actor c.job.incoming_event w) [
      | none ↦ none
      | some (e', w') ↦
          let (j, w'') = y.free (record (c.job) { inciting_event = e; incoming_event = e' }) w' in
          some (record { slot = 0; job = j; world = w'' })
    ]
  ]

  -- `actor_job_complete_callback(job)`.
  unfoldable pub completed : Cell W → Cell W
  completed c = let (j, w) = y.complete c.job c.world in record c { job = j; world = w }

  -- The end of a job: finalized, and the node told that its actor is idle.
  unfoldable pub finish : Cell W → Option (Cell W)
  finish c = elim (finalize_job c) [
    | none ↦ none
    | some c' ↦ some (record c' { world = y.idle c.job.actor c'.world })
  ]

  -- The cases of HALT, SUCCESS and FAILURE.
  unfoldable pub on_end : JobSignal → Cell W → Option (Next × Cell W)
  on_end signal c =
      let c' = if c.job.job_phase == code signal || is_halt signal then completed c else c in
      if not (c'.job.job_phase == code signal) || is_halt signal
      then elim (finish c') [ none ↦ none | some c'' ↦ some (stop, c'') ]
      else some (again, c')

  -- The `switch` on what `actor_job_advance` returns.
  unfoldable pub react : JobSignal → Cell W → Option (Next × Cell W)
  react halt c = on_end halt c
  react success c = on_end success c
  react failure c = on_end failure c
  react task_quit_isr c =
      if y.interrupted c.job.thread c.world
      then elim (y.schedule_actor c.job.thread c.job.actor c.world) [
        | none ↦ none
        | some w ↦ some (leave, record c { world = w })
      ]
      else some (again, c)
  react task_success c = some (again, c)
  react task_retry c = some (again, c)
  react task_continue c = some (again, c)
  react task_failure c = some (again, c)
  react task_wait c = elim (y.finalize_event c.job.actor c.job.incoming_event c.world) [
    | none ↦ none
    | some (e, w) ↦ some (stop, record c { job = record (c.job) { incoming_event = e }; world = w })
  ]
  react task_loop c = some (stop, c)
  react retry c = some (stop, c)

  -- The handler, and the phases after it.
  unfoldable pub call_handler : Cell W → JobSignal × Cell W
  call_handler c =
      let (signal, j, w) = y.call c.job.handler c.job c.world in
      let (signal', j') = advance j signal in (signal', record c { job = j'; world = w })

  -- `while (!halt)`, for as many rounds as there is fuel.
  unfoldable pub rounds : ℕ → Cell W → Option (Cell W)
  rounds zero c = none
  rounds (suc fuel) c =
      let (signal, c') = call_handler c in
      elim (react signal c') [
        | none ↦ none
        | some (next, d) ↦
            let rest = rounds fuel (reset d) in
            elim next [ again ↦ rest | stop ↦ some (reset d) | leave ↦ some d ]
      ]

  -- `actor_assert(job); actor_assert(job->handler);` and the loop.
  unfoldable pub execute : ℕ → Cell W → Option (Cell W)
  execute fuel c = if c.slot == 0 || c.job.handler == 0 then none else rounds fuel c

  unfoldable pub execute_if_running_in_thread : ℕ → ℕ → Cell W → Option (Cell W)
  execute_if_running_in_thread fuel thread c =
      if not (c.slot == 0) && (not (c.job.handler == 0) && c.job.thread == thread)
      then execute fuel c
      else some c
