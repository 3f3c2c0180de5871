-- ===== src/Storage/Diagnosis.antt =====
-- The job of at24c.c that diagnoses the chip: it reads two bytes, writes them back with the first one
-- more, reads again and compares; and the workers and reports of the driver.
use stm32app.Base.{
  ℕ, ◌+◌, ◌%◌, ◌≡◌, ◌≢◌, ◌<◌, refl, Bool, false, ◌&&◌, ◌||◌, Option, none, some, ◌==◌,
  if◌then◌else◌, arith,
}
use stm32app.Signal.{Signal, ok, received, handled, deferred}
use stm32app.Store.{System, release}
use stm32app.Event.{EventType, read, read_to_buffer, write, response, diagnose, erase}
use stm32app.Job.{
  JobSignal, success, failure, Job, Cell, JobSystem, code, execute_if_running_in_thread,
}
use stm32app.Thread.{Kernel}
use stm32app.Intake.{Desk, schedule_now, accept_and_start_job, accept_and_pass_to_job}
use stm32app.Storage.{Eeprom, task_read, task_write}

-- Memory by address, and the address of an array of two bytes on the stack.
module _ (y : System) (pack : ℕ → ℕ) (memory_at : ℕ → ℕ) (literal : ℕ → ℕ → ℕ) where
  abbrev pub data_at : ℕ → ℕ → Eeprom → ℕ
  data_at buffer i d = memory_at ((d.store.buffers buffer).payload + i)

  -- `data[0] + 1` is an int in the comparison, and a byte in the array.
  abbrev pub is_sound : Eeprom → Bool
  is_sound d =
      ((data_at d.job.result 0 d + 1 == data_at d.target_buffer 0 d)
        && (data_at d.job.result 1 d == data_at d.target_buffer 1 d))
      && ((d.store.buffers d.job.result).size == (d.store.buffers d.target_buffer).size)

  -- Phase 2 keeps what phase 0 has read.
  abbrev pub keep_result : Eeprom → Eeprom
  keep_result d =
      if d.job.task_phase == 0
      then record d { job = record (d.job) { result = d.target_buffer }; target_buffer = 0 }
      else d

  unfoldable pub release_all : Eeprom → Option Eeprom
  release_all d = elim (release y d.target_buffer d.job.actor d.store) [
    | none ↦ none
    | some s ↦ elim (release y d.source_buffer d.job.actor s) [
      | none ↦ none
      | some s' ↦ elim (release y d.job.result d.job.actor s') [
        | none ↦ none
        | some s'' ↦ some (record d { store = s'' })
      ]
    ]
  ]

  -- A NULL buffer is a fault of phases 1 and 3.
  unfoldable pub write_incremented : Eeprom → Option (JobSignal × Eeprom)
  write_incremented d =
      if d.target_buffer == 0
      then none
      else task_write y pack 16
          (literal ((data_at d.target_buffer 0 d + 1) % 256) (data_at d.target_buffer 1 d)) 2 d

  unfoldable pub compare_reads : Eeprom → Option (JobSignal × Eeprom)
  compare_reads d =
      if d.job.result == 0 || d.target_buffer == 0
      then none
      else some (if is_sound d then success else failure, d)

  unfoldable pub job_diagnose : Eeprom → Option (JobSignal × Eeprom)
  job_diagnose d =
      if d.job.job_phase == 0
      then task_read y pack 16 0 2 d
      else if d.job.job_phase == 1
      then write_incremented d
      else if d.job.job_phase == 2
      then task_read y pack 16 0 2 (keep_result d)
      else if d.job.job_phase == 3
      then compare_reads d
      else if d.job.job_phase == code success || d.job.job_phase == code failure
      then elim (release_all d) [ none ↦ none | some d' ↦ some (success, d') ]
      else some (success, d)

  -- A chip whose first byte is 255 fails the diagnosis, whatever it has stored since: the byte that
  -- is written is 0, and 256 is looked for. The job is in its phase 3, with both reads at hand, and
  -- memory holds bytes.
  pub diagnosis_fails :
      (d : Eeprom)
      → d.job.job_phase ≡ 3
      → d.job.result ≢ 0
      → d.target_buffer ≢ 0
      → data_at d.job.result 0 d ≡ 255
      → data_at d.target_buffer 0 d < 256
      → job_diagnose d ≡ some (failure, d)
  unfolding job_diagnose compare_reads
  diagnosis_fails d phase r t last byte =
      let differs : is_sound d ≡ false = ground (arith, last, byte) in
      let none_null : ((d.job.result == 0) || (d.target_buffer == 0)) ≡ false =
        ground (arith, r, t) in
      rw (phase, none_null, differs) refl

-- `at24c_job_read`, `at24c_job_write` and `at24c_job_erase`.
unfoldable pub job_nothing : Eeprom → Option (JobSignal × Eeprom)
job_nothing d = some (success, d)

-- The handlers that events start.
pub data JobName : Type 0 where
  diagnose_chip read_bytes write_bytes erase_bytes : JobName

module _ (y : System) (k : Kernel) (alloc : ℕ → ℕ × Job) (address : JobName → ℕ) where
  -- Received, and so left to other actors, in the low-priority thread.
  abbrev pub start_named : ℕ → ℕ → JobName → Desk → Option (Signal × Desk)
  start_named actor low name d =
      accept_and_start_job y k alloc actor low (address name) received received d

  -- The thread and the handler are read from the job, so that a response without a job is a fault.
  unfoldable pub worker_input : (actor low : ℕ) → EventType → Desk → Option (Signal × Desk)
  worker_input actor low diagnose d = start_named actor low diagnose_chip d
  worker_input actor low response d =
      if d.slot == 0
      then none
      else accept_and_pass_to_job y k actor d.job.handler handled deferred d
  worker_input actor low read d = start_named actor low read_bytes d
  worker_input actor low write d = start_named actor low write_bytes d
  worker_input actor low erase d = start_named actor low erase_bytes d
  worker_input actor low _ d = some (ok, d)

  -- `d` holds the job's thread.
  unfoldable pub on_event_report : ℕ → EventType → Desk → Option Desk
  on_event_report actor write d = if d.slot == 0 then none else schedule_now y k actor d
  on_event_report actor read_to_buffer d = if d.slot == 0 then none else schedule_now y k actor d
  on_event_report actor _ d = some d

pub data WorkerName : Type 0 where
  input_worker high_priority_worker low_priority_worker : WorkerName

unfoldable pub on_worker_assignment : (input high low thread : ℕ) → Option WorkerName
on_worker_assignment input high low thread =
    if thread == input
    then some input_worker
    else if thread == high
    then some high_priority_worker
    else if thread == low
    then some low_priority_worker
    else none

-- The workers of both threads.
unfoldable pub worker_priority : {W : Type 0} → JobSystem W → ℕ → ℕ → Cell W → Option (Cell W)
worker_priority y fuel thread c = execute_if_running_in_thread y fuel thread c
