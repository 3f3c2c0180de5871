-- ===== src/W25.antt =====
-- actor_drivers/src/actor/storage/w25.c: the jobs of a flash chip behind an SPI transport. Memory is a
-- parameter of what reads it; the buses and threads are those of the framework.
pub mod Calls
pub mod Polling
pub mod Commands
pub mod Pages
pub mod Whole
mod Tests
use stm32app.Base.{
  ℕ, zero, suc, ◌+◌, ◌%◌, Bool, true, false, not, ◌&&◌, Option, none, some, List, [], ◌∷◌, ◌++◌,
  bit_and, ◌==◌, if◌then◌else◌,
}
use stm32app.Buffer.{u32}
use stm32app.Signal.{Signal, ok, handled, deferred}
use stm32app.Store.{System}
use stm32app.Event.{
  EventType, Event, read, write, response, lock, unlock, introspection, disable, zero_event,
}
use stm32app.Job.{
  JobSignal, task_wait, task_retry, task_success, success, Job, Cell, JobSystem, advance,
  execute_if_running_in_thread,
}
use stm32app.Thread.{Kernel}
use stm32app.Intake.{Desk, schedule_now, accept_and_start_job, accept_and_pass_to_job}
use stm32app.Bytes.{get_number_of_bytes_intesecting_page}

-- `enum w25_commands`, as far as the jobs send them.
abbrev pub cmd_manuf_actor : ℕ
cmd_manuf_actor = 0x90

abbrev pub cmd_unlock : ℕ
cmd_unlock = 0x06

abbrev pub cmd_lock : ℕ
cmd_lock = 0x04

abbrev pub cmd_read_sr1 : ℕ
cmd_read_sr1 = 0x05

abbrev pub cmd_pwr_on : ℕ
cmd_pwr_on = 0xAB

abbrev pub cmd_pwr_off : ℕ
cmd_pwr_off = 0xB9

-- W25_SR1_BUSY.
abbrev pub sr1_busy : ℕ
sr1_busy = 1

-- What a transfer writes: the bytes of a literal array, or memory from an address on.
pub data Outgoing : Type 0 where
  command : List ℕ → Outgoing
  memory : ℕ → Outgoing

-- ACTOR_EVENT_TRANSFER as `w25_spi_transfer` publishes it.
pub record Transfer : Type 0 where
  pub consumer : ℕ
  pub producer : ℕ
  pub write_data : Outgoing
  pub write_size : ℕ
  pub read_size : ℕ

-- `struct storage_w25` with the job at work and the transfers published so far, the latest last.
pub record Flash : Type 0 where
  pub spi : ℕ
  pub job : Job
  pub transfers : List Transfer

unfoldable pub spi_transfer : Outgoing → ℕ → ℕ → Flash → JobSignal × Flash
spi_transfer write_data write_size read_size f =
    let t : Transfer = record {
      consumer = f.spi;
      producer = f.job.actor;
      write_data = write_data;
      write_size = write_size;
      read_size = read_size;
    } in
    (task_wait, record f { transfers = f.transfers ++ (t ∷ []) })

unfoldable pub set_lock : Bool → Flash → JobSignal × Flash
set_lock state f = spi_transfer (command ((if state then cmd_unlock else cmd_lock) ∷ [])) 1 0 f

-- A handler of the driver's job; `none` is a NULL pointer.
abbrev pub FlashHandler : Type 0
FlashHandler = Flash → Option (JobSignal × Flash)

module _ (memory_at : ℕ → ℕ) where
  -- `*job->incoming_event.data & W25_SR1_BUSY`.
  abbrev pub is_busy : Flash → Bool
  is_busy f = not (bit_and (memory_at f.job.incoming_event.payload) sr1_busy == 0)

  unfoldable pub task_wait_until_ready : FlashHandler
  task_wait_until_ready f =
      if f.job.task_phase == 0
      then some (spi_transfer (command (cmd_read_sr1 ∷ [])) 1 1 f)
      else if f.job.incoming_event.payload == 0
      then none
      else some (if is_busy f then task_retry else task_success, f)

  -- The jobs that wait until the chip is ready and then send one command.
  unfoldable pub command_job : List ℕ → ℕ → ℕ → FlashHandler
  command_job bytes write_size read_size f =
      if f.job.job_phase == 0
      then task_wait_until_ready f
      else if f.job.job_phase == 1
      then some (spi_transfer (command bytes) write_size read_size f)
      else some (success, f)

  unfoldable pub job_introspection : FlashHandler
  job_introspection = command_job (cmd_manuf_actor ∷ 0 ∷ 0 ∷ 0 ∷ []) 4 2

  unfoldable pub send_command : ℕ → FlashHandler
  send_command c = command_job (c ∷ []) 1 0

  -- `w25_job_lock` and `w25_job_unlock`.
  unfoldable pub job_lock : Bool → FlashHandler
  job_lock state f =
      if f.job.job_phase == 0
      then task_wait_until_ready f
      else some (if f.job.job_phase == 1 then set_lock state f else (success, f))

  unfoldable pub job_enable : FlashHandler
  job_enable = command_job (cmd_pwr_on ∷ 0xFF ∷ 0xFF ∷ 0xFF ∷ []) 4 1

  unfoldable pub job_disable : FlashHandler
  job_disable = command_job (cmd_pwr_off ∷ []) 1 0

  abbrev pub move_counter : ℕ → Flash → Flash
  move_counter n f = record f { job = record (f.job) { counter = n } }

  unfoldable pub write_in_pages : (address source size page_size : ℕ) → FlashHandler
  write_in_pages address source size page_size f =
      elim (get_number_of_bytes_intesecting_page (u32 (address + f.job.counter)) size page_size) [
        | none ↦ none
        | some n ↦ some (
            if f.job.task_phase == 0
            then set_lock false f
            else if f.job.task_phase == 2
            then spi_transfer (memory source) n n f
            else (let counter = u32 (f.job.counter + n) in
                if counter == size
                then (task_success, move_counter 0 f)
                else (task_retry, move_counter counter f)))
      ]

  unfoldable pub job_write : FlashHandler
  job_write f =
      let e = f.job.inciting_event in
      if f.job.job_phase == 1
      then task_wait_until_ready f
      else if f.job.job_phase == 2
      then write_in_pages e.argument e.payload e.size 256 f
      else some (success, f)

  unfoldable pub job_read : FlashHandler
  job_read f = some (success, f)

  -- One call of a handler by the loop of job.c, with the phases after it.
  unfoldable pub call_once : FlashHandler → Flash → Option (JobSignal × Flash)
  call_once h f = elim (h f) [
    | none ↦ none
    | some (signal, f') ↦
        let (signal', j) = advance f'.job signal in some (signal', record f' { job = j })
  ]

-- The handlers that events start.
pub data JobName : Type 0 where
  introspect write_pages read_pages lock_chip unlock_chip disable_chip : JobName

module _ (y : System) (k : Kernel) (alloc : ℕ → ℕ × Job) (address : JobName → ℕ) where
  -- ACTOR_EVENT_HANDLED, or ACTOR_EVENT_DEFERRED while the job is at work; `high` is the
  -- high-priority thread.
  abbrev pub start_named : ℕ → ℕ → JobName → Desk → Option (Signal × Desk)
  start_named actor high name d =
      accept_and_start_job y k alloc actor high (address name) handled deferred d

  unfoldable pub worker_input : (actor high spi : ℕ) → EventType → Desk → Option (Signal × Desk)
  worker_input actor high spi introspection d = start_named actor high introspect d
  worker_input actor high spi write d = start_named actor high write_pages d
  worker_input actor high spi read d = start_named actor high read_pages d
  worker_input actor high spi lock d = start_named actor high lock_chip d
  worker_input actor high spi unlock d = start_named actor high unlock_chip d
  worker_input actor high spi response d =
      if (d.event.producer == spi) && not (d.slot == 0)
      then accept_and_pass_to_job y k actor d.job.handler handled deferred d
      else some (ok, d)
  worker_input actor high spi _ d = some (ok, d)

  -- `w25_stop`: a job for an event of its own.
  unfoldable pub stop_chip : (actor high : ℕ) → Desk → Option (Signal × Desk)
  stop_chip actor high d =
      start_named actor high disable_chip
        (record d { event = record zero_event { type = disable } })

  -- `d` holds the high-priority thread.
  unfoldable pub on_event_report : ℕ → EventType → Desk → Option Desk
  on_event_report actor write d = schedule_now y k actor d
  on_event_report actor _ d = some d

pub data WorkerName : Type 0 where
  input_worker high_priority_worker : WorkerName

unfoldable pub on_worker_assignment : (input high thread : ℕ) → Option WorkerName
on_worker_assignment input high thread =
    if thread == input
    then some input_worker
    else if thread == high
    then some high_priority_worker
    else none

unfoldable pub worker_high_priority : {W : Type 0} → JobSystem W → ℕ → ℕ → Cell W → Option (Cell W)
worker_high_priority y fuel thread c = execute_if_running_in_thread y fuel thread c
