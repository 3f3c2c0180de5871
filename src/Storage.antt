-- ===== src/Storage.antt =====
-- actor_drivers/src/actor/storage/at24c.c: the tasks that read and write an EEPROM page by page over
-- I2C, as handlers of a job.
pub mod Paging
pub mod Diagnosis
mod Tests
use stm32app.Base.{ℕ, ◌+◌, Option, none, some, List, [], ◌∷◌, ◌++◌, ◌==◌, if◌then◌else◌}
use stm32app.Signal.{waiting}
use stm32app.Buffer.{u32}
use stm32app.Store.{Store, System, target_with_options, snapshot_with_options}
use stm32app.Event.{Event, EventType, read_to_buffer, write}
use stm32app.Job.{JobSignal, halt, task_continue, task_wait, task_loop, task_success, failure, Job}
use stm32app.Bytes.{get_number_of_bytes_intesecting_page}

-- The driver's struct with the properties it reads, the job at work, the structs of buffers, and the
-- events published so far.
pub record Eeprom : Type 0 where
  pub i2c : ℕ
  pub page_size : ℕ
  pub target_buffer : ℕ
  pub source_buffer : ℕ
  pub job : Job
  pub store : Store
  pub published : List Event

abbrev pub set_counter : ℕ → Eeprom → Eeprom
set_counter n d = record d { job = record (d.job) { counter = n } }

module _ (y : System) (pack : ℕ → ℕ) where
  -- The event for the bytes on the page, and the counter that moves past them. `pack` is
  -- `i2c_pack_event_argument` for the address of the chip.
  unfoldable pub move_bytes : EventType → ℕ → ℕ → ℕ → ℕ → Eeprom → JobSignal × Eeprom
  move_bytes type buffer address size bytes_on_page d =
      let e : Event = record {
        type = type;
        status = waiting;
        payload = (d.store.buffers buffer).payload + d.job.counter;
        size = bytes_on_page;
        argument = pack (u32 (address + d.job.counter));
        producer = d.job.actor;
        consumer = d.i2c;
      } in
      let counter = u32 (d.job.counter + bytes_on_page) in
      (
        if counter == size then task_wait else task_loop,
        record (set_counter counter d) { published = d.published ++ (e ∷ []) },
      )

  -- Phase 1 of both tasks, with the buffer that it moves bytes to or from. A page size of 0 is a
  -- fault.
  unfoldable pub transfer : EventType → ℕ → ℕ → ℕ → Eeprom → Option (JobSignal × Eeprom)
  transfer type buffer address size d =
      elim (get_number_of_bytes_intesecting_page (u32 (address + d.job.counter)) size d.page_size) [
        | none ↦ none
        | some bytes_on_page ↦ some (move_bytes type buffer address size bytes_on_page d)
      ]

  unfoldable pub task_read : ℕ → ℕ → ℕ → Eeprom → Option (JobSignal × Eeprom)
  task_read address source size d =
      if d.job.task_phase == 0
      then elim (target_with_options y d.job.actor source size 0 d.store) [
        | none ↦ none
        | some (p, s) ↦ some (
          if p == 0 then failure else task_continue,
          record (set_counter 0 d) { target_buffer = p; store = s },
        )
      ]
      else if d.job.task_phase == 1
      then transfer read_to_buffer d.target_buffer address size d
      else some (if d.job.task_phase == 2 then task_success else halt, d)

  unfoldable pub task_write : ℕ → ℕ → ℕ → Eeprom → Option (JobSignal × Eeprom)
  task_write address source size d =
      if d.job.task_phase == 0
      then elim (snapshot_with_options y d.job.actor source size 0 d.store) [
        | none ↦ none
        | some (p, s) ↦ some (
          if p == 0 then failure else task_continue,
          record (set_counter 0 d) { source_buffer = p; store = s },
        )
      ]
      else if d.job.task_phase == 1
      then transfer write d.source_buffer address size d
      else some (if d.job.task_phase == 2 then task_success else halt, d)
