-- ===== src/File.antt =====
-- actor_rtos/src/actor/file.h and file.c: what an operation on a file asks of the storage that holds
-- it. `actor_job_publish_event_generic` of event.c, which it uses, is `job_publish_event` of `Intake`.
use stm32app.Base.{ℕ, Bool, Option, none, some, List, ◌==◌, if◌then◌else◌}
use stm32app.Event.{Event, EventType, open_file, sync, stats, read, write, erase, delete, close}
use stm32app.Job.{Job}
use stm32app.Thread.{Thread, Rtos, Kernel}
use stm32app.Thread.Await.{Wake}
use stm32app.Intake.{Waited, prepared_event, publish_event, job_publish_event}

-- `job` is NULL where no job waits for the results.
pub record File : Type 0 where
  pub owner : ℕ
  pub storage : ℕ
  pub job : ℕ
  pub path : ℕ
  pub flags : ℕ
  pub position : ℕ

pub data Operation : Type 0 where
  open_at : (path flags : ℕ) → Operation
  sync_file stat_file truncate_file delete_file close_file : Operation
  read_file write_file : (source size : ℕ) → Operation
  seek : (position whence : ℕ) → Operation

-- The type that an operation passes on, none for a seek, which publishes nothing.
unfoldable pub type_of : Operation → Option EventType
type_of (open_at path flags) = some open_file
type_of sync_file = some sync
type_of stat_file = some stats
type_of truncate_file = some erase
type_of delete_file = some delete
type_of close_file = some close
type_of (read_file source size) = some read
type_of (write_file source size) = some write
type_of (seek position whence) = none

-- What an operation writes to the struct.
unfoldable pub prepare : Operation → File → File
prepare (open_at path flags) f = record f { path = path; flags = flags }
prepare (seek position whence) f = record f { position = position }
prepare _ f = f

-- The event of `actor_file_publish_event_with_argument_for`, which uses neither its type nor its
-- data; `self` is the file's address, and the producer the job's actor or the owner.
unfoldable pub file_event : ℕ → ℕ → File → EventType → (source size : ℕ) → Event
file_event self producer f type source size = prepared_event producer open_file f.storage 0 0 self

-- What a call leaves: the queues, and the job and its thread where the call has waited.
pub data Outcome : Type 0 where
  returned : Bool → Rtos → Outcome
  waited : Waited → Rtos → Outcome

-- `input` is the input thread and `address` the event's; the rest is the job's wait.
unfoldable pub publish_event_with_argument_for :
    Kernel
    → Thread
    → ℕ
    → ℕ
    → (ℕ → Event)
    → List Wake
    → ℕ
    → Thread
    → List Event
    → Job
    → ℕ
    → File
    → EventType
    → (source size : ℕ) → Rtos
    → Option Outcome
publish_event_with_argument_for k input address root mailbox wakes now t queue j self f type source
      size r =
    if f.job == 0
    then (let (sent, r') =
          publish_event k input address (file_event self f.owner f type source size) r in
        some (returned sent r'))
    else elim (job_publish_event k input address root mailbox wakes now t queue
        (file_event self j.actor f type source size) j r) [
          | none ↦ none
          | some (w, r') ↦ some (waited w r')
        ]
