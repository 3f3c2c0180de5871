-- ===== src/I2c/Workers.antt =====
-- How i2c.c takes part in the threads, and how its buffers grow.
use stm32app.Base.{ℕ, Option, none, some, ◌==◌, if◌then◌else◌}
use stm32app.Signal.{Signal, ok, handled, deferred}
use stm32app.Memory.{Memory}
use stm32app.Buffer.{Buffer, Platform, Outcome, reserve_with_limits}
use stm32app.Store.{System}
use stm32app.Event.{EventType, read, read_to_buffer, write}
use stm32app.Job.{Job}
use stm32app.Thread.{Kernel}
use stm32app.Intake.{Desk, accept_and_start_job}

-- The handlers that events start.
pub data JobName : Type 0 where
  read_chip write_chip : JobName

module _ (y : System) (k : Kernel) (alloc : ℕ → ℕ × Job) (address : JobName → ℕ) where
  -- ACTOR_EVENT_HANDLED, or ACTOR_EVENT_DEFERRED while the job is at work; `medium` is the
  -- medium-priority thread.
  unfoldable pub worker_on_input : (actor medium : ℕ) → EventType → Desk → Option (Signal × Desk)
  worker_on_input actor medium read d =
      accept_and_start_job y k alloc actor medium (address read_chip) handled deferred d
  worker_on_input actor medium read_to_buffer d =
      accept_and_start_job y k alloc actor medium (address read_chip) handled deferred d
  worker_on_input actor medium write d =
      accept_and_start_job y k alloc actor medium (address write_chip) handled deferred d
  worker_on_input actor medium _ d = some (ok, d)

pub data WorkerName : Type 0 where
  input_worker medium_priority_worker : WorkerName

unfoldable pub on_worker_assignment : (input medium thread : ℕ) → Option WorkerName
on_worker_assignment input medium thread =
    if thread == input
    then some input_worker
    else if thread == medium
    then some medium_priority_worker
    else none

-- The sizes of `transport_i2c_properties_t`.
pub record Limits : Type 0 where
  pub dma_rx_circular_buffer_size : ℕ
  pub rx_pool_initial_size : ℕ
  pub rx_pool_block_size : ℕ
  pub rx_pool_max_size : ℕ

-- `b` is the struct at `buffer`, `ring` and `output` are the bus's two buffers.
unfoldable pub on_buffer_allocation :
    Platform → Limits → (ring output buffer : ℕ) → Buffer → ℕ → Memory → Outcome
on_buffer_allocation c l ring output buffer b size m =
    if buffer == ring
    then reserve_with_limits c b size l.dma_rx_circular_buffer_size 0 0 m
    else if buffer == output
    then reserve_with_limits c b size l.rx_pool_initial_size l.rx_pool_block_size l.rx_pool_max_size
        m
    else reserve_with_limits c b size 0 0 0 m
