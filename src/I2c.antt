-- ===== src/I2c.antt =====
-- actor_cm3/src/actor/transport/i2c.c: the jobs of an I2C bus. What the chip's registers say at a call
-- is an argument of it; what the code writes to them is a list of calls.
pub mod Arguments
pub mod Reading
pub mod Workers
pub mod Stages
pub mod Writing
pub mod Order
pub mod Errors
mod Tests
use stm32app.Base.{
  ℕ, ◌+◌, ◌-◌, ◌*◌, ◌/◌, ◌%◌, ◌^◌, Bool, true, false, not, ◌&&◌, ◌||◌, Option, none, some, List, [],
  ◌∷◌, ◌++◌, ◌==◌, if◌then◌else◌,
}
use stm32app.Signal.{Signal, waiting}
use stm32app.Buffer.{dynamic_size}
use stm32app.Store.{Store, System, release, source_with_options}
use stm32app.Store.Double.{
  u16, double_target, double_detach, double_get_input, double_ingest_external_write,
}
use stm32app.Event.{EventType, Event, read, response}
use stm32app.Job.{
  JobSignal, halt, task_continue, task_wait, task_quit_isr, task_loop, task_success, task_failure,
  success, failure, code, Job,
}
use stm32app.Dma.{Streams, register_dma, unregister_dma, match_source}

-- What the flags of SR1 and SR2 say, by the macros of the file, and whether the caller is an interrupt.
pub record Bus : Type 0 where
  pub error : Bool
  pub master_mode_select : Bool
  pub transmitter_mode_selected : Bool
  pub receiver_mode_selected : Bool
  pub txe : Bool
  pub btf : Bool
  pub interrupted : Bool

-- The calls of libopencm3 and the starts and stops of DMA, in the order that they are made.
pub data Call : Type 0 where
  peripheral_enable peripheral_disable send_start send_stop enable_ack enable_dma disable_dma
        dma_tx_stop dma_rx_stop :
      Call
  send_7bit_address : ℕ → Bool → Call
  write_register : ℕ → Call
  dma_tx_start : ℕ → ℕ → Call
  dma_rx_start : ℕ → ℕ → Bool → Call

-- The streams of `transport_i2c_properties_t`.
pub record Properties : Type 0 where
  pub dma_rx_unit : ℕ
  pub dma_rx_stream : ℕ
  pub dma_tx_unit : ℕ
  pub dma_tx_stream : ℕ

-- `struct transport_i2c` with the memory of its job. `transferring` says whether `incoming_signal` is
-- ACTOR_SIGNAL_DMA_TRANSFERRING, `masked` whether the interrupts of events are disabled.
pub record I2c : Type 0 where
  pub properties : Properties
  pub job : Job
  pub transferring : Bool
  pub masked : Bool
  pub ring_buffer : ℕ
  pub output_buffer : ℕ
  pub source_buffer : ℕ
  pub store : Store
  pub streams : Streams
  pub calls : List Call
  pub published : List Event

abbrev pub log : List Call → I2c → I2c
log cs d = record d { calls = d.calls ++ cs }

-- `transport_i2c_event_argument_t` as a number: a byte, one of padding, and two.
unfoldable pub pack_event_argument : ℕ → ℕ → ℕ
pack_event_argument slave_address memory_address =
    slave_address % 2 ^ 8 + memory_address % 2 ^ 16 * 2 ^ 16

abbrev pub slave_address : ℕ → ℕ
slave_address argument = argument % 2 ^ 8

abbrev pub memory_address : ℕ → ℕ
memory_address argument = argument / 2 ^ 16 % 2 ^ 16

unfoldable pub dma_tx_start_for : I2c → I2c
dma_tx_start_for d =
    let b = d.store.buffers d.source_buffer in
    log (dma_tx_start b.payload b.size ∷ enable_dma ∷ []) (record d {
      streams =
          register_dma d.properties.dma_tx_unit d.properties.dma_tx_stream d.job.actor d.streams;
    })

unfoldable pub task_setup : ℕ → ℕ → Bus → I2c → JobSignal × I2c
task_setup address register bus d =
    if d.job.task_phase == 0
    then (task_continue, log (peripheral_enable ∷ send_start ∷ []) d)
    else if d.job.task_phase == 1
    then (if not bus.master_mode_select
        then (task_loop, d)
        else (task_wait, log (send_7bit_address address false ∷ []) d))
    else if d.job.task_phase == 2
    then (if not bus.transmitter_mode_selected && not bus.receiver_mode_selected
        then (task_loop, d)
        else (task_continue, log (write_register register ∷ []) d))
    else if d.job.task_phase == 3
    then (if not bus.txe then (task_loop, d) else (task_success, d))
    else if d.job.task_phase == code task_failure
    then (halt, log (peripheral_disable ∷ []) d)
    else (halt, d)

module _ (y : System) where
  unfoldable pub dma_tx_stop_for : I2c → Option I2c
  dma_tx_stop_for d = elim (release y d.source_buffer d.job.actor d.store) [
    | none ↦ none
    | some s ↦ some (
        log (dma_tx_stop ∷ disable_dma ∷ []) (record d {
          transferring = false;
          store = s;
          streams = unregister_dma d.properties.dma_tx_unit d.properties.dma_tx_stream d.streams;
        }))
  ]

  -- Phase 0 with the interrupts of events disabled.
  unfoldable pub take_source : ℕ → ℕ → I2c → Option (JobSignal × I2c)
  take_source source size d = elim (source_with_options y d.job.actor source size 0 d.store) [
    | none ↦ none
    | some (p, s) ↦
        some (
          if p == 0 then task_failure else task_continue,
          record d { source_buffer = p; store = s },
        )
  ]

  unfoldable pub end_sending : I2c → Option (JobSignal × I2c)
  end_sending d = elim (dma_tx_stop_for d) [
    | none ↦ none
    | some d' ↦ some (task_continue, record d' { masked = false })
  ]

  unfoldable pub give_up_source : I2c → Option (JobSignal × I2c)
  give_up_source d = elim (release y d.source_buffer d.job.actor d.store) [
    | none ↦ none
    | some s ↦
        some (halt, log (peripheral_disable ∷ []) (record d { source_buffer = 0; store = s }))
  ]

  unfoldable pub task_write_data : ℕ → ℕ → Bus → I2c → Option (JobSignal × I2c)
  task_write_data source size bus d =
      if d.job.task_phase == 0
      then (if bus.interrupted
          then some (task_quit_isr, record d { masked = true })
          else take_source source size (record d { masked = true }))
      else if d.job.task_phase == 1
      then some (task_continue, dma_tx_start_for d)
      else if d.job.task_phase == 2
      then (if not d.transferring then some (task_loop, d) else end_sending d)
      else if d.job.task_phase == 3
      then (if not bus.btf && not bus.txe
          then some (task_loop, d)
          else some (task_success, log (send_stop ∷ peripheral_disable ∷ []) d))
      else if d.job.task_phase == code task_failure
      then give_up_source d
      else some (halt, d)

  unfoldable pub job_write : Bus → I2c → Option (JobSignal × I2c)
  job_write bus d =
      let e = d.job.inciting_event in
      if bus.error
      then some (task_failure, d)
      else if d.job.job_phase == 0
      then some (task_setup (slave_address e.argument) (memory_address e.argument) bus d)
      else if d.job.job_phase == 1
      then task_write_data e.payload e.size bus d
      else some (if d.job.job_phase == code failure then failure else success, d)
