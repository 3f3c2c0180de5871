-- ===== src/I2c/Reading.antt =====
-- The rest of i2c.c that reads, and what the bus makes of the signal of a transfer.
use stm32app.Base.{
  ℕ, ◌+◌, ◌-◌, ◌^◌, Bool, true, false, not, ◌||◌, Option, none, some, [], ◌∷◌, ◌++◌, ◌==◌,
  if◌then◌else◌,
}
use stm32app.Signal.{Signal, waiting}
use stm32app.Buffer.{dynamic_size}
use stm32app.Store.{Store, System, release}
use stm32app.Store.Double.{
  u16, double_target, double_detach, double_get_input, double_ingest_external_write,
}
use stm32app.Event.{EventType, Event, read, response}
use stm32app.Job.{
  JobSignal, halt, task_continue, task_wait, task_quit_isr, task_loop, task_success, task_failure,
  success, failure, code,
}
use stm32app.Dma.{register_dma, unregister_dma, match_source}
use stm32app.I2c.{
  Bus, I2c, peripheral_disable, send_start, send_stop, enable_ack, enable_dma, disable_dma,
  dma_rx_start, dma_rx_stop, send_7bit_address, log, slave_address, memory_address, task_setup,
}

unfoldable pub dma_rx_start_for : I2c → I2c
dma_rx_start_for d =
    let input = double_get_input d.ring_buffer d.output_buffer d.store in
    let b = d.store.buffers input in
    log (enable_dma ∷ dma_rx_start b.payload b.allocated_size (input == d.ring_buffer) ∷ [])
      (record d {
        streams =
            register_dma d.properties.dma_rx_unit d.properties.dma_rx_stream d.job.actor d.streams;
      })

unfoldable pub dma_rx_stop_for : I2c → I2c
dma_rx_stop_for d = log (dma_rx_stop ∷ disable_dma ∷ []) (record d {
  transferring = false;
  streams = unregister_dma d.properties.dma_rx_unit d.properties.dma_rx_stream d.streams;
})

module _ (y : System) where
  unfoldable pub take_target : ℕ → ℕ → I2c → Option (JobSignal × I2c)
  take_target source size d = elim (double_target y d.ring_buffer d.job.actor source size d.store) [
    | none ↦ none
    | some (p, s) ↦
        some (
          if p == 0 then task_failure else task_continue,
          record d { output_buffer = p; store = s },
        )
  ]

  unfoldable pub give_up_target : I2c → Option (JobSignal × I2c)
  give_up_target d = elim (release y d.output_buffer d.job.actor d.store) [
    | none ↦ none
    | some s ↦
        some (halt, log (peripheral_disable ∷ []) (record d { output_buffer = 0; store = s }))
  ]

  unfoldable pub task_read_data : ℕ → ℕ → ℕ → Bus → I2c → Option (JobSignal × I2c)
  task_read_data address source size bus d =
      if d.job.task_phase == 0
      then (if bus.interrupted
          then some (task_quit_isr, record d { masked = true })
          else take_target source size (record d { masked = true }))
      else if d.job.task_phase == 1
      then some (task_continue, log (enable_ack ∷ send_start ∷ []) (record d { masked = false }))
      else if d.job.task_phase == 2
      then (if not bus.master_mode_select
          then some (task_loop, d)
          else some (task_continue, log (send_7bit_address address true ∷ []) d))
      else if d.job.task_phase == 3
      then (if not bus.receiver_mode_selected
          then some (task_loop, d)
          else some (task_wait, dma_rx_start_for d))
      else if d.job.task_phase == 4
      then (if not d.transferring || not ((d.store.buffers d.output_buffer).size == size)
          then some (task_loop, d)
          else some (task_success, log (peripheral_disable ∷ send_stop ∷ []) (dma_rx_stop_for d)))
      else if d.job.task_phase == code task_failure
      then give_up_target d
      else some (halt, d)

  abbrev pub is_read : EventType → Bool
  is_read read = true
  is_read _ = false

  -- The response to the event that started the job, or the release of the buffer.
  unfoldable pub respond : ℕ → I2c → Option (JobSignal × I2c)
  respond buffer d =
      let e : Event = record {
        type = response;
        status = waiting;
        payload = buffer;
        size = dynamic_size;
        argument = 0;
        producer = d.job.actor;
        consumer = d.job.inciting_event.producer;
      } in
      if is_read d.job.inciting_event.type
      then some (task_success, record d { published = d.published ++ (e ∷ []) })
      else elim (release y buffer d.job.actor d.store) [
        | none ↦ none
        | some s ↦ some (task_success, record d { store = s })
      ]

  unfoldable pub task_publish_response : I2c → Option (JobSignal × I2c)
  task_publish_response d =
      if d.job.task_phase == 0
      then elim (double_detach d.ring_buffer d.output_buffer d.job.actor d.store) [
        | none ↦ none
        | some (buffer, front, s) ↦ respond buffer (record d { output_buffer = front; store = s })
      ]
      else some (halt, d)

  unfoldable pub job_read : Bus → I2c → Option (JobSignal × I2c)
  job_read bus d =
      let e = d.job.inciting_event in
      if bus.error
      then some (task_failure, d)
      else if d.job.job_phase == 0
      then some (task_setup (slave_address e.argument) (memory_address e.argument) bus d)
      else if d.job.job_phase == 1
      then task_read_data (slave_address e.argument) e.payload e.size bus d
      else if d.job.job_phase == 2
      then task_publish_response d
      else some (if d.job.job_phase == code failure then failure else success, d)

  -- The state after what a peripheral has written is taken in.
  abbrev pub ingested : I2c → Option (Signal × Store) → Option I2c
  ingested d none = none
  ingested d (some (signal, s)) = some (record d { transferring = true; store = s })

  -- ACTOR_SIGNAL_DMA_TRANSFERRING, up to the execution of the job: `left` is what
  -- `dma_get_number_of_data` gives.
  unfoldable pub on_transferring : ℕ → ℕ → I2c → Option I2c
  on_transferring source left d =
      if match_source source d.properties.dma_rx_unit d.properties.dma_rx_stream
      then (let input = double_get_input d.ring_buffer d.output_buffer d.store in
          let buffer_size = u16 (d.store.buffers input).allocated_size in
          ingested d (
            double_ingest_external_write y d.ring_buffer d.output_buffer
              (u16 (2 ^ 16 + buffer_size - u16 left)) d.store))
      else some (record d { transferring = true })
