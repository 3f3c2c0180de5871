-- ===== src/I2c/Tests.antt =====
-- The bus at concrete inputs: actor 3 sends the buffer at 50, of actor 7, to register 513 of chip 80.
use stm32app.Base.{
  ℕ, zero, suc, ◌≡◌, ◌≢◌, refl, true, false, Option, none, some, List, [], ◌∷◌, ◌==◌, if◌then◌else◌,
  arith, ◌+◌, ◌*◌,
}
use stm32app.Memory.Arena.{arena}
use stm32app.Buffer.{default_platform, dynamic_size}
use stm32app.Store.{
  Store, System, zero_buffer, pool_dispose, source_with_options, target_with_options, reference,
  dereference, release,
}
use stm32app.Event.{write, zero_event}
use stm32app.Job.{task_continue, zero_job, advance, advance_by}
use stm32app.Dma.{register_dma, unregister_dma}
use stm32app.I2c.{
  Bus, Call, I2c, peripheral_enable, peripheral_disable, send_start, send_stop, send_7bit_address,
  write_register, enable_dma, disable_dma, dma_tx_start, dma_tx_stop, log, task_setup,
  task_write_data, take_source, dma_tx_start_for, dma_tx_stop_for, end_sending, job_write,
}
use stm32app.I2c.Reading.{job_read}
use stm32app.I2c.Stages.{IsOnTheWay, advanced}
use stm32app.I2c.Order.{Steps, works, here, further, writes_in_order}
use stm32app.I2c.Errors.{thrice, in_phases, errors_end_jobs}

abbrev system : System
system = record {
  platform = default_platform arena;
  alloc = λ owner s. (60, s);
  dispose = pool_dispose;
}

abbrev store : Store
store = record {
  memory = record { byte = λ a. 0; blocks = [] };
  buffers = λ p.
      if p == 50
      then record zero_buffer { owner = 7; payload = 900; size = 4; allocated_size = 4; users = 1 }
      else zero_buffer;
}

abbrev ready : Bus
ready = record {
  error = false;
  master_mode_select = true;
  transmitter_mode_selected = true;
  receiver_mode_selected = true;
  txe = true;
  btf = true;
  interrupted = false;
}

abbrev fresh : I2c
fresh = record {
  properties = record { dma_rx_unit = 1; dma_rx_stream = 0; dma_tx_unit = 1; dma_tx_stream = 6 };
  job = record zero_job {
    actor = 3;
    inciting_event = record zero_event {
      type = write;
      payload = 50;
      size = dynamic_size;
      argument = 80 + 513 * 65536;
    };
  };
  transferring = true;
  masked = false;
  ring_buffer = 70;
  output_buffer = 0;
  source_buffer = 0;
  store = store;
  streams = λ i. 0;
  calls = [];
  published = [];
}

-- As many calls of the handler as there is fuel, with a transfer that has been told from the start.
abbrev run : ℕ → Option I2c → Option I2c
run zero o = o
run (suc n) none = none
run (suc n) (some d) = elim (job_write system ready d) [
  | none ↦ none
  | some r ↦ run n (some (advanced r))
]

abbrev calls_of : Option I2c → List Call
calls_of none = []
calls_of (some d) = d.calls

-- Ten calls send the buffer.
buffer_sent :
    calls_of (run 10 (some fresh))
    ≡ peripheral_enable
      ∷ send_start
      ∷ send_7bit_address 80 false
      ∷ write_register 513
      ∷ dma_tx_start 900 4
      ∷ enable_dma
      ∷ dma_tx_stop
      ∷ disable_dma
      ∷ send_stop
      ∷ peripheral_disable
      ∷ []
unfolding job_write task_setup task_write_data take_source dma_tx_start_for dma_tx_stop_for
    end_sending advance advance_by source_with_options target_with_options reference dereference
    release register_dma unregister_dma
buffer_sent = refl

abbrev started_bus : I2c
started_bus = advanced (task_continue, log (peripheral_enable ∷ send_start ∷ []) fresh)

first_call : Steps system fresh started_bus
unfolding job_write task_setup
first_call =
    works ready fresh (task_continue, log (peripheral_enable ∷ send_start ∷ []) fresh) refl refl

is_begun : fresh.job.job_phase ≢ 2
is_begun = omega arith

writes_in_order_example : IsOnTheWay [] fresh.job.inciting_event.argument started_bus
writes_in_order_example =
    writes_in_order system fresh started_bus refl refl refl
      (further fresh started_bus here is_begun first_call)

abbrev broken : Bus
broken = record ready { error = true }

abbrev at_work : I2c
at_work = in_phases 1 2 (record fresh { masked = true; source_buffer = 50 })

errors_end_jobs_example :
    (thrice (job_write system broken) at_work ≡ some (in_phases 0 253 at_work))
    × (thrice (job_read system broken) at_work ≡ some (in_phases 0 253 at_work))
errors_end_jobs_example = errors_end_jobs system broken at_work refl (omega arith) (omega arith)
