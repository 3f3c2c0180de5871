-- ===== src/Storage/Tests.antt =====
-- The paging of at24c.c at concrete inputs: pages of eight bytes.
use stm32app.Base.{ℕ, ◌+◌, ◌≡◌, ◌<◌, refl, some, [], arith, ◌==◌, if◌then◌else◌}
use stm32app.Memory.Arena.{arena}
use stm32app.Buffer.{default_platform}
use stm32app.Store.{System, zero_buffer, pool_dispose}
use stm32app.Event.{read_to_buffer}
use stm32app.Job.{zero_job, task_wait, task_loop}
use stm32app.Storage.{Eeprom, transfer}
use stm32app.Storage.Paging.{Moves, transfer-within, transfer_overshoots}

abbrev system : System
system = record {
  platform = default_platform arena;
  alloc = λ owner s. (60, s);
  dispose = pool_dispose;
}

abbrev pack : ℕ → ℕ
pack a = 80 + a

abbrev eeprom : Eeprom
eeprom = record {
  i2c = 4;
  page_size = 8;
  target_buffer = 50;
  source_buffer = 51;
  job = zero_job;
  store = record { memory = record { byte = λ a. 0; blocks = [] }; buffers = λ p. zero_buffer };
  published = [];
}

transfer-within_example :
    (d' : Eeprom) × (transfer system pack read_to_buffer 50 6 2 eeprom ≡ some (task_wait, d'))
    × Moves pack read_to_buffer 50 6 2 eeprom d'
transfer-within_example =
    transfer-within system pack read_to_buffer 50 6 2 eeprom refl (omega arith) (omega arith)
      (omega arith) (omega arith)

transfer_overshoots_example :
    (d' : Eeprom) × (transfer system pack read_to_buffer 50 6 4 eeprom ≡ some (task_loop, d'))
    × Moves pack read_to_buffer 50 6 2 eeprom d'
    × ((d'' : Eeprom) × (transfer system pack read_to_buffer 50 6 4 d' ≡ some (task_loop, d''))
        × Moves pack read_to_buffer 50 6 4 d' d''
        × (4 < d''.job.counter))
transfer_overshoots_example =
    transfer_overshoots system pack read_to_buffer 50 6 4 eeprom refl (omega arith) (omega arith)
      (omega arith) (omega arith) (omega arith)

-- Both reads are done: the chip held 255 and holds 0.
abbrev read_twice : Eeprom
read_twice = record eeprom {
  job = record zero_job { job_phase = 3; result = 52 };
  store = record (eeprom.store) {
    buffers = λ p. if p == 52 then record zero_buffer { payload = 100 } else zero_buffer;
  };
}
