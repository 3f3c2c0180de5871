-- ===== src/W25/Tests.antt =====
-- The jobs of the flash at concrete inputs: the chip is busy where memory holds 1.
use stm32app.Base.{ℕ, zero, suc, ◌-◌, ◌≡◌, ◌≢◌, refl, some, List, [], ◌∷◌, ◌++◌, arith, All}
use stm32app.Event.{Event, zero_event}
use stm32app.Job.{zero_job, advance, advance_by}
use stm32app.Bytes.{get_number_of_bytes_intesecting_page}
use stm32app.W25.{
  Flash, command, cmd_lock, cmd_unlock, spi_transfer, set_lock, write_in_pages, command_job,
  job_write, call_once,
}
use stm32app.W25.Calls.{calls, copies, IsCommand}
use stm32app.W25.Pages.{job_write-IsCommand}
use stm32app.W25.Commands.{sent_by}
use stm32app.W25.Polling.{query_by, polls}
use stm32app.W25.Whole.{command_job_lem}

abbrev memory : ℕ → ℕ
memory p = p - 1

abbrev fresh : Flash
fresh = record { spi = 4; job = record zero_job { actor = 3 }; transfers = [] }

abbrev answer : ℕ → Event
answer p = record zero_event { payload = p }

abbrev many : ℕ → List Event
many zero = []
many (suc n) = zero_event ∷ many n

given : (answer 1).payload ≢ 0
given = omega arith

given_busy : (answer 2).payload ≢ 0
given_busy = omega arith

command_job_lem_example :
    (g : Flash) × (calls memory
        (command_job memory (cmd_unlock ∷ []) 1 0)
        ((polls ((zero_event, answer 2) ∷ []) ++ (zero_event ∷ answer 1 ∷ answer 1 ∷ []))
          ++ (many 252 ++ (zero_event ∷ [])))
        fresh
      ≡ some g)
    × (g.job.job_phase ≡ 2)
    × (g.transfers
        ≡ ([] ++ copies 2 (query_by fresh))
          ++ copies 253 (sent_by memory (cmd_unlock ∷ []) 1 0 fresh))
command_job_lem_example =
    command_job_lem memory (cmd_unlock ∷ []) 1 0 ((zero_event, answer 2) ∷ []) zero_event (answer 1)
      (answer 1) zero_event (many 252) fresh refl refl ((given_busy, refl), tt) (given, refl) given
      refl

-- 300 bytes at 100 are to be written to address 0.
abbrev writing : Flash
writing = record fresh {
  job = record (fresh.job) {
    job_phase = 2;
    inciting_event = record zero_event { payload = 100; size = 300 };
  };
}

abbrev locked : Flash
locked = record writing {
  job = record (writing.job) { counter = 256 };
  transfers =
      record {
        consumer = 4;
        producer = 3;
        write_data = command (cmd_lock ∷ []);
        write_size = 1;
        read_size = 0;
      }
      ∷ [];
}

writes : calls memory (job_write memory) (many 2) writing ≡ some locked
unfolding calls call_once job_write write_in_pages set_lock spi_transfer advance advance_by
    get_number_of_bytes_intesecting_page
writes = refl

job_write-IsCommand_example : All IsCommand locked.transfers
job_write-IsCommand_example = job_write-IsCommand memory (many 2) writing locked refl tt writes
