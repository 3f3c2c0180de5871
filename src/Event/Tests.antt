-- ===== src/Event/Tests.antt =====
-- Events at concrete inputs: one that carries the buffer at 50, of actor 7, to actor 3.
use stm32app.Base.{◌≡◌, refl, none, some, [], arith, ◌==◌, if◌then◌else◌}
use stm32app.Signal.{handled, deferred}
use stm32app.Memory.Arena.{arena}
use stm32app.Buffer.{default_platform, dynamic_size}
use stm32app.Store.{Store, System, zero_buffer, pool_dispose}
use stm32app.Store.Users.{counted}
use stm32app.Event.{Event, write, zero_event, set_status, accept_and_process, finalize}
use stm32app.Event.Life.{put_off, claims_once, no_report, taken_and_finalized}

abbrev system : System
system = record {
  platform = default_platform arena;
  alloc = λ owner s. (60, s);
  dispose = pool_dispose;
}

abbrev store : Store
store = record {
  memory = record { byte = λ a. 0; blocks = [] };
  buffers = λ p. if p == 50 then record zero_buffer { owner = 7 } else zero_buffer;
}

abbrev event : Event
event = record zero_event { type = write; payload = 50; size = dynamic_size; producer = 7 }

claims_once_example :
    (elim (put_off system 3 2 event (counted 50 1 store)) [
      | none ↦ none
      | some (e', s') ↦ set_status system 3 e' handled s'
    ])
    ≡ some (record event { status = handled; consumer = 3 }, counted 50 2 store)
claims_once_example =
    claims_once system 3 event store 1 refl (omega arith) (omega arith) (omega arith) refl 2

taken_and_finalized_example :
    (elim (put_off system 3 2 event (counted 50 1 store)) [
      | none ↦ none
      | some (e', s') ↦
          elim (accept_and_process system 3 e' (some zero_event) handled deferred none s') [
            | none ↦ none
            | some a ↦ finalize system no_report 3 a.slot a.store
          ]
    ])
    ≡ some (zero_event, counted 50 1 store)
taken_and_finalized_example =
    taken_and_finalized system 3 event store 1 refl (omega arith) (omega arith) (omega arith) refl 2
      refl refl
