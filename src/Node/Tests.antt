-- ===== src/Node/Tests.antt =====
-- A node at concrete inputs: three actors, of which two work on the thread at 90.
use stm32app.Base.{
  ◌<◌, ◌^◌, length, ℕ, ◌+◌, ◌*◌, ◌≡◌, ◌≢◌, ◌<◌, refl, Bool, true, false, none, some, Option, List,
  [], ◌∷◌, arith, ◌==◌, if◌then◌else◌,
}
use stm32app.Thread.{Worker}
use stm32app.Thread.Creation.{
  Obtained, Created, EndsWith, with_queue, fill_workers, thread_create, create_task, create_queue,
  thread_create-Ends,
}
use stm32app.Node.{NodeActor, Entry, enumerate_actors, iterate_workers, callback_of}
use stm32app.Node.Enumeration.{range, positions, enumerate_actors_lem}
use stm32app.Node.Workers.{IsServed, iterate_workers-count, created_serves}

abbrev node_actor : NodeActor
node_actor = record { seq = 0; type = 0x3000; on_worker_assignment = none }

abbrev timer : NodeActor
timer = record {
  seq = 1;
  type = 0x6100;
  on_worker_assignment = some (λ t. if t == 90 then 700 else 0);
}

abbrev flash : NodeActor
flash = record { seq = 0; type = 0x7100; on_worker_assignment = some (λ t. 800) }

abbrev actors : List NodeActor
actors = node_actor ∷ timer ∷ flash ∷ []

-- The dictionary has two timers, of which the first is disabled, and a flash.
abbrev od_find : ℕ → Option Entry
od_find index =
    if index == 0x6100
    then some (record { index = 0x6100; is_enabled = false; is_valid = true })
    else if index == 0x6101
    then some (record { index = 0x6101; is_enabled = true; is_valid = true })
    else if index == 0x7100
    then some (record { index = 0x7100; is_enabled = true; is_valid = true })
    else none

abbrev types : List ℕ
types = 0x6100 ∷ 0x7100 ∷ []

enumerate_actors_lem_example :
    ((enumerate_actors true true od_find types 0).0
      ≡ (enumerate_actors false false od_find types 0).0)
    × (positions (enumerate_actors true true od_find types 0).1
        ≡ range 0 (enumerate_actors false false od_find types 0).0)
enumerate_actors_lem_example = enumerate_actors_lem od_find types

abbrev address : ℕ → ℕ
address p = 500 + 40 * p

addresses_differ : (p q : ℕ) → p < q → address p ≢ address q
addresses_differ p q lt = omega (arith, lt)

abbrev obtained : Obtained
obtained = record { thread = 90; workers = 91; task = 92; queue = 93 }

abbrev iterate : Bool → ℕ × List Worker
iterate d = iterate_workers address 90 d 0 actors

few : (iterate false).0 < 2 ^ 16
unfolding iterate_workers
few = omega arith

thread_create-Ends_example :
    EndsWith obtained iterate 500 20 1 7 (thread_create obtained iterate 500 20 1 7)
thread_create-Ends_example =
    thread_create-Ends obtained iterate 500 20 1 (iterate_workers-count address 90 0 actors) few 7

abbrev made : Created
made = record {
  result = obtained.thread;
  slot = obtained.thread;
  thread = with_queue obtained iterate 500 20 1;
  held = record { thread = true; workers = true; task = true; queue = true };
}

creates : thread_create obtained iterate 500 20 1 7 ≡ some made
unfolding thread_create fill_workers create_task create_queue iterate_workers
creates = refl

created : made.result ≢ 0
created = omega arith

few_actors : length actors < 2 ^ 16
few_actors = omega arith

created_serves_example : IsServed address 90 (address 1) (callback_of 90 timer) made.thread.workers
created_serves_example =
    created_serves address addresses_differ obtained actors 500 20 1 7 1 timer made few_actors refl
      creates created
