-- ===== src/Intake/Tests.antt =====
-- Starting jobs at concrete inputs: a free slot for jobs of actor 3, which works on the thread at 9.
use stm32app.Base.{ℕ, ◌≡◌, refl, true, none, some, [], ◌∷◌, arith, ◌==◌, if◌then◌else◌}
use stm32app.Signal.{busy, handled, deferred, addressed}
use stm32app.Memory.Arena.{arena}
use stm32app.Buffer.{default_platform}
use stm32app.Store.{System, zero_buffer, pool_dispose}
use stm32app.Event.{Event, read, write, zero_event, set_status, accept_and_process}
use stm32app.Job.{Job, zero_job}
use stm32app.Thread.{
  Thread, Worker, Kernel, never, actor_schedule, worker_for, worker_schedule, schedule,
  notify_generic,
}
use stm32app.Intake.{Desk, accept_and_start_job, claim_slot, start_job, schedule_now}
use stm32app.Intake.Starting.{one_event_at_a_time}

abbrev system : System
system = record {
  platform = default_platform arena;
  alloc = λ owner s. (60, s);
  dispose = pool_dispose;
}

abbrev kernel : Kernel
kernel = record {
  send = λ front e es. none;
  receive = λ es. none;
  notify = λ value overwrite slot. (true, some value);
}

abbrev worker : Worker
worker = record {
  last_time = 0;
  next_time = never;
  thread = 9;
  actor = 3;
  catchup = 0;
  callback = 0;
}

abbrev thread : Thread
thread = record {
  actor = 1;
  last_time = 0;
  current_time = 80;
  next_time = 90;
  task = 1;
  queue = 0;
  workers = worker ∷ [];
  flags = 0;
}

abbrev event : Event
event = record zero_event { type = write; payload = 1000; size = 8; producer = 7 }

abbrev desk : Desk
desk = record {
  slot = 0;
  job = zero_job;
  event = event;
  store = record { memory = record { byte = λ a. 0; blocks = [] }; buffers = λ p. zero_buffer };
  thread = thread;
  rtos = record { queues = λ q. []; slots = λ t. none };
}

abbrev alloc : ℕ → ℕ × Job
alloc _ = (40, zero_job)

-- After the first event has started a job.
abbrev working : Desk
working = record desk {
  slot = 40;
  job = record zero_job {
    actor = 3;
    thread = 9;
    handler = 5;
    inciting_event = record event { status = handled };
  };
  event = record event { status = handled };
  thread = record thread { next_time = 80; workers = record worker { next_time = 80 } ∷ [] };
  rtos = record { queues = λ q. []; slots = λ t. if t == 1 then some 8 else none };
}

abbrev second : Event
second = record zero_event { type = read; producer = 6 }

one_event_at_a_time_example :
    accept_and_start_job system kernel alloc 3 9 6 handled addressed
      (record working { event = second })
    ≡ some (busy, record working { event = record second { status = addressed } })
unfolding accept_and_start_job claim_slot start_job schedule_now accept_and_process set_status
    actor_schedule worker_for worker_schedule schedule notify_generic
one_event_at_a_time_example =
    one_event_at_a_time system kernel alloc 3 9 5 handled deferred desk working refl refl
      (omega arith) second 3 9 6 handled addressed (omega arith)
