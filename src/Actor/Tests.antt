-- ===== src/Actor/Tests.antt =====
-- An actor at concrete inputs: it counts the calls of its methods, and has none to pause.
use stm32app.Base.{ℕ, ◌+◌, refl, none, some, none-ne_some, some-inj, ap, sym}
use stm32app.Actor.{running, stopped, pausing, Body, Methods, set_phase}
use stm32app.Base.{[], ◌∷◌, true}
use stm32app.Thread.{Thread, Rtos, Kernel}
use stm32app.Actor.Settling.{IsPassiveClass, EndsIn, set_phase-EndsIn}

abbrev counted : Body ℕ → Body ℕ
counted b = record b { world = b.world + 1 }

abbrev methods : Methods ℕ
methods = record {
  construct = none;
  link = none;
  destruct = none;
  start = some counted;
  stop = some counted;
  pause = none;
  resume = none;
  on_phase = some (λ p b. counted b);
}

methods-IsPassiveClass : IsPassiveClass methods
methods-IsPassiveClass = record {
  constructs = λ f h b. absurd (none-ne_some f h);
  links = tt;
  destructs = tt;
  starts = λ b. refl;
  stops = λ b. refl;
  pauses = tt;
  resumes = tt;
  notifies = λ f h p b. ap (λ g. (g p b).phase) (some-inj f (λ q a. counted a) (sym h));
}

set_phase-EndsIn_example :
    EndsIn stopped (set_phase methods pausing (record { phase = running; world = 0 }))
set_phase-EndsIn_example =
    set_phase-EndsIn methods methods-IsPassiveClass tt tt (λ f h b. absurd (none-ne_some f h))
      pausing (record { phase = running; world = 0 }) refl

abbrev kernel : Kernel
kernel = record {
  send = λ front e es. none;
  receive = λ es. none;
  notify = λ value overwrite slot. (true, some value);
}

-- Its worker for actor 3 has been busy on the thread at 9.
abbrev input : Thread
input = record {
  actor = 1;
  last_time = 0;
  current_time = 80;
  next_time = 90;
  task = 1;
  queue = 5;
  workers =
      record { last_time = 0; next_time = 0; thread = 9; actor = 3; catchup = 9; callback = 0 }
      ∷ [];
  flags = 0;
}

abbrev rtos : Rtos
rtos = record { queues = λ q. []; slots = λ t. none }
