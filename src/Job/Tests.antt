-- ===== src/Job/Tests.antt =====
-- A job at concrete inputs: a handler that takes as many steps as the world says and then succeeds.
use stm32app.Base.{ℕ, zero, suc, ◌+◌, ◌≡◌, inl, refl, false, some, arith}
use stm32app.Job.{
  JobSignal, retry, task_continue, task_success, task_failure, success, failure, Job, zero_job,
  JobSystem, Cell, advance, call_handler, rounds, execute,
}
use stm32app.Job.Phases.{IsWorking, outcome_next_call}
use stm32app.Job.Passes.{IsSteady, IsTotal}
use stm32app.Job.Progress.{IsRank, execute-returns}
use stm32app.Job.Ending.{reports_once}
use stm32app.Event.{zero_event}

abbrev steps : ℕ → Job → ℕ → JobSignal × Job × ℕ
steps p j zero = (success, j, 0)
steps p j (suc w) = (task_continue, j, w)

abbrev system : JobSystem ℕ
system = record {
  call = steps;
  complete = λ j w. (j, w);
  idle = λ a w. w + 100;
  free = λ j w. (zero_job, w);
  interrupted = λ t w. false;
  finalize_event = λ a e w. some (zero_event, w);
  schedule_actor = λ t a w. some w;
}

steps-phases :
    (p : ℕ) (j : Job) (w : ℕ)
    → ((steps p j w).1.job_phase ≡ j.job_phase) × ((steps p j w).1.task_phase ≡ j.task_phase)
steps-phases p j zero = (refl, refl)
steps-phases p j (suc w) = (refl, refl)

system-IsSteady : IsSteady system
system-IsSteady = record {
  call_job_phase = λ p j w. (steps-phases p j w).0;
  call_task_phase = λ p j w. (steps-phases p j w).1;
  complete_job_phase = λ j w. refl;
}

system-IsTotal : IsTotal system
system-IsTotal = record {
  finalizes = λ a e w. ((zero_event, w), refl);
  schedules = λ t a w. (w, refl);
}

abbrev steps_left : Cell ℕ → ℕ
steps_left c = c.world

steps_left-IsRank : IsRank system steps_left
unfolding call_handler advance
steps_left-IsRank = record { falls = λ c v more. ground arith; keeps = λ c e. ground arith }

abbrev job : Job
job = record zero_job { actor = 3; handler = 9 }

job-IsWorking : IsWorking job
job-IsWorking = record {
  not_success = omega arith;
  not_failure = omega arith;
  no_task_success = omega arith;
  no_task_failure = omega arith;
}

abbrev cell : ℕ → Cell ℕ
cell w = record { slot = 40; job = job; world = w }

outcome_next_call_example :
    (advance (advance job task_success).1 retry
      ≡ (task_success, record job { job_phase = 1; task_phase = 0 }))
    × (advance (advance job task_failure).1 retry
        ≡ (failure, record job { job_phase = 255; task_phase = 253 }))
    × (advance (advance job success).1 retry ≡ (success, record job { job_phase = 0 }))
    × (advance (advance job failure).1 retry ≡ (failure, record job { job_phase = 0 }))
outcome_next_call_example = outcome_next_call job retry job-IsWorking

execute-returns_example : (d : Cell ℕ) × (execute system 8 (cell 2) ≡ some d)
execute-returns_example =
    execute-returns system system-IsSteady system-IsTotal steps_left steps_left-IsRank (cell 2)
      (omega arith) (omega arith)

abbrev pending_job : Job
pending_job = record job { job_phase = 254; incoming_signal = 1 }

reports_once_example :
    rounds system 2 (cell 0)
    ≡ some (record { slot = 0; job = record zero_job { incoming_signal = 1 }; world = 100 })
reports_once_example =
    reports_once system system-IsSteady 0 (cell 0) success success job
      (record job { job_phase = 254 }) pending_job zero_event zero_event 0 0 0 0 0 job-IsWorking
      (inl refl) refl refl refl refl refl
