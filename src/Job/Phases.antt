-- ===== src/Job/Phases.antt =====
-- The phase machine of `actor_job_advance`, over two calls of the handler.
use stm32app.Base.{◌+◌, ◌≡◌, ◌≢◌, arith}
use stm32app.Buffer.{u32}
use stm32app.Job.{JobSignal, task_success, task_failure, success, failure, Job, advance, advance_by}

-- None of the phases says how the job or the task has ended.
pub record IsWorking (j : Job) : Type 0 where
  pub not_success : j.job_phase ≢ 254
  pub not_failure : j.job_phase ≢ 255
  pub no_task_success : j.task_phase ≢ 252
  pub no_task_failure : j.task_phase ≢ 253

pub advance-working : (j : Job) (s : JobSignal) → IsWorking j → advance j s ≡ (s, advance_by s j)
unfolding advance
advance-working j s v = ground arith

-- The outcome of a job or a task in its first phases takes effect at the handler's next call, whatever
-- that call returns: a task's success moves the job on to the first phase of its next task, a task's
-- failure fails the job, and a job that has succeeded or failed ends with its phase back at 0.
pub outcome_next_call :
    (j : Job) (s : JobSignal)
    → IsWorking j
    → (advance (advance j task_success).1 s
        ≡ (task_success, record j { job_phase = u32 (j.job_phase + 1); task_phase = 0 }))
      × (advance (advance j task_failure).1 s
          ≡ (failure, record j { job_phase = 255; task_phase = 253 }))
      × (advance (advance j success).1 s ≡ (success, record j { job_phase = 0 }))
      × (advance (advance j failure).1 s ≡ (failure, record j { job_phase = 0 }))
unfolding advance advance_by
outcome_next_call j s v = ground arith
