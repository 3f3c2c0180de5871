-- ===== src/I2c/Errors.antt =====
-- What becomes of a job while the bus reports an error.
use stm32app.Base.{ℕ, ◌≡◌, ◌≤◌, refl, ap, ◌∙◌, true, false, Option, none, some, arith, ◌==◌}
use stm32app.Store.{System}
use stm32app.Job.{JobSignal, task_failure, advance, advance_by}
use stm32app.I2c.{Bus, I2c, job_write}
use stm32app.I2c.Reading.{job_read}
use stm32app.I2c.Stages.{advanced, goes}

abbrev pub after : Option (JobSignal × I2c) → Option I2c
after none = none
after (some r) = some (advanced r)

-- A call of a handler, where the one before came back.
abbrev pub call_again : (I2c → Option (JobSignal × I2c)) → Option I2c → Option I2c
call_again h none = none
call_again h (some d) = after (h d)

-- Three calls of a handler, with the phases after each.
abbrev pub thrice : (I2c → Option (JobSignal × I2c)) → I2c → Option I2c
thrice h d = call_again h (call_again h (call_again h (some d)))

abbrev pub in_phases : ℕ → ℕ → I2c → I2c
in_phases j t d = record d { job = record (d.job) { job_phase = j; task_phase = t } }

first_failure :
    (d : I2c)
    → d.job.job_phase ≤ 1
    → d.job.task_phase ≤ 3
    → advanced (task_failure, d) ≡ in_phases d.job.job_phase 253 d
unfolding advance_by
first_failure d j t = rw (goes task_failure d j t) refl

second_failure :
    (d : I2c)
    → d.job.job_phase ≤ 1
    → d.job.task_phase ≡ 253
    → advanced (task_failure, d) ≡ in_phases 255 253 d
unfolding advance
second_failure d j t =
    let x : (d.job.job_phase == 255) ≡ false = ground (arith, j) in
    let y : (d.job.job_phase == 254) ≡ false = ground (arith, j) in rw (x, y, t) refl

third_failure :
    (d : I2c) → d.job.job_phase ≡ 255 → advanced (task_failure, d) ≡ in_phases 0 d.job.task_phase d
unfolding advance
third_failure d j = rw j refl

failing :
    (h : I2c → Option (JobSignal × I2c)) (d : I2c)
    → ((d' : I2c) → h d' ≡ some (task_failure, d'))
    → d.job.job_phase ≤ 1
    → d.job.task_phase ≤ 3
    → thrice h d ≡ some (in_phases 0 253 d)
failing h d e j t =
    let a : after (h d) ≡ some (in_phases d.job.job_phase 253 d) =
      ap after (e d) ∙ ap some (first_failure d j t) in
    let b : after (h (in_phases d.job.job_phase 253 d)) ≡ some (in_phases 255 253 d) =
      ap after (e _) ∙ ap some (second_failure (in_phases d.job.job_phase 253 d) j refl) in
    let c : after (h (in_phases 255 253 d)) ≡ some (in_phases 0 253 d) =
      ap after (e _) ∙ ap some (third_failure (in_phases 255 253 d) refl) in
    ap (λ o. call_again h (call_again h o)) a ∙ (ap (call_again h) b ∙ c)

-- While the bus reports an error, three calls of the handler end a job that is in one of its first
-- phases, of reading or of writing, and the phases of the job are all that they change: the buffer is
-- not released, the bus and DMA are not stopped, and the interrupts of events stay disabled if they
-- were.
pub errors_end_jobs :
    (y : System) (bus : Bus) (d : I2c)
    → bus.error ≡ true
    → d.job.job_phase ≤ 1
    → d.job.task_phase ≤ 3
    → (thrice (job_write y bus) d ≡ some (in_phases 0 253 d))
      × (thrice (job_read y bus) d ≡ some (in_phases 0 253 d))
unfolding job_write job_read
errors_end_jobs y bus d error j t = (
  failing (job_write y bus) d (λ d'. rw error refl) j t,
  failing (job_read y bus) d (λ d'. rw error refl) j t,
)
