-- ===== src/Job/Progress.antt =====
-- The loop of `actor_job_execute` comes back: it makes a bounded number of passes for each step that
-- its handler takes.
use stm32app.Base.{
  ℕ, zero, suc, ◌+◌, ◌-◌, ◌*◌, ◌≤◌, ◌<◌, ◌≡◌, ◌≢◌, inl, inr, refl, Bool, true, false, some, arith,
  ◌==◌, if◌then◌else◌, Bool-cases,
}
use native.Mathlib.Decide.{ℕ_discrete}
use stm32app.Job.{
  JobSignal, halt, task_continue, task_retry, task_wait, task_quit_isr, task_loop, retry,
  task_success, task_failure, success, failure, JobSystem, Cell, advance_by, react, reset,
  call_handler, execute,
}
use stm32app.Job.Phases.{IsWorking}
use stm32app.Job.Passes.{
  IsSteady, IsTotal, Returns, round-again, round-stop, round-leave, on_end-halt, ended-Returns,
  reported-Returns, failing-Returns, committing_called, IsWorking-called, called_working,
}

-- The signals after which the loop goes on although the job is at work.
abbrev pub continues : JobSignal → Bool
continues task_continue = true
continues task_retry = true
continues task_quit_isr = true
continues task_success = true
continues _ = false

module _ {W : Type 0} (y : JobSystem W) where
  -- The steps that the handler has left: fewer after each call that goes on, and no more after the
  -- call whose result is not looked at.
  pub record IsRank (rank : Cell W → ℕ) : Type 0 where
    pub falls :
        (c : Cell W)
        → IsWorking c.job
        → continues (call_handler y c).0 ≡ true
        → rank (reset (call_handler y c).1) < rank c
    pub keeps : (c : Cell W) → c.job.task_phase ≡ 252 → rank (reset (call_handler y c).1) ≤ rank c

  module _ (steady : IsSteady y) (total : IsTotal y) where
    -- One round of a job at work, by the handler's signal; `next` are the rounds after one that goes
    -- on.
    work-Returns :
        (n : ℕ) (c : Cell W)
        → IsWorking c.job
        → (s : JobSignal) → (call_handler y c).0 ≡ s
        → (call_handler y c).1.job ≡ advance_by s (y.call c.job.handler c.job c.world).1
        → (continues s ≡ true → Returns y (suc (suc n)) (reset (call_handler y c).1))
        → Returns y (suc (suc (suc n))) c
    unfolding react advance_by call_handler
    work-Returns n c v halt q p next =
        let (d, f) = on_end-halt y steady total (call_handler y c).1 in
        round-stop y (suc (suc n)) c d (rw q f)
    work-Returns n c v task_continue q p next =
        round-again y (suc (suc n)) c (call_handler y c).1 (rw q refl) (next refl)
    work-Returns n c v task_retry q p next =
        round-again y (suc (suc n)) c (call_handler y c).1 (rw q refl) (next refl)
    work-Returns n c v task_success q p next =
        round-again y (suc (suc n)) c (call_handler y c).1 (rw q refl) (next refl)
    work-Returns n c v task_wait q p next =
        let d : Cell W = (call_handler y c).1 in
        let (r, h) = total.finalizes d.job.actor d.job.incoming_event d.world in
        round-stop y (suc (suc n)) c
          (record d { job = record (d.job) { incoming_event = r.0 }; world = r.1 })
          (rw (q, h, react) refl)
    work-Returns n c v task_quit_isr q p next =
        let d : Cell W = (call_handler y c).1 in
        let (w, h) = total.schedules d.job.thread d.job.actor d.world in
        elim (Bool-cases (y.interrupted d.job.thread d.world)) [
          | inl isr ↦
              round-leave y (suc (suc n)) c (record d { world = w }) (rw (q, isr, h, react) refl)
          | inr plain ↦ round-again y (suc (suc n)) c d (rw (q, plain, react) refl) (next refl)
        ]
    work-Returns n c v task_loop q p next =
        round-stop y (suc (suc n)) c (call_handler y c).1 (rw q refl)
    work-Returns n c v retry q p next =
        round-stop y (suc (suc n)) c (call_handler y c).1 (rw q refl)
    work-Returns n c v task_failure q p next =
        let v' : IsWorking (y.call c.job.handler c.job c.world).1 = IsWorking-called y steady c v in
        round-again y (suc (suc n)) c (call_handler y c).1 (rw q refl) (
          failing-Returns y steady total n (reset (call_handler y c).1) (rw p v'.not_success)
            (rw p v'.not_failure) (rw p refl))
    work-Returns n c v success q p next =
        reported-Returns y steady total (suc n) c success (inl refl) q (rw p refl)
    work-Returns n c v failure q p next =
        reported-Returns y steady total (suc n) c failure (inr refl) q (rw p refl)

    module _ (rank : Cell W → ℕ) (law : IsRank rank) where
      rounds-Returns :
          (n r : ℕ) (c : Cell W)
          → rank c ≤ r
          → 2 * r + (if c.job.task_phase == 252 then 4 else 3) ≤ n
          → Returns y n c
      rounds-Returns zero r c le fuel = absurd (ground arith)
      rounds-Returns (suc zero) r c le fuel = absurd (ground arith)
      rounds-Returns (suc (suc zero)) r c le fuel = absurd (ground arith)
      rounds-Returns (suc (suc (suc n))) r c le fuel = elim (ℕ_discrete c.job.job_phase 254) [
        | yes e ↦ ended-Returns y steady total (suc (suc n)) c (inl e)
        | no ns ↦ elim (ℕ_discrete c.job.job_phase 255) [
          | yes e ↦ ended-Returns y steady total (suc (suc n)) c (inr e)
          | no nf ↦ elim (ℕ_discrete c.job.task_phase 253) [
            | yes e ↦ failing-Returns y steady total (suc n) c ns nf e
            | no ntf ↦ elim (ℕ_discrete c.job.task_phase 252) [
              | yes e ↦
                  let (q, p) = committing_called y steady c ns nf e in
                  round-again y (suc (suc n)) c (call_handler y c).1 (unfold react in rw q refl) (
                    rounds-Returns (suc (suc n)) r (reset (call_handler y c).1)
                      (omega (arith, law.keeps c e)) (ground arith))
              | no nts ↦
                  let v : IsWorking c.job = record {
                    not_success = ns;
                    not_failure = nf;
                    no_task_success = nts;
                    no_task_failure = ntf;
                  } in
                  let (q, p) = called_working y steady c v in
                  work-Returns n c v _ q p λ more.
                    let falls : rank (reset (call_handler y c).1) < rank c =
                      law.falls c v (rw q more) in
                    rounds-Returns (suc (suc n)) (r - 1) (reset (call_handler y c).1) (omega arith)
                      (ground arith)
            ]
          ]
        ]
      ]

    -- A job whose handler's steps are bounded by `rank` comes back from `actor_job_execute` after
    -- at most twice as many rounds and four more, where finalizing events and scheduling come back,
    -- and handlers and callbacks leave the phases alone. A step is a call after which the loop goes
    -- on; a call whose result is ignored does not raise the rank.
    pub execute-returns :
        (rank : Cell W → ℕ)
        → IsRank rank
        → (c : Cell W) → c.slot ≢ 0
        → c.job.handler ≢ 0
        → (d : Cell W) × (execute y (2 * rank c + 4) c ≡ some d)
    unfolding execute
    execute-returns rank law c nz nh =
        let (d, h) =
          rounds-Returns rank law (2 * rank c + 4) (rank c) c (omega arith) (ground arith) in
        (d, ground arith)
