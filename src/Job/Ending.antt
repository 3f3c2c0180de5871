-- ===== src/Job/Ending.antt =====
-- How a job ends in `actor_job_execute`, and what it leaves behind.
use stm32app.Base.{
  ℕ, suc, ◌≡◌, ◌≢◌, ◌⊎◌, ◌∙◌, inl, inr, refl, ap, Option-cases, Option, none, some, arith, false,
}
use stm32app.Job.{
  JobSignal, success, failure, code, is_halt, Job, advance, pending_value, JobSystem, Cell, again,
  advance_by, finalize_job, completed, finish, on_end, react, reset, call_handler, rounds,
}
use stm32app.Event.{Event}
use stm32app.Job.Phases.{IsWorking, advance-working}
use stm32app.Job.Passes.{
  IsSteady, IsWorking-called, called-zero, called-success, called-failure, on_end-report,
}

-- The last thing that the loop does, after the end of the job.
abbrev pub closing : {W : Type 0} → Option (Cell W) → Option (Cell W)
closing none = none
closing (some d) = some (reset d)

module _ {W : Type 0} (y : JobSystem W) (steady : IsSteady y) where
  round-closing :
      (n : ℕ) (c : Cell W) (s : JobSignal)
      → (call_handler y c).0 ≡ s
      → is_halt s ≡ false
      → (s ≡ success) ⊎ (s ≡ failure)
      → (call_handler y c).1.job.job_phase ≢ code s
      → rounds y (suc n) c ≡ closing (finish y (call_handler y c).1)
  unfolding rounds react on_end
  round-closing n c s q h k ne = elim (Option-cases (finish y (call_handler y c).1)) [
    | inl e ↦ ground arith
    | inr (d, e) ↦ ground arith
  ]

  round-report :
      (n : ℕ) (c : Cell W) (s : JobSignal)
      → (call_handler y c).0 ≡ s
      → (s ≡ success) ⊎ (s ≡ failure)
      → (call_handler y c).1.job.job_phase ≡ code s
      → rounds y (suc n) c ≡ rounds y n (reset (completed y (call_handler y c).1))
  unfolding rounds react
  round-report n c s q k p =
      let e : on_end y s (call_handler y c).1 ≡ some (again, completed y (call_handler y c).1) =
        on_end-report y steady s (call_handler y c).1 (ground arith) p in
      ground arith

  -- The two rounds from the report on.
  two_rounds :
      (n : ℕ) (c : Cell W) (s : JobSignal)
      → (call_handler y c).0 ≡ s
      → (s ≡ success) ⊎ (s ≡ failure)
      → (call_handler y c).1.job.job_phase ≡ code s
      → rounds y (suc (suc n)) c
        ≡ closing (finish y (call_handler y (reset (completed y (call_handler y c).1))).1)
  unfolding completed
  two_rounds n c s q k p =
      let d : Cell W = reset (completed y (call_handler y c).1) in
      let e : d.job.job_phase ≡ code s =
        steady.complete_job_phase (call_handler y c).1.job (call_handler y c).1.world ∙ p in
      round-report (suc n) c s q k p ∙ elim k [
        | inl h ↦
            let z : (call_handler y d).1.job.job_phase ≡ 0 =
              called-zero y steady d (inl (e ∙ ap code h)) in
            round-closing n d success (called-success y steady d (e ∙ ap code h)) refl (inl refl)
              (rw z (omega arith))
        | inr h ↦
            let z : (call_handler y d).1.job.job_phase ≡ 0 =
              called-zero y steady d (inr (e ∙ ap code h)) in
            round-closing n d failure (called-failure y steady d (e ∙ ap code h)) refl (inr refl)
              (rw z (omega arith))
      ]

  first_call :
      (c : Cell W) (s : JobSignal) (j : Job) (w : W)
      → IsWorking c.job
      → (s ≡ success) ⊎ (s ≡ failure)
      → y.call c.job.handler c.job c.world ≡ (s, j, w)
      → call_handler y c
        ≡ (s, record { slot = c.slot; job = record j { job_phase = code s }; world = w })
  unfolding call_handler advance_by
  first_call c s j w v k e =
      let working : IsWorking j = rw e at (IsWorking-called y steady c v) in
      rw (e, call_handler, advance-working j s working)
        (elim k [ inl h ↦ rw (h, advance_by) refl | inr h ↦ rw (h, advance_by) refl ])

  last_call :
      (c : Cell W) (s : JobSignal) (j : Job) (w : W)
      → (c.job.job_phase ≡ 254) ⊎ (c.job.job_phase ≡ 255)
      → y.call c.job.handler c.job c.world ≡ (s, j, w)
      → (call_handler y c).1 ≡ record { slot = c.slot; job = record j { job_phase = 0 }; world = w }
  unfolding call_handler advance
  last_call c s j w k e =
      let kept : j.job_phase ≡ c.job.job_phase =
        rw e at (steady.call_job_phase c.job.handler c.job c.world) in
      elim k [
        | inl h ↦ rw (e, call_handler, kept, h) refl
        | inr h ↦ rw (e, call_handler, kept, h) refl
      ]

  finish_lem :
      (c : Cell W) (e e' : Event) (w w' : W)
      → y.finalize_event c.job.actor c.job.inciting_event c.world ≡ some (e, w)
      → y.finalize_event c.job.actor c.job.incoming_event w ≡ some (e', w')
      → let freed = y.free (record (c.job) { inciting_event = e; incoming_event = e' }) w' in
        finish y c ≡ some (record { slot = 0; job = freed.0; world = y.idle c.job.actor freed.1 })
  unfolding finish finalize_job
  finish_lem c e e' w w' first second = rw (first, finish, finalize_job, second) refl

  -- A job at work whose handler reports success or failure with its first call, where handlers and
  -- callbacks leave the phases alone. The calls that are made, in this order: the handler; the report
  -- of the completion, with the phase that the signal stands for; the handler once more, whose signal
  -- makes no difference; the end of the event that started the job, and of the one that came in; the
  -- release of the job, with its phase back at 0; and the news to its actor. In the end the pointer is
  -- NULL, and the signal of the memory that was released is written.
  pub reports_once :
      (n : ℕ) (c : Cell W) (s s' : JobSignal) (j j' j'' : Job) (e e' : Event) (w w' w'' w3 w4 : W)
      → IsWorking c.job
      → (s ≡ success) ⊎ (s ≡ failure)
      → y.call c.job.handler c.job c.world ≡ (s, j, w)
      → y.complete (record j { job_phase = code s }) w ≡ (j', w')
      → y.call j'.handler (record j' { incoming_signal = pending_value }) w' ≡ (s', j'', w'')
      → y.finalize_event j''.actor j''.inciting_event w'' ≡ some (e, w3)
      → y.finalize_event j''.actor j''.incoming_event w3 ≡ some (e', w4)
      → let freed =
          y.free (record j'' { job_phase = 0; inciting_event = e; incoming_event = e' }) w4 in
        rounds y (suc (suc n)) c
        ≡ some (record {
          slot = 0;
          job = record (freed.0) { incoming_signal = pending_value };
          world = y.idle j''.actor freed.1;
        })
  unfolding completed
  reports_once n c s s' j j' j'' e e' w w' w'' w3 w4 v k called told recalled ended ended' =
      let done : Cell W = record {
        slot = c.slot;
        job = record j { job_phase = code s };
        world = w;
      } in
      let first : call_handler y c ≡ (s, done) = first_call c s j w v k called in
      let reset_cell : Cell W = record {
        slot = c.slot;
        job = record j' { incoming_signal = pending_value };
        world = w';
      } in
      let reported : reset (completed y (call_handler y c).1) ≡ reset_cell =
        rw (first, completed, told) refl in
      let phase : j'.job_phase ≡ code s =
        rw told at (steady.complete_job_phase (record j { job_phase = code s }) w) in
      let over : (j'.job_phase ≡ 254) ⊎ (j'.job_phase ≡ 255) = elim k [
        | inl h ↦ inl (phase ∙ ap code h)
        | inr h ↦ inr (phase ∙ ap code h)
      ] in
      let last : (call_handler y reset_cell).1
          ≡ record { slot = c.slot; job = record j'' { job_phase = 0 }; world = w'' } =
        last_call reset_cell s' j'' w'' over recalled in
      two_rounds n c s (rw first refl) k (rw first refl)
      ∙ ap (λ x. closing (finish y (call_handler y x).1)) reported
      ∙ ap (λ x. closing (finish y x)) last
      ∙ ap closing (
          finish_lem (record { slot = c.slot; job = record j'' { job_phase = 0 }; world = w'' }) e
            e' w3 w4 ended ended')
