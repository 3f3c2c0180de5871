-- ===== src/Job/Passes.antt =====
-- The passes of the loop of `actor_job_execute`, by what the phases say.
use stm32app.Base.{
  some-ne_none, ℕ, suc, ◌≡◌, ◌≢◌, ◌⊎◌, ◌∙◌, inl, inr, refl, ap, false, some, arith, Option-cases,
}
use stm32app.Event.{Event}
use stm32app.Job.{
  JobSignal, halt, task_success, success, failure, code, is_halt, Job, JobSystem, Cell, again, stop,
  leave, advance, advance_by, finalize_job, completed, finish, on_end, react, reset, call_handler,
  rounds,
}
use stm32app.Job.Phases.{IsWorking, advance-working}

-- Handlers and completion callbacks leave the phases to job.c.
pub record IsSteady {W : Type 0} (y : JobSystem W) : Type 0 where
  pub call_job_phase : (p : ℕ) (j : Job) (w : W) → (y.call p j w).1.job_phase ≡ j.job_phase
  pub call_task_phase : (p : ℕ) (j : Job) (w : W) → (y.call p j w).1.task_phase ≡ j.task_phase
  pub complete_job_phase : (j : Job) (w : W) → (y.complete j w).0.job_phase ≡ j.job_phase

-- What event.c and thread.c do for the loop comes back.
pub record IsTotal {W : Type 0} (y : JobSystem W) : Type 0 where
  pub finalizes : (a : ℕ) (e : Event) (w : W) → (r : Event × W) × (y.finalize_event a e w ≡ some r)
  pub schedules : (t a : ℕ) (w : W) → (r : W) × (y.schedule_actor t a w ≡ some r)

module _ {W : Type 0} (y : JobSystem W) where
  abbrev pub Returns : ℕ → Cell W → Type 0
  Returns n c = (d : Cell W) × (rounds y n c ≡ some d)

  pub round-again :
      (n : ℕ) (c d : Cell W)
      → react y (call_handler y c).0 (call_handler y c).1 ≡ some (again, d)
      → Returns n (reset d)
      → Returns (suc n) c
  unfolding rounds
  round-again n c d e (r, h) = (r, rw (e, rounds) h)

  pub round-stop :
      (n : ℕ) (c d : Cell W)
      → react y (call_handler y c).0 (call_handler y c).1 ≡ some (stop, d)
      → Returns (suc n) c
  unfolding rounds
  round-stop n c d e = (reset d, rw (e, rounds) refl)

  pub round-leave :
      (n : ℕ) (c d : Cell W)
      → react y (call_handler y c).0 (call_handler y c).1 ≡ some (leave, d)
      → Returns (suc n) c
  unfolding rounds
  round-leave n c d e = (d, rw (e, rounds) refl)

  module _ (steady : IsSteady y) where
    -- One whose phase is the signal's has its completion reported.
    pub on_end-report :
        (s : JobSignal) (c : Cell W)
        → is_halt s ≡ false
        → c.job.job_phase ≡ code s
        → on_end y s c ≡ some (again, completed y c)
    unfolding on_end completed
    on_end-report s c h e =
        let same : (completed y c).job.job_phase ≡ code s =
          (unfold completed in steady.complete_job_phase c.job c.world) ∙ e in
        ground (arith, same)

    pub called-success : (c : Cell W) → c.job.job_phase ≡ 254 → (call_handler y c).0 ≡ success
    unfolding call_handler advance
    called-success c h = ground (arith, steady.call_job_phase c.job.handler c.job c.world)

    pub called-failure : (c : Cell W) → c.job.job_phase ≡ 255 → (call_handler y c).0 ≡ failure
    unfolding call_handler advance
    called-failure c h = ground (arith, steady.call_job_phase c.job.handler c.job c.world)

    pub called-zero :
        (c : Cell W)
        → (c.job.job_phase ≡ 254) ⊎ (c.job.job_phase ≡ 255)
        → (call_handler y c).1.job.job_phase ≡ 0
    unfolding call_handler advance
    called-zero c h = ground (arith, steady.call_job_phase c.job.handler c.job c.world)

    pub failing_called :
        (c : Cell W)
        → c.job.job_phase ≢ 254
        → c.job.job_phase ≢ 255
        → c.job.task_phase ≡ 253
        → ((call_handler y c).0 ≡ failure) × ((call_handler y c).1.job.job_phase ≡ 255)
    unfolding call_handler advance
    failing_called c ns nf e = ground (
      arith,
      steady.call_job_phase c.job.handler c.job c.world,
      steady.call_task_phase c.job.handler c.job c.world,
    )

    pub committing_called :
        (c : Cell W)
        → c.job.job_phase ≢ 254
        → c.job.job_phase ≢ 255
        → c.job.task_phase ≡ 252
        → ((call_handler y c).0 ≡ task_success) × ((call_handler y c).1.job.task_phase ≡ 0)
    unfolding call_handler advance
    committing_called c ns nf e = ground (
      arith,
      steady.call_job_phase c.job.handler c.job c.world,
      steady.call_task_phase c.job.handler c.job c.world,
    )

    pub IsWorking-called :
        (c : Cell W) → IsWorking c.job → IsWorking (y.call c.job.handler c.job c.world).1
    IsWorking-called c v = ground (
      arith,
      steady.call_job_phase c.job.handler c.job c.world,
      steady.call_task_phase c.job.handler c.job c.world,
    )

    -- At work the handler's signal is the round's, and `advance_by` moves the phases.
    pub called_working :
        (c : Cell W)
        → IsWorking c.job
        → ((call_handler y c).0 ≡ (y.call c.job.handler c.job c.world).0)
          × ((call_handler y c).1.job
              ≡ advance_by
                  (y.call c.job.handler c.job c.world).0
                  (y.call c.job.handler c.job c.world).1)
    unfolding call_handler
    called_working c v =
        rw
          (advance-working (y.call c.job.handler c.job c.world).1
            (y.call c.job.handler c.job c.world).0 (IsWorking-called c v))
          (refl, refl)

  module _ (steady : IsSteady y) (total : IsTotal y) where
    pub finish-total : (c : Cell W) → (d : Cell W) × (finish y c ≡ some d)
    unfolding finish finalize_job
    finish-total c =
        let (r, h) = total.finalizes c.job.actor c.job.inciting_event c.world in
        let (r', h') = total.finalizes c.job.actor c.job.incoming_event r.1 in
        elim (Option-cases (finish y c)) [
          | inl e ↦ absurd (some-ne_none _ (rw (h, finish, finalize_job, h') at e))
          | inr found ↦ found
        ]

    -- A job whose phase is not the signal's is finished.
    pub on_end-finish :
        (s : JobSignal) (c : Cell W)
        → is_halt s ≡ false
        → c.job.job_phase ≢ code s
        → (d : Cell W) × (on_end y s c ≡ some (stop, d))
    unfolding on_end
    on_end-finish s c h ne = let (d, f) = finish-total c in (d, ground arith)

    pub on_end-halt : (c : Cell W) → (d : Cell W) × (on_end y halt c ≡ some (stop, d))
    unfolding on_end
    on_end-halt c = let (d, f) = finish-total (completed y c) in (d, ground arith)

    -- The job has ended: the next round is the last.
    pub ended-Returns :
        (n : ℕ) (c : Cell W) → (c.job.job_phase ≡ 254) ⊎ (c.job.job_phase ≡ 255) → Returns (suc n) c
    unfolding react
    ended-Returns n c (inl h) =
        let p : (call_handler y c).1.job.job_phase ≡ 0 = called-zero steady c (inl h) in
        let (d, f) = on_end-finish success (call_handler y c).1 refl (rw p (omega arith)) in
        round-stop n c d (rw (called-success steady c h, react) f)
    ended-Returns n c (inr h) =
        let p : (call_handler y c).1.job.job_phase ≡ 0 = called-zero steady c (inr h) in
        let (d, f) = on_end-finish failure (call_handler y c).1 refl (rw p (omega arith)) in
        round-stop n c d (rw (called-failure steady c h, react) f)

    -- A round that reports the end of the job has one more to come.
    pub reported-Returns :
        (n : ℕ) (c : Cell W) (s : JobSignal)
        → (s ≡ success) ⊎ (s ≡ failure)
        → (call_handler y c).0 ≡ s
        → (call_handler y c).1.job.job_phase ≡ code s
        → Returns (suc (suc n)) c
    unfolding completed react
    reported-Returns n c s k q p =
        let d : Cell W = (call_handler y c).1 in
        let same : (completed y d).job.job_phase ≡ code s =
          steady.complete_job_phase d.job d.world ∙ p in
        elim k [
          | inl e ↦
              round-again (suc n) c (completed y d)
                (rw (q, e, react) (on_end-report steady success d refl (p ∙ ap code e)))
                (ended-Returns n (reset (completed y d)) (inl (same ∙ ap code e)))
          | inr e ↦
              round-again (suc n) c (completed y d)
                (rw (q, e, react) (on_end-report steady failure d refl (p ∙ ap code e)))
                (ended-Returns n (reset (completed y d)) (inr (same ∙ ap code e)))
        ]

    pub failing-Returns :
        (n : ℕ) (c : Cell W)
        → c.job.job_phase ≢ 254
        → c.job.job_phase ≢ 255
        → c.job.task_phase ≡ 253
        → Returns (suc (suc n)) c
    failing-Returns n c ns nf e =
        let (q, p) = failing_called steady c ns nf e in reported-Returns n c failure (inr refl) q p
