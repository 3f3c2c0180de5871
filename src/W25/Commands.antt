-- ===== src/W25/Commands.antt =====
-- How often a command is sent.
use mathlib.Core.List.{append_assoc, append-nil}
use stm32app.Base.{
  ℕ, suc, ◌+◌, ◌%◌, ◌^◌, ◌≡◌, ◌<◌, refl, sym, ◌∙◌, true, false, some, List, [], ◌∷◌, ◌++◌, ◌==◌,
  arith, length,
}
use stm32app.Event.{Event}
use stm32app.Job.{
  task_wait, task_success, task_failure, success, failure, Job, advance, advance_by, code,
}
use stm32app.W25.{Flash, FlashHandler, Transfer, command, spi_transfer, command_job, call_once}
use stm32app.W25.Calls.{with_incoming, calls, calls_cons, calls_append, calls_nil, copies}

advance_waits :
    (j : Job)
    → j.job_phase ≡ 1
    → j.task_phase < 252
    → advance j task_wait ≡ (task_wait, record j { task_phase = suc j.task_phase })
unfolding advance advance_by
advance_waits j phase early =
    let a : (j.job_phase == code failure) ≡ false = ground (arith, phase) in
    let b : (j.job_phase == code success) ≡ false = ground (arith, phase) in
    let c : (j.task_phase == code task_failure) ≡ false = ground (arith, early) in
    let d : (j.task_phase == code task_success) ≡ false = ground (arith, early) in
    let n : (j.task_phase + 1) % 2 ^ 32 ≡ suc j.task_phase = omega (arith, early) in
    rw (a, b, c, d, n) refl

advance_ends :
    (j : Job)
    → j.job_phase ≡ 1
    → j.task_phase ≡ 252
    → advance j task_wait ≡ (task_success, record j { job_phase = 2; task_phase = 0 })
unfolding advance
advance_ends j phase late =
    let a : (j.job_phase == code failure) ≡ false = ground (arith, phase) in
    let b : (j.job_phase == code success) ≡ false = ground (arith, phase) in
    let c : (j.task_phase == code task_failure) ≡ false = ground (arith, late) in
    let d : (j.task_phase == code task_success) ≡ true = ground (arith, late) in
    let n : (j.job_phase + 1) % 2 ^ 32 ≡ 2 = omega (arith, phase) in rw (a, b, c, d, n) refl

module _ (m : ℕ → ℕ) (bytes : List ℕ) (write_size read_size : ℕ) where
  abbrev pub command_handler : FlashHandler
  command_handler = command_job m bytes write_size read_size

  abbrev pub sent_by : Flash → Transfer
  sent_by f = record {
    consumer = f.spi;
    producer = f.job.actor;
    write_data = command bytes;
    write_size = write_size;
    read_size = read_size;
  }

  abbrev resent : Event → Flash → Flash
  resent e f = record f {
    job = record (f.job) { incoming_event = e; task_phase = suc f.job.task_phase };
    transfers = f.transfers ++ (sent_by f ∷ []);
  }

  sends :
      (f : Flash)
      → f.job.job_phase ≡ 1
      → command_handler f
        ≡ some (task_wait, record f { transfers = f.transfers ++ (sent_by f ∷ []) })
  unfolding command_job spi_transfer
  sends f phase =
      let later : (f.job.job_phase == 0) ≡ false = ground (arith, phase) in
      let first : (f.job.job_phase == 1) ≡ true = ground (arith, phase) in rw (later, first) refl

  call_resends :
      (e : Event) (f : Flash)
      → f.job.job_phase ≡ 1
      → f.job.task_phase < 252
      → call_once m command_handler (with_incoming e f) ≡ some (task_wait, resent e f)
  unfolding call_once
  call_resends e f phase early =
      rw (sends (with_incoming e f) phase, call_once)
        (rw (advance_waits (record (f.job) { incoming_event = e }) phase early) refl)

  call_ends :
      (e : Event) (f : Flash)
      → f.job.job_phase ≡ 1
      → f.job.task_phase ≡ 252
      → call_once m command_handler (with_incoming e f)
        ≡ some (
          task_success,
          record f {
            job = record (f.job) { incoming_event = e; task_phase = 0; job_phase = 2 };
            transfers = f.transfers ++ (sent_by f ∷ []);
          },
        )
  unfolding call_once
  call_ends e f phase late =
      rw (sends (with_incoming e f) phase, call_once)
        (rw (advance_ends (record (f.job) { incoming_event = e }) phase late) refl)

  -- A command that is sent once is sent again at every event that comes in.
  resends :
      (es : List Event) (f : Flash)
      → f.job.job_phase ≡ 1
      → f.job.task_phase + length es ≡ 252
      → (g : Flash) × (calls m command_handler es f ≡ some g)
        × (g.job.job_phase ≡ 1)
        × (g.job.task_phase ≡ 252)
        × (sent_by g ≡ sent_by f)
        × (g.transfers ≡ f.transfers ++ copies (length es) (sent_by f))
  unfolding calls
  resends [] f phase n = (f, refl, phase, omega (arith, n), refl, sym (append-nil f.transfers))
  resends (e ∷ es) f phase n =
      let (g, run, phase', task, same, sent) = resends es (resent e f) phase (omega (arith, n)) in
      (
        g,
        calls_cons m command_handler e es f _ task_wait (call_resends e f phase (omega (arith, n)))
            ∙ run,
        phase',
        task,
        same,
        sent ∙ append_assoc f.transfers (sent_by f ∷ []) _,
      )

  pub sends_on :
      (es : List Event) (e : Event) (f : Flash)
      → f.job.job_phase ≡ 1
      → f.job.task_phase ≡ 0
      → length es ≡ 252
      → (g : Flash) × (calls m command_handler (es ++ (e ∷ [])) f ≡ some g)
        × (g.job.job_phase ≡ 2)
        × (g.transfers ≡ (f.transfers ++ copies 252 (sent_by f)) ++ (sent_by f ∷ []))
  sends_on es e f phase begin n =
      let (g, run, phase', task, same, sent) = resends es f phase (omega (arith, begin, n)) in
      let ended : Flash = record g {
        job = record (g.job) { incoming_event = e; task_phase = 0; job_phase = 2 };
        transfers = g.transfers ++ (sent_by g ∷ []);
      } in
      (
        ended,
        calls_append m command_handler es (e ∷ []) f g run
            ∙ (calls_cons m command_handler e [] g ended task_success (call_ends e g phase' task)
                ∙ calls_nil m command_handler ended),
        refl,
        rw (sent, same, n) refl,
      )
