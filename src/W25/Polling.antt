-- ===== src/W25/Polling.antt =====
-- Waiting until the chip is ready.
use mathlib.Core.List.{append_assoc, append-nil}
use stm32app.Base.{
  ℕ, ◌≡◌, ◌≢◌, refl, sym, ap, ◌∙◌, Bool, true, false, not, bit_and, some, List, [], ◌∷◌, ◌++◌, ◌==◌,
  arith, length, All,
}
use stm32app.Event.{Event}
use stm32app.Job.{task_wait, task_retry, task_success, advance, advance_by}
use stm32app.W25.{
  Flash, FlashHandler, Transfer, command, cmd_read_sr1, spi_transfer, sr1_busy,
  task_wait_until_ready, command_job, call_once,
}
use stm32app.W25.Calls.{with_incoming, calls, calls_cons, calls_append, calls_nil, copies}

abbrev pub query_by : Flash → Transfer
query_by f = record {
  consumer = f.spi;
  producer = f.job.actor;
  write_data = command (cmd_read_sr1 ∷ []);
  write_size = 1;
  read_size = 1;
}

-- A poll is two calls: one that asks, and one with the answer.
abbrev pub polls : List (Event × Event) → List Event
polls [] = []
polls ((p, e) ∷ ps) = p ∷ e ∷ polls ps

abbrev pub moved : ℕ → ℕ → Event → Flash → Flash
moved job_phase task_phase e f = record f {
  job = record (f.job) { incoming_event = e; job_phase = job_phase; task_phase = task_phase };
}

module _ (m : ℕ → ℕ) (bytes : List ℕ) (write_size read_size : ℕ) where
  abbrev handler : FlashHandler
  handler = command_job m bytes write_size read_size

  -- The answer of the chip, at the event's data.
  abbrev pub Answered : Bool → Event → Type 0
  Answered busy e = (e.payload ≢ 0) × (not (bit_and (m e.payload) sr1_busy == 0) ≡ busy)

  waits : (f : Flash) → f.job.job_phase ≡ 0 → handler f ≡ task_wait_until_ready m f
  unfolding command_job
  waits f phase = let first : (f.job.job_phase == 0) ≡ true = ground (arith, phase) in rw first refl

  call_asks :
      (e : Event) (f : Flash)
      → f.job.job_phase ≡ 0
      → f.job.task_phase ≡ 0
      → call_once m handler (with_incoming e f)
        ≡ some (task_wait, record (moved 0 1 e f) { transfers = f.transfers ++ (query_by f ∷ []) })
  unfolding call_once task_wait_until_ready spi_transfer advance advance_by
  call_asks e f phase task = rw (waits (with_incoming e f) phase, call_once, phase, task) refl

  call_busy :
      (e : Event) (f : Flash)
      → f.job.job_phase ≡ 0
      → f.job.task_phase ≡ 1
      → Answered true e
      → call_once m handler (with_incoming e f) ≡ some (task_retry, moved 0 0 e f)
  unfolding call_once task_wait_until_ready advance advance_by
  call_busy e f phase task (given, busy) =
      let there : (e.payload == 0) ≡ false = ground (arith, given) in
      rw (waits (with_incoming e f) phase, call_once, phase, task, there, busy) refl

  call_ready :
      (e : Event) (f : Flash)
      → f.job.job_phase ≡ 0
      → f.job.task_phase ≡ 1
      → Answered false e
      → call_once m handler (with_incoming e f) ≡ some (task_success, moved 0 252 e f)
  unfolding call_once task_wait_until_ready advance advance_by
  call_ready e f phase task (given, busy) =
      let there : (e.payload == 0) ≡ false = ground (arith, given) in
      rw (waits (with_incoming e f) phase, call_once, phase, task, there, busy) refl

  call_passes :
      (e : Event) (f : Flash)
      → f.job.job_phase ≡ 0
      → f.job.task_phase ≡ 252
      → e.payload ≢ 0
      → call_once m handler (with_incoming e f) ≡ some (task_success, moved 1 0 e f)
  unfolding call_once task_wait_until_ready advance
  call_passes e f phase task given =
      let there : (e.payload == 0) ≡ false = ground (arith, given) in
      rw (waits (with_incoming e f) phase, call_once, phase, task, there) refl

  -- Each answer that the chip is busy leads to one more question.
  pub polls_lem :
      (ps : List (Event × Event)) (f : Flash)
      → f.job.job_phase ≡ 0
      → f.job.task_phase ≡ 0
      → All (λ p. Answered true p.1) ps
      → (g : Flash) × (calls m handler (polls ps) f ≡ some g)
        × (g.job.job_phase ≡ 0)
        × (g.job.task_phase ≡ 0)
        × (query_by g ≡ query_by f)
        × (g.transfers ≡ f.transfers ++ copies (length ps) (query_by f))
  polls_lem [] f phase task answers =
      (f, calls_nil m handler f, phase, task, refl, sym (append-nil f.transfers))
  polls_lem ((p, e) ∷ ps) f phase task (busy, answers) =
      let asked : Flash = record (moved 0 1 p f) { transfers = f.transfers ++ (query_by f ∷ []) } in
      let (g, run, phase', task', same, sent) =
        polls_lem ps (moved 0 0 e asked) refl refl answers in
      (
        g,
        calls_cons m handler p (e ∷ polls ps) f asked task_wait (call_asks p f phase task)
            ∙ (calls_cons m handler e (polls ps) asked (moved 0 0 e asked) task_retry
                  (call_busy e asked refl refl busy)
                ∙ run),
        phase',
        task',
        same,
        sent ∙ append_assoc f.transfers (query_by f ∷ []) _,
      )

  pub ready_lem :
      (ps : List (Event × Event)) (p e e' : Event) (f : Flash)
      → f.job.job_phase ≡ 0
      → f.job.task_phase ≡ 0
      → All (λ q. Answered true q.1) ps
      → Answered false e
      → e'.payload ≢ 0
      → (g : Flash) × (calls m handler (polls ps ++ (p ∷ e ∷ e' ∷ [])) f ≡ some g)
        × (g.job.job_phase ≡ 1)
        × (g.job.task_phase ≡ 0)
        × (g.transfers ≡ (f.transfers ++ copies (length ps) (query_by f)) ++ (query_by f ∷ []))
        × (g.spi ≡ f.spi)
        × (g.job.actor ≡ f.job.actor)
  ready_lem ps p e e' f phase task answers ready given =
      let (g, run, phase', task', same, sent) = polls_lem ps f phase task answers in
      let asked : Flash = record (moved 0 1 p g) { transfers = g.transfers ++ (query_by g ∷ []) } in
      (
        moved 1 0 e' (moved 0 252 e asked),
        calls_append m handler (polls ps) (p ∷ e ∷ e' ∷ []) f g run
            ∙ (calls_cons m handler p (e ∷ e' ∷ []) g asked task_wait (call_asks p g phase' task')
                ∙ (calls_cons m handler e (e' ∷ []) asked (moved 0 252 e asked) task_success
                      (call_ready e asked refl refl ready)
                    ∙ (calls_cons m handler e' [] (moved 0 252 e asked)
                          (moved 1 0 e' (moved 0 252 e asked)) task_success
                          (call_passes e' (moved 0 252 e asked) refl refl given)
                        ∙ calls_nil m handler _))),
        refl,
        refl,
        rw (sent, same) refl,
        ap (λ (t : Transfer). t.consumer) same,
        ap (λ (t : Transfer). t.producer) same,
      )
