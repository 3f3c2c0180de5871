-- ===== src/I2c/Stages.antt =====
-- The stages of a job that writes.
use mathlib.Core.List.{append_assoc}
use stm32app.Base.{ℕ, ◌+◌, ◌≡◌, refl, Bool, true, false, ◌≤◌, sym, List, [], ◌∷◌, ◌++◌, ◌==◌, arith}
use stm32app.Buffer.{u32}
use stm32app.Job.{JobSignal, halt, task_success, code, advance, advance_by}
use stm32app.I2c.{
  Call, I2c, peripheral_enable, peripheral_disable, send_start, send_stop, enable_dma, disable_dma,
  dma_tx_stop, send_7bit_address, write_register, dma_tx_start, slave_address, memory_address,
}

-- Where a job that writes is between two calls of its handler.
pub data Stage : Type 0 where
  began started addressed registered set_up sourcing sourced sending sent finished over : Stage

abbrev pub job_phase_at : Stage → ℕ
job_phase_at began = 0
job_phase_at started = 0
job_phase_at addressed = 0
job_phase_at registered = 0
job_phase_at set_up = 0
job_phase_at sourcing = 1
job_phase_at sourced = 1
job_phase_at sending = 1
job_phase_at sent = 1
job_phase_at finished = 1
job_phase_at over = 2

abbrev pub task_phase_at : Stage → ℕ
task_phase_at began = 0
task_phase_at started = 1
task_phase_at addressed = 2
task_phase_at registered = 3
task_phase_at set_up = code task_success
task_phase_at sourcing = 0
task_phase_at sourced = 1
task_phase_at sending = 2
task_phase_at sent = 3
task_phase_at finished = code task_success
task_phase_at over = 0

abbrev pub chosen : ℕ → List Call
chosen argument =
    peripheral_enable
    ∷ send_start
    ∷ send_7bit_address (slave_address argument) false
    ∷ write_register (memory_address argument)
    ∷ []

-- The calls made by then, for the argument of the event and the bytes that are sent.
abbrev pub made : ℕ → ℕ → ℕ → Stage → List Call
made argument source size began = []
made argument source size started = peripheral_enable ∷ send_start ∷ []
made argument source size addressed =
    peripheral_enable ∷ send_start ∷ send_7bit_address (slave_address argument) false ∷ []
made argument source size registered = chosen argument
made argument source size set_up = chosen argument
made argument source size sourcing = chosen argument
made argument source size sourced = chosen argument
made argument source size sending = chosen argument ++ (dma_tx_start source size ∷ enable_dma ∷ [])
made argument source size sent =
    chosen argument ++ (dma_tx_start source size ∷ enable_dma ∷ dma_tx_stop ∷ disable_dma ∷ [])
made argument source size finished =
    chosen argument
    ++ (dma_tx_start source size
        ∷ enable_dma
        ∷ dma_tx_stop
        ∷ disable_dma
        ∷ send_stop
        ∷ peripheral_disable
        ∷ [])
made argument source size over =
    chosen argument
    ++ (dma_tx_start source size
        ∷ enable_dma
        ∷ dma_tx_stop
        ∷ disable_dma
        ∷ send_stop
        ∷ peripheral_disable
        ∷ [])

-- The interrupts of events, which a call that has been put off may have disabled already.
abbrev pub IsMasked : Bool → Stage → Type 0
IsMasked masked sourcing = Unit
IsMasked masked sourced = masked ≡ true
IsMasked masked sending = masked ≡ true
IsMasked masked _ = masked ≡ false

-- A job is at a stage after the calls `base` of earlier jobs.
pub record IsAt (base : List Call) (a source size : ℕ) (stage : Stage) (d : I2c) : Type 0 where
  pub job_phase : d.job.job_phase ≡ job_phase_at stage
  pub task_phase : d.job.task_phase ≡ task_phase_at stage
  pub argument : d.job.inciting_event.argument ≡ a
  pub calls : d.calls ≡ base ++ made a source size stage
  pub masked : IsMasked d.masked stage

-- What `actor_job_advance` makes of the handler's signal.
abbrev pub advanced : JobSignal × I2c → I2c
advanced (signal, d) = record d { job = (advance d.job signal).1 }

-- At some stage, with some bytes.
abbrev pub IsOnTheWay : List Call → ℕ → I2c → Type 0
IsOnTheWay base a d = (stage : Stage) × (source : ℕ) × (size : ℕ) × IsAt base a source size stage d

pub goes :
    (signal : JobSignal) (d : I2c)
    → d.job.job_phase ≤ 1
    → d.job.task_phase ≤ 3
    → (advance d.job signal).1 ≡ advance_by signal d.job
unfolding advance
goes signal d j t =
    let a : (d.job.job_phase == 255) ≡ false = ground (arith, j) in
    let b : (d.job.job_phase == 254) ≡ false = ground (arith, j) in
    let c : (d.job.task_phase == 253) ≡ false = ground (arith, t) in
    let e : (d.job.task_phase == 252) ≡ false = ground (arith, t) in rw (a, b, c, e) refl

pub extended : (base a cs more : List Call) → cs ≡ base ++ a → cs ++ more ≡ base ++ (a ++ more)
extended base a cs more e = rw e (append_assoc base a more)

-- A handler's signal that takes a job from one stage to the next.
pub moves :
    (signal : JobSignal) (base : List Call) (a source size : ℕ) (stage : Stage) (d : I2c)
    → d.job.job_phase ≤ 1
    → d.job.task_phase ≤ 3
    → (advance_by signal d.job).job_phase ≡ job_phase_at stage
    → (advance_by signal d.job).task_phase ≡ task_phase_at stage
    → (advance_by signal d.job).inciting_event.argument ≡ a
    → d.calls ≡ base ++ made a source size stage
    → IsMasked d.masked stage
    → IsOnTheWay base a (advanced (signal, d))
moves signal base a source size stage d j t phase task given calls masked = (
  stage,
  source,
  size,
  record {
    job_phase = rw (goes signal d j t) phase;
    task_phase = rw (goes signal d j t) task;
    argument = rw (goes signal d j t) given;
    calls = calls;
    masked = masked;
  },
)

-- A task that has succeeded hands over to the next one.
pub hands_over :
    (base : List Call) (a source size : ℕ) (stage stage' : Stage) (d : I2c)
    → IsAt base a source size stage d
    → job_phase_at stage ≤ 1
    → task_phase_at stage ≡ 252
    → job_phase_at stage' ≡ job_phase_at stage + 1
    → task_phase_at stage' ≡ 0
    → made a source size stage' ≡ made a source size stage
    → IsMasked d.masked stage'
    → IsOnTheWay base a (advanced (halt, d))
unfolding advance
hands_over base a source size stage stage' d at j t j' t' same masked =
    let x : (d.job.job_phase == 255) ≡ false = ground (arith, j, at.job_phase) in
    let y : (d.job.job_phase == 254) ≡ false = ground (arith, j, at.job_phase) in
    let e : (advance d.job halt).1
        ≡ record (d.job) { job_phase = u32 (d.job.job_phase + 1); task_phase = 0 } =
      rw (x, y, at.task_phase, t) refl in
    (
      stage',
      source,
      size,
      record {
        job_phase = rw e (omega (arith, j, j', at.job_phase));
        task_phase = rw e (sym t');
        argument = rw e (at.argument);
        calls = rw same (at.calls);
        masked = masked;
      },
    )
