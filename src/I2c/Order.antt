-- ===== src/I2c/Order.antt =====
-- What a job that writes does on the bus, in which order, whatever the chip answers.
use mathlib.Core.List.{append-nil}
use stm32app.Base.{ℕ, ◌≡◌, ◌≢◌, refl, inl, inr, false, Bool-cases, Option, none, some, sym, List}
use stm32app.Signal.{Signal}
use stm32app.Dma.{match_source}
use stm32app.Store.{System, Store}
use stm32app.I2c.Writing.{writing_step}
use stm32app.I2c.Stages.{Stage, began, IsAt, IsOnTheWay, advanced}
use stm32app.Job.{JobSignal}
use stm32app.I2c.{Bus, Call, I2c, job_write}
use stm32app.I2c.Reading.{on_transferring, ingested}

-- A job that writes goes on: its handler is called, with no error on the bus, or a transfer is told
-- to the bus.
pub data Steps (y : System) : I2c → I2c → Type 0 where
  works :
      (bus : Bus) (d : I2c) (r : JobSignal × I2c)
      → bus.error ≡ false
      → job_write y bus d ≡ some r
      → Steps y d (advanced r)
  told : (source left : ℕ) (d d' : I2c) → on_transferring y source left d ≡ some d' → Steps y d d'

-- The states that a job comes to before it is over.
pub data Reaches (y : System) (d : I2c) : I2c → Type 0 where
  here : Reaches y d d
  further : (a b : I2c) → Reaches y d a → a.job.job_phase ≢ 2 → Steps y a b → Reaches y d b

-- A transfer leaves the job, the calls and the interrupts alone.
abbrev IsUntouched : I2c → Option I2c → Type 0
IsUntouched d none = Unit
IsUntouched d (some d') = (d'.job ≡ d.job) × (d'.calls ≡ d.calls) × (d'.masked ≡ d.masked)

ingested-IsUntouched :
    (y : System) (d : I2c) (o : Option (Signal × Store)) → IsUntouched d (ingested y d o)
ingested-IsUntouched y d none = tt
ingested-IsUntouched y d (some (signal, s)) = (refl, refl, refl)

on_transferring-IsUntouched :
    (y : System) (source left : ℕ) (d : I2c) → IsUntouched d (on_transferring y source left d)
unfolding on_transferring
on_transferring-IsUntouched y source left d =
    elim (Bool-cases (match_source source d.properties.dma_rx_unit d.properties.dma_rx_stream)) [
      | inl e ↦ rw e (ingested-IsUntouched y d _)
      | inr e ↦ rw e (refl, refl, refl)
    ]

stays :
    (base : List Call) (a source size : ℕ) (stage : Stage) (d d' : I2c)
    → IsAt base a source size stage d
    → IsUntouched d (some d')
    → IsAt base a source size stage d'
stays base a source size stage d d' at (job, calls, masked) = record {
  job_phase = rw job (at.job_phase);
  task_phase = rw job (at.task_phase);
  argument = rw job (at.argument);
  calls = rw calls (at.calls);
  masked = rw masked (at.masked);
}

steps-IsOnTheWay :
    (y : System) (base : List Call) (a : ℕ) (d d' : I2c)
    → IsOnTheWay base a d
    → d.job.job_phase ≢ 2
    → Steps y d d'
    → IsOnTheWay base a d'
steps-IsOnTheWay y base a d d' (stage, source, size, at) ne (works bus _ r quiet called) =
    writing_step y base a source size bus quiet d r called stage at ne
steps-IsOnTheWay y base a d d' (stage, source, size, at) ne (told from left _ _ e) = (
  stage,
  source,
  size,
  stays base a source size stage d d' at (rw e at (on_transferring-IsUntouched y from left d)),
)

-- A job that writes and has not begun: whatever the flags of the chip say at each call, as long as
-- none is an error, and whenever transfers are told and interrupts put the job off, the calls that it
-- has made are those of its stage, in order and each once: the start, the address of the chip, the
-- register, one transfer of some bytes, its end and the stop. The interrupts of events are disabled
-- while the bytes are sent and enabled again afterwards.
pub writes_in_order :
    (y : System) (d d' : I2c)
    → d.job.job_phase ≡ 0
    → d.job.task_phase ≡ 0
    → d.masked ≡ false
    → Reaches y d d'
    → IsOnTheWay d.calls d.job.inciting_event.argument d'
writes_in_order y d d' phase task enabled here = (
  began,
  0,
  0,
  record {
    job_phase = phase;
    task_phase = task;
    argument = refl;
    calls = sym (append-nil d.calls);
    masked = enabled;
  },
)
writes_in_order y d d' phase task enabled (further a _ before ne step) =
    steps-IsOnTheWay y d.calls d.job.inciting_event.argument a d'
      (writes_in_order y d a phase task enabled before) ne step
