-- ===== src/W25/Pages.antt =====
-- The job that writes to the chip: what it sends.
use stm32app.Base.{
  ℕ, ◌+◌, ◌≡◌, ◌⊎◌, refl, inl, inr, false, Option, none, some, Option-cases, Bool-cases,
  none-ne_some, some-inj, ap, List, [], ◌∷◌, ◌++◌, ◌==◌, arith, All,
}
use stm32app.Buffer.{u32}
use stm32app.Event.{Event}
use stm32app.Job.{
  JobSignal, halt, task_continue, task_retry, task_wait, task_quit_isr, task_loop, retry,
  task_success, task_failure, success, failure, Job, advance, advance_by,
}
use stm32app.Bytes.{get_number_of_bytes_intesecting_page}
use stm32app.W25.{
  Flash, Transfer, spi_transfer, set_lock, task_wait_until_ready, write_in_pages, job_write,
  call_once,
}
use stm32app.W25.Calls.{with_incoming, calls, calls_inv, IsCommand}

-- The phases of a task that never passes through 2, and the transfers that are commands.
abbrev IsQuietPhase : ℕ → Type 0
IsQuietPhase n = (n ≡ 0) ⊎ ((n ≡ 1) ⊎ (n ≡ 252))

abbrev IsQuiet : Flash → Type 0
IsQuiet f = IsQuietPhase f.job.task_phase × All IsCommand f.transfers

-- What the handler returns in a quiet state: it moves to the next phase of a task only from phase 0.
abbrev MovesFrom : ℕ → JobSignal → Type 0
MovesFrom n task_wait = n ≡ 0
MovesFrom n task_continue = n ≡ 0
MovesFrom n task_failure = ⊥
MovesFrom n _ = Unit

abbrev Answers : Flash → Option (JobSignal × Flash) → Type 0
Answers f none = Unit
Answers f (some (signal, g)) =
    MovesFrom f.job.task_phase signal
    × (g.job.task_phase ≡ f.job.task_phase)
    × All IsCommand g.transfers

All-append :
    (ts : List Transfer) (t : Transfer)
    → All IsCommand ts
    → IsCommand t
    → All IsCommand (ts ++ (t ∷ []))
All-append [] t h c = (c, tt)
All-append (x ∷ ts) t (hx, h) c = (hx, All-append ts t h c)

module _ (m : ℕ → ℕ) where
  wait_until_ready-Answers : (f : Flash) → IsQuiet f → Answers f (task_wait_until_ready m f)
  unfolding task_wait_until_ready spi_transfer
  wait_until_ready-Answers f (phase, sent) = elim (Bool-cases (f.job.task_phase == 0)) [
    | inl first ↦ rw first (ground (arith, first), refl, All-append f.transfers _ sent tt)
    | inr later ↦ ground (arith, later, sent)
  ]

  write_in_pages-Answers :
      (address source size page_size : ℕ) (f : Flash)
      → IsQuiet f
      → Answers f (write_in_pages m address source size page_size f)
  unfolding write_in_pages spi_transfer set_lock
  write_in_pages-Answers address source size page_size f (phase, sent) =
      elim (Option-cases
        (get_number_of_bytes_intesecting_page (u32 (address + f.job.counter)) size page_size)) [
          | inl fault ↦ rw (fault, write_in_pages) tt
          | inr (n, bytes) ↦ elim (Bool-cases (f.job.task_phase == 0)) [
            | inl first ↦
                rw (bytes, write_in_pages, first)
                  (ground (arith, first), refl, All-append f.transfers _ sent tt)
            | inr later ↦
                let second : (f.job.task_phase == 2) ≡ false = ground (arith, phase) in
                rw (bytes, write_in_pages, later, second) (ground (arith, sent))
          ]
        ]

  job_write-Answers : (f : Flash) → IsQuiet f → Answers f (job_write m f)
  unfolding job_write
  job_write-Answers f quiet = elim (Bool-cases (f.job.job_phase == 1)) [
    | inl first ↦ rw first (wait_until_ready-Answers f quiet)
    | inr later ↦ elim (Bool-cases (f.job.job_phase == 2)) [
      | inl second ↦
          rw (later, second)
            (write_in_pages-Answers f.job.inciting_event.argument f.job.inciting_event.payload
              f.job.inciting_event.size 256 f quiet)
      | inr ended ↦ rw (later, ended) (tt, refl, quiet.1)
    ]
  ]

advance_by-IsQuietPhase :
    (j : Job) (signal : JobSignal)
    → IsQuietPhase j.task_phase
    → MovesFrom j.task_phase signal
    → IsQuietPhase (advance_by signal j).task_phase
unfolding advance_by
advance_by-IsQuietPhase j success phase moves = phase
advance_by-IsQuietPhase j failure phase moves = phase
advance_by-IsQuietPhase j retry phase moves = inl refl
advance_by-IsQuietPhase j task_retry phase moves = inl refl
advance_by-IsQuietPhase j task_wait phase moves = inr (inl (rw moves refl))
advance_by-IsQuietPhase j task_continue phase moves = inr (inl (rw moves refl))
advance_by-IsQuietPhase j task_success phase moves = inr (inr refl)
advance_by-IsQuietPhase j task_failure phase moves = absurd moves
advance_by-IsQuietPhase j halt phase moves = phase
advance_by-IsQuietPhase j task_loop phase moves = phase
advance_by-IsQuietPhase j task_quit_isr phase moves = phase

advance-IsQuietPhase :
    (j : Job) (signal : JobSignal)
    → IsQuietPhase j.task_phase
    → MovesFrom j.task_phase signal
    → IsQuietPhase (advance j signal).1.task_phase
unfolding advance
advance-IsQuietPhase j signal phase moves =
    ground (arith, phase, advance_by-IsQuietPhase j signal phase moves)

call-IsQuiet :
    (m : ℕ → ℕ) (e : Event) (f g : Flash) (signal : JobSignal)
    → IsQuiet f
    → call_once m (job_write m) (with_incoming e f) ≡ some (signal, g)
    → IsQuiet g
unfolding call_once
call-IsQuiet m e f g signal quiet run =
    let answer = job_write-Answers m (with_incoming e f) quiet in
    elim (Option-cases (job_write m (with_incoming e f))) [
      | inl stuck ↦ absurd (none-ne_some _ (rw (stuck, call_once) at run))
      | inr ((s, f'), one) ↦
          let (moves, same, sent) = rw one at answer in
          let q = some-inj _ (signal, g) (rw (one, call_once) at run) in
          let ends : record f' { job = (advance f'.job s).1 } ≡ g =
            ap (λ (r : JobSignal × Flash). r.1) q in
          let phase : IsQuietPhase f'.job.task_phase = rw same quiet.0 in
          let moves' : MovesFrom f'.job.task_phase s = rw same moves in
          rw (← ends) (advance-IsQuietPhase f'.job s phase moves', sent)
    ]

-- However often its handler is called, and whatever comes in, a job that writes sends nothing but
-- commands: the data that it is to write stay where they are. The job begins with a task in its
-- first phase, and only commands have been sent before; the runs are those without a NULL pointer.
pub job_write-IsCommand :
    (m : ℕ → ℕ) (es : List Event) (f g : Flash)
    → f.job.task_phase ≡ 0
    → All IsCommand f.transfers
    → calls m (job_write m) es f ≡ some g
    → All IsCommand g.transfers
job_write-IsCommand m es f g begin sent run =
    (calls_inv m (job_write m) IsQuiet (call-IsQuiet m) es f g (inl begin, sent) run).1
