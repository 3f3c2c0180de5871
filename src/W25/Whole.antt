-- ===== src/W25/Whole.antt =====
-- A whole job that sends one command, and the two that lock and unlock the chip.
use mathlib.Core.List.{append_assoc}
use stm32app.Base.{
  ℕ, zero, suc, ◌≡◌, ◌≢◌, refl, ap, ◌∙◌, inl, inr, Bool, true, false, Bool-cases, some, List, [],
  ◌∷◌, ◌++◌, length, All, ◌==◌, if◌then◌else◌,
}
use stm32app.Event.{Event}
use stm32app.W25.{Flash, Transfer, command_job, job_lock, cmd_lock, cmd_unlock, set_lock}
use stm32app.W25.Calls.{calls, calls_append, copies}
use stm32app.W25.Commands.{sent_by, sends_on}
use stm32app.W25.Polling.{query_by, polls, Answered, ready_lem}

copies_snoc : (n : ℕ) (t : Transfer) → copies n t ++ (t ∷ []) ≡ t ∷ copies n t
copies_snoc zero t = refl
copies_snoc (suc n) t = ap (λ r. t ∷ r) (copies_snoc n t)

copies_last :
    (n : ℕ) (t : Transfer) (ts : List Transfer)
    → (ts ++ copies n t) ++ (t ∷ []) ≡ ts ++ copies (suc n) t
copies_last n t ts = append_assoc ts (copies n t) (t ∷ []) ∙ ap (λ r. ts ++ r) (copies_snoc n t)

-- A job of the flash that sends a command: it asks for the status until the chip is not busy, once
-- more than the chip says that it is, and then sends the command 253 times, once for each event that
-- comes in, before it goes to its last phase. The events are those of the polls, whose answers are in
-- memory, and any others.
pub command_job_lem :
    (m : ℕ → ℕ) (bytes : List ℕ) (write_size read_size : ℕ) (ps : List (Event × Event))
    (p e e' last : Event) (es : List Event) (f : Flash)
    → f.job.job_phase ≡ 0
    → f.job.task_phase ≡ 0
    → All (λ q. Answered m bytes write_size read_size true q.1) ps
    → Answered m bytes write_size read_size false e
    → e'.payload ≢ 0
    → length es ≡ 252
    → (g : Flash) × (calls m
          (command_job m bytes write_size read_size)
          ((polls ps ++ (p ∷ e ∷ e' ∷ [])) ++ (es ++ (last ∷ [])))
          f
        ≡ some g)
      × (g.job.job_phase ≡ 2)
      × (g.transfers
          ≡ (f.transfers ++ copies (suc (length ps)) (query_by f))
            ++ copies 253 (sent_by m bytes write_size read_size f))
command_job_lem m bytes write_size read_size ps p e e' last es f phase task answers ready given n =
    let (a, first, phase', task', sent, spi, actor) =
      ready_lem m bytes write_size read_size ps p e e' f phase task answers ready given in
    let (g, second, phase'', sent') =
      sends_on m bytes write_size read_size es last a phase' task' n in
    let same : sent_by m bytes write_size read_size a ≡ sent_by m bytes write_size read_size f =
      rw (spi, actor) refl in
    (
      g,
      calls_append m _ (polls ps ++ (p ∷ e ∷ e' ∷ [])) (es ++ (last ∷ [])) f a first ∙ second,
      phase'',
      sent'
          ∙ (copies_last 252 (sent_by m bytes write_size read_size a) a.transfers
              ∙ (ap (λ ts. ts ++ copies 253 (sent_by m bytes write_size read_size a))
                    (sent ∙ copies_last (length ps) (query_by f) f.transfers)
                  ∙ ap (λ t. (f.transfers ++ copies (suc (length ps)) (query_by f)) ++ copies 253 t)
                      same)),
    )

-- `w25_job_lock` is a job that sends the command UNLOCK, and `w25_job_unlock` one that sends LOCK.
pub job_lock-command_job :
    (m : ℕ → ℕ) (state : Bool) (f : Flash)
    → job_lock m state f ≡ command_job m ((if state then cmd_unlock else cmd_lock) ∷ []) 1 0 f
unfolding job_lock command_job set_lock
job_lock-command_job m state f = elim (Bool-cases (f.job.job_phase == 0)) [
  | inl e ↦ rw e refl
  | inr e ↦ elim (Bool-cases (f.job.job_phase == 1)) [
    | inl e' ↦ rw (e, e') refl
    | inr e' ↦ rw (e, e') refl
  ]
]
