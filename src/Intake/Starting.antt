-- ===== src/Intake/Starting.antt =====
-- A job takes one event at a time.
use native.Mathlib.Decide.{ℕ_discrete}
use stm32app.Base.{
  some-inj, ℕ, ◌≡◌, ◌≢◌, refl, sym, ap, ◌∙◌, inl, inr, false, Option, none, some, arith, ◌==◌,
  Option-cases, Bool-cases,
}
use stm32app.Signal.{
  Signal, ok, busy, is_ok, Status, waiting, received, addressed, handled, deferred, finalized,
  signal_of_status,
}
use stm32app.Buffer.{dynamic_size}
use stm32app.Store.{Store, System, release}
use stm32app.Event.{Event, Accepted, is_idle, set_status, set_shared_status, accept_and_process}
use stm32app.Job.{Job}
use stm32app.Thread.{Kernel, actor_schedule}
use stm32app.Intake.{Desk, schedule_now, claim_slot, start_job, accept_and_start_job}

-- The type of what comes out.
abbrev KeepsType : Event → Option (Event × Store) → Type 0
KeepsType e none = Unit
KeepsType e (some (e', s)) = e'.type ≡ e.type

shared-KeepsType :
    (y : System) (actor : ℕ) (e : Event) (status : Status) (s : Store)
    → KeepsType e (set_shared_status y actor e status s)
unfolding set_shared_status
shared-KeepsType y actor e waiting s = refl
shared-KeepsType y actor e received s = refl
shared-KeepsType y actor e addressed s = refl
shared-KeepsType y actor e handled s = refl
shared-KeepsType y actor e deferred s = refl
shared-KeepsType y actor e finalized s = elim (Option-cases (release y e.payload actor s)) [
  | inl h ↦ rw (h, set_shared_status) tt
  | inr (s', h) ↦ rw (h, set_shared_status) refl
]

set_status-KeepsType :
    (y : System) (actor : ℕ) (e : Event) (status : Status) (s : Store)
    → KeepsType e (set_status y actor e status s)
unfolding set_status
set_status-KeepsType y actor e status s = elim (Bool-cases (e.size == dynamic_size)) [
  | inl h ↦ rw h (shared-KeepsType y actor e status s)
  | inr h ↦ rw h refl
]

-- What an acceptance leaves in the slot where it says ok.
abbrev Takes : Event → Option Accepted → Type 0
Takes e none = Unit
Takes e (some a) = a.signal ≡ ok → a.slot.type ≡ e.type

module _ (y : System) (actor : ℕ) (ready_status busy_status : Status) where
  accept-Takes :
      (e slot : Event) (s : Store)
      → Takes e (accept_and_process y actor e (some slot) ready_status busy_status none s)
  unfolding accept_and_process
  accept-Takes e slot s = elim (Bool-cases (is_idle slot.type)) [
    | inl free ↦ elim (Option-cases (set_status y actor e ready_status s)) [
      | inl h ↦ rw (free, h, accept_and_process) tt
      | inr ((e', s'), h) ↦
          let kept = rw h at (set_status-KeepsType y actor e ready_status s) in
          rw (free, h, accept_and_process) (λ q. kept)
    ]
    | inr taken ↦ elim (Option-cases (set_status y actor e busy_status s)) [
      | inl h ↦ rw (taken, h, accept_and_process) tt
      | inr ((e', s'), h) ↦ rw (taken, h, accept_and_process) (λ q. absurd (busy-ne_ok q))
    ]
  ]
    where
      busy-ne_ok : busy ≢ ok
      busy-ne_ok q = cc

  -- The job in the slot is at work: it keeps its event, and the new one is put off.
  accept-taken :
      (e slot : Event) (s : Store)
      → is_idle slot.type ≡ false
      → e.size ≢ dynamic_size
      → accept_and_process y actor e (some slot) ready_status busy_status none s
        ≡ some (record {
          signal = busy;
          event = record e { status = busy_status };
          slot = slot;
          store = s;
        })
  unfolding accept_and_process set_status
  accept-taken e slot s taken plain = ground arith

module _ (y : System) (k : Kernel) where
  -- What of the desk a run has kept.
  abbrev Keeps : Desk → Option (Signal × Desk) → Type 0
  Keeps d none = Unit
  Keeps d (some (signal, d')) =
      (d'.slot ≡ d.slot) × (signal ≡ ok → d'.job.inciting_event.type ≡ d.event.type)

  start_job-Keeps :
      (actor self handler : ℕ) (ready_status busy_status : Status) (d : Desk)
      → Keeps d (start_job y k actor self handler ready_status busy_status d)
  unfolding start_job schedule_now
  start_job-Keeps actor self handler ready_status busy_status d =
      let o : Option Accepted =
        accept_and_process y actor d.event (some d.job.inciting_event) ready_status busy_status none
          d.store in
      elim (Option-cases o) [
        | inl h ↦ rw (h, start_job) tt
        | inr (a, h) ↦
            let kept = rw h at (
              accept-Takes y actor ready_status busy_status d.event d.job.inciting_event d.store) in
            elim (Bool-cases (is_ok a.signal)) [
              | inl fine ↦
                  elim (Option-cases
                    (actor_schedule k d.thread actor d.thread.current_time d.rtos)) [
                      | inl h' ↦ rw (h, start_job, fine, h') tt
                      | inr ((t, r), h') ↦ rw (h, start_job, fine, h') (refl, kept)
                    ]
              | inr wrong ↦ rw (h, start_job, wrong) (refl, kept)
            ]
      ]

  module _ (alloc : ℕ → ℕ × Job) (actor self handler : ℕ) (ready_status busy_status : Status) where
    abbrev started : Desk → Option (Signal × Desk)
    started = accept_and_start_job y k alloc actor self handler ready_status busy_status

    abbrev allocated : Desk → Desk
    allocated d = record d { slot = (alloc actor).0; job = (alloc actor).1 }

    started_full :
        (d : Desk)
        → d.slot ≢ 0
        → started d ≡ start_job y k actor self handler ready_status busy_status d
    unfolding accept_and_start_job claim_slot
    started_full d nz = ground arith

    started_empty :
        (d : Desk)
        → d.slot ≡ 0
        → (alloc actor).0 ≢ 0
        → started d ≡ start_job y k actor self handler ready_status busy_status (allocated d)
    unfolding accept_and_start_job claim_slot
    started_empty d z nz = ground arith

    started_nowhere :
        (d : Desk)
        → d.slot ≡ 0
        → (alloc actor).0 ≡ 0
        → started d ≡ some (signal_of_status busy_status, allocated d)
    unfolding accept_and_start_job claim_slot
    started_nowhere d z none_left = ground arith

    started_occupied :
        (d : Desk)
        → d.slot ≢ 0
        → is_idle d.job.inciting_event.type ≡ false
        → d.event.size ≢ dynamic_size
        → started d ≡ some (busy, record d { event = record (d.event) { status = busy_status } })
    unfolding start_job
    started_occupied d nz taken plain =
        started_full d nz
        ∙ rw
            (
              accept-taken y actor ready_status busy_status d.event d.job.inciting_event d.store
                  taken plain,
              start_job,
            )
            refl

    start_job-type :
        (d d' : Desk)
        → start_job y k actor self handler ready_status busy_status d ≡ some (ok, d')
        → d'.job.inciting_event.type ≡ d.event.type
    start_job-type d d' h =
        (rw h at (start_job-Keeps actor self handler ready_status busy_status d)).1 refl

    -- A job that a run has left in the slot holds the event of the run.
    started-type :
        (d d' : Desk)
        → started d ≡ some (ok, d')
        → d'.slot ≢ 0
        → d'.job.inciting_event.type ≡ d.event.type
    started-type d d' run nz = elim (ℕ_discrete d.slot 0) [
      | no full ↦ start_job-type d d' (sym (started_full d full) ∙ run)
      | yes z ↦ elim (ℕ_discrete (alloc actor).0 0) [
        | no given ↦ start_job-type (allocated d) d' (sym (started_empty d z given) ∙ run)
        | yes none_left ↦
            let q = some-inj _ _ (sym (started_nowhere d z none_left) ∙ run) in
            absurd (nz (ap (λ r. r.1.slot) (sym q) ∙ none_left))
      ]
    ]

  -- A job that has been started for an event stays with it: any other event without a buffer that is
  -- to start a job in the same slot is put off as busy, whoever asks, and the job, the buffers and the
  -- thread stay as they are.
  pub one_event_at_a_time :
      (alloc : ℕ → ℕ × Job) (actor self handler : ℕ) (ready_status busy_status : Status)
      (d d' : Desk)
      → is_idle d.event.type ≡ false
      → accept_and_start_job y k alloc actor self handler ready_status busy_status d ≡ some (ok, d')
      → d'.slot ≢ 0
      → (other : Event) (actor' self' handler' : ℕ) (ready_status' busy_status' : Status)
      → other.size ≢ dynamic_size
      → accept_and_start_job y k alloc actor' self' handler' ready_status' busy_status'
          (record d' { event = other })
        ≡ some (busy, record d' { event = record other { status = busy_status' } })
  one_event_at_a_time alloc actor self handler ready_status busy_status d d' real run nz other
        actor' self' handler' ready_status' busy_status' plain =
      started_occupied alloc actor' self' handler' ready_status' busy_status'
        (record d' { event = other }) nz
        (rw (started-type alloc actor self handler ready_status busy_status d d' run nz) real) plain
