-- ===== src/Thread/Coverage.antt =====
-- The wake-up time of a thread against those that its workers ask for, and scheduling a worker:
-- `actor_thread_worker_schedule` of actor_rtos/src/actor/thread.c.
use stm32app.Base.{
  ℕ, ◌≤◌, ◌≡◌, ◌≢◌, ◌⊎◌, inl, inr, Option, none, some, get_elem?, arith, get_elem?-set_self,
  get_elem?-set_ne, get_elem?-lt, Bool-cases, false, ltb, refl, ◌<◌, ap, ◌∙◌,
}
use stm32app.Thread.{
  Worker, Thread, Rtos, Kernel, reschedule_value, notify_generic, set_worker, schedule,
  worker_schedule,
}

-- The thread wakes up no later than the worker wants to; 0 is no wish.
abbrev pub CoversWorker : ℕ → Option Worker → Type 0
CoversWorker time none = Unit
CoversWorker time (some w) = (w.next_time ≡ 0) ⊎ (time ≤ w.next_time)

abbrev pub Covers : Thread → ℕ → Type 0
Covers t j = CoversWorker t.next_time (get_elem? t.workers j)

pub CoversWorker-mono :
    (time time' : ℕ) (o : Option Worker) → time' ≤ time → CoversWorker time o → CoversWorker time' o
CoversWorker-mono time time' none le c = tt
CoversWorker-mono time time' (some w) le (inl z) = inl z
CoversWorker-mono time time' (some w) le (inr h) = inr (omega arith)

pub Covers-ext :
    (t t' : Thread) (j : ℕ)
    → get_elem? t'.workers j ≡ get_elem? t.workers j
    → t'.next_time ≤ t.next_time
    → Covers t j
    → Covers t' j
Covers-ext t t' j e le c =
    rw e (CoversWorker-mono t.next_time t'.next_time (get_elem? t.workers j) le c)

pub Covers-intro :
    (t : Thread) (j : ℕ) (w : Worker)
    → get_elem? t.workers j ≡ some w
    → (w.next_time ≡ 0) ⊎ (t.next_time ≤ w.next_time)
    → Covers t j
Covers-intro t j w e h = rw e h

pub Covers-empty : (t : Thread) (j : ℕ) → get_elem? t.workers j ≡ none → Covers t j
Covers-empty t j e = rw e tt

-- Another worker's fields do not matter.
pub Covers-set_worker :
    (t : Thread) (i j : ℕ) (w : Worker) → i ≢ j → Covers t j → Covers (set_worker i w t) j
Covers-set_worker t i j w ne c =
    Covers-ext t (set_worker i w t) j (get_elem?-set_ne t.workers i j w ne) (omega arith) c

pub schedule_lem :
    (k : Kernel) (t : Thread) (time : ℕ) (r : Rtos)
    → ((schedule k t time r).0.next_time ≤ time)
      × ((schedule k t time r).0.next_time ≤ t.next_time)
      × ((schedule k t time r).0.workers ≡ t.workers)
unfolding schedule
schedule_lem k t time r = ground arith

-- The task has been notified that its wake-up time has changed: its slot holds what FreeRTOS makes of
-- the value, where it does not overwrite another, and everything else is as before.
abbrev pub IsNotified : Kernel → ℕ → Rtos → Rtos → Type 0
IsNotified k task r r' =
    (r'.slots task ≡ (k.notify reschedule_value false (r.slots task)).1)
    × ((p : ℕ) → p ≢ task → r'.slots p ≡ r.slots p)
    × (r'.queues ≡ r.queues)

-- The wake-up time of a thread for which a sooner one is asked, and who is told.
abbrev pub IsScheduled : Kernel → Thread → ℕ → Rtos → Thread × Rtos → Type 0
IsScheduled k t time r out =
    ((time < t.next_time) × (out.0.next_time ≡ time) × IsNotified k t.task r out.1)
    ⊎ ((t.next_time ≤ time) × (out.0.next_time ≡ t.next_time) × (out.1 ≡ r))

schedule-IsScheduled :
    (k : Kernel) (t : Thread) (time : ℕ) (r : Rtos) → IsScheduled k t time r (schedule k t time r)
unfolding schedule notify_generic
schedule-IsScheduled k t time r = elim (Bool-cases (ltb time t.next_time)) [
  | inl sooner ↦
      rw sooner
        (inl (ground (arith, sooner), refl, (ground arith, λ p ne. ground (arith, ne), refl)))
  | inr later ↦ rw later (inr (ground (arith, later), refl, refl))
]

-- A worker of the thread that is scheduled has the time that was asked for. Where that is sooner than
-- the thread's wake-up time, it is the thread's from then on and the thread's task is notified;
-- otherwise the thread's time and FreeRTOS stay as they were. The other workers stay as they were, and
-- the thread still wakes up in time for each of them if it did before.
pub worker_schedule-Covers :
    (k : Kernel) (t : Thread) (i time : ℕ) (w : Worker) (r : Rtos)
    → get_elem? t.workers i ≡ some w
    → let out = worker_schedule k t i time r in
      (get_elem? out.0.workers i ≡ some (record w { next_time = time }))
      × IsScheduled k t time r out
      × ((j : ℕ)
          → i ≢ j
          → (get_elem? out.0.workers j ≡ get_elem? t.workers j) × (Covers t j → Covers out.0 j))
unfolding worker_schedule
worker_schedule-Covers k t i time w r e =
    let w' : Worker = record w { next_time = time } in
    let t' : Thread = set_worker i w' t in
    let (le_time, le_next, same) = schedule_lem k t' time r in
    let others : (j : ℕ)
        → i ≢ j
        → get_elem? (schedule k t' time r).0.workers j ≡ get_elem? t.workers j =
      λ j ne. ap (λ ws. get_elem? ws j) same ∙ get_elem?-set_ne t.workers i j w' ne in
    rw (e, worker_schedule)
      (
        ap (λ ws. get_elem? ws i) same
            ∙ get_elem?-set_self t.workers i w' (get_elem?-lt t.workers i w e),
        schedule-IsScheduled k t' time r,
        λ j ne. (others j ne, λ c. Covers-ext t (schedule k t' time r).0 j (others j ne) le_next c),
      )
