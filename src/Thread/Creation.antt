-- ===== src/Thread/Creation.antt =====
-- actor_thread_create and actor_thread_destroy of thread.c. What the heap and FreeRTOS give is a
-- parameter; 0 is a failure.
use stm32app.Base.{
  Option, none, some, ◌%◌, ◌^◌, ◌<◌, ℕ, ◌≡◌, ◌≢◌, ◌⊎◌, refl, inl, inr, sym, Bool, true, false, not,
  ◌&&◌, ◌||◌, Bool-cases, List, [], length, ltb, ◌==◌, if◌then◌else◌, arith,
}
use stm32app.Thread.{Thread, Worker}

-- The results of actor_thread_alloc, actor_calloc, xTaskCreate and xQueueCreate.
pub record Obtained : Type 0 where
  pub thread : ℕ
  pub workers : ℕ
  pub task : ℕ
  pub queue : ℕ

-- Which of them are held.
pub record Held : Type 0 where
  pub thread : Bool
  pub workers : Bool
  pub task : Bool
  pub queue : Bool

-- What a call returns, and leaves in the slot, the thread's memory and the books of the allocators.
pub record Created : Type 0 where
  pub result : ℕ
  pub slot : ℕ
  pub thread : Thread
  pub held : Held

abbrev pub nothing_held : Held
nothing_held = record { thread = false; workers = false; task = false; queue = false }

-- `*thread = (actor_thread_t){.actor = actor, .flags = flags};`
abbrev pub fresh_thread : ℕ → ℕ → Thread
fresh_thread actor flags = record {
  actor = actor;
  last_time = 0;
  current_time = 0;
  next_time = 0;
  task = 0;
  queue = 0;
  workers = [];
  flags = flags;
}

unfoldable pub thread_destroy : Thread → Held → Held
thread_destroy t held = record held {
  thread = false;
  task = if t.task == 0 then held.task else false;
  queue = if t.queue == 0 then held.queue else false;
}

-- `iterate` is actor_thread_iterate_workers without an array, or with one.
module _ (o : Obtained) (iterate : Bool → ℕ × List Worker) (actor queue_size flags : ℕ) where
  -- The thread with its workers, its task and its queue, as far as the allocations go.
  abbrev pub with_workers : Thread
  with_workers = record (fresh_thread actor flags) { workers = (iterate true).1 }

  abbrev pub with_task : Thread
  with_task = record with_workers { task = o.task }

  abbrev pub with_queue : Thread
  with_queue = if ltb 0 queue_size then record with_task { queue = o.queue } else with_task

  -- `clean up whatever has been allocated`
  abbrev pub clean_up : Thread → Held → Created
  clean_up t held = record { result = 0; slot = 0; thread = t; held = thread_destroy t held }

  abbrev pub hold : Bool → Bool → Bool → Held
  hold workers task queue = record { thread = true; workers = workers; task = task; queue = queue }

  unfoldable pub create_queue : Created
  create_queue =
      let queued = ltb 0 queue_size && not (o.queue == 0) in
      if queue_size == 0 || queued
      then record {
        result = o.thread;
        slot = o.thread;
        thread = with_queue;
        held = hold true true queued;
      }
      else clean_up with_queue (hold true true false)

  unfoldable pub create_task : Created
  create_task = if o.task == 0 then clean_up with_task (hold true false false) else create_queue

  -- The count is stored as a uint16_t, by which the array is made; a second pass that goes past it
  -- writes outside an allocation.
  abbrev pub worker_count : ℕ
  worker_count = (iterate false).0 % 2 ^ 16

  unfoldable pub fill_workers : Option Created
  fill_workers = if ltb worker_count (length (iterate true).1) then none else some create_task

  unfoldable pub thread_create : ℕ → Option Created
  thread_create slot =
      if o.thread == 0
      then some (record {
        result = 0;
        slot = slot;
        thread = fresh_thread actor flags;
        held = nothing_held;
      })
      else if worker_count == 0
      then some (clean_up (fresh_thread actor flags) (hold false false false))
      else if o.workers == 0
      then some (clean_up (fresh_thread actor flags) (hold false false false))
      else fill_workers

  -- A thread that comes back has all its parts: it stands in the slot, with a task, with a queue if
  -- one was asked for, and with a worker for each of the actors counted, in an array of that many.
  abbrev pub IsComplete : Created → Type 0
  IsComplete c =
      (c.slot ≡ c.result)
      × (c.thread.task ≢ 0)
      × ((queue_size ≡ 0) ⊎ (c.thread.queue ≢ 0))
      × (c.thread.workers ≡ (iterate true).1)
      × (length c.thread.workers ≡ (iterate false).0)

  -- A failure leaves nothing but the array of workers, and NULL in the slot, or the slot as it was.
  abbrev pub IsCleaned : ℕ → Created → Type 0
  IsCleaned slot c =
      (c.held ≡ record nothing_held {
        workers = not (o.thread == 0) && (not (worker_count == 0) && not (o.workers == 0));
      })
      × (c.slot ≡ (if o.thread == 0 then slot else 0))

  -- How a creation ends.
  abbrev pub Ends : ℕ → Created → Type 0
  Ends slot c = ((c.result ≢ 0) × IsComplete c) ⊎ ((c.result ≡ 0) × IsCleaned slot c)

  create_queue-Ends :
      o.thread ≢ 0
      → worker_count ≢ 0
      → o.workers ≢ 0
      → o.task ≢ 0
      → (iterate false).0 ≡ length (iterate true).1
      → (slot : ℕ) → Ends slot create_queue
  unfolding create_queue thread_destroy
  create_queue-Ends t n w k fits slot =
      let t' : (o.thread == 0) ≡ false = ground (arith, t) in
      let n' : (worker_count == 0) ≡ false = ground (arith, n) in
      let w' : (o.workers == 0) ≡ false = ground (arith, w) in
      let k' : (o.task == 0) ≡ false = ground (arith, k) in
      elim (Bool-cases (queue_size == 0)) [
        | inl quiet ↦
            let q : ltb 0 queue_size ≡ false = ground (arith, quiet) in
            rw (quiet, q) (inl (t, (refl, k, inl (ground (arith, quiet)), refl, sym fits)))
        | inr wanted ↦
            let q : ltb 0 queue_size ≡ true = ground (arith, wanted) in
            elim (Bool-cases (o.queue == 0)) [
              | inl missing ↦ rw (wanted, q, missing, t', n', w', k') (inr (refl, (refl, refl)))
              | inr given ↦
                  let given' : o.queue ≢ 0 = ground (arith, given) in
                  rw (wanted, q, given) (inl (t, (refl, k, inr given', refl, sym fits)))
            ]
      ]

  Ends-congr : (slot : ℕ) {c d : Created} → c ≡ d → Ends slot d → Ends slot c
  Ends-congr slot e h = rw e h

  task_given : (o.task == 0) ≡ false → create_task ≡ create_queue
  unfolding create_task
  task_given k = rw k refl

  task_missing :
      o.thread ≢ 0
      → worker_count ≢ 0
      → o.workers ≢ 0
      → (o.task == 0) ≡ true
      → (slot : ℕ) → Ends slot create_task
  unfolding create_task thread_destroy
  task_missing t n w k slot =
      let t' : (o.thread == 0) ≡ false = ground (arith, t) in
      let n' : (worker_count == 0) ≡ false = ground (arith, n) in
      let w' : (o.workers == 0) ≡ false = ground (arith, w) in
      rw (k, t', n', w') (inr (refl, (refl, refl)))

  create_task-Ends :
      o.thread ≢ 0
      → worker_count ≢ 0
      → o.workers ≢ 0
      → (iterate false).0 ≡ length (iterate true).1
      → (slot : ℕ) → Ends slot create_task
  create_task-Ends t n w fits slot = elim (Bool-cases (o.task == 0)) [
    | inl k ↦ task_missing t n w k slot
    | inr k ↦ Ends-congr slot (task_given k) (create_queue-Ends t n w (ground (arith, k)) fits slot)
  ]

  filled :
      (slot : ℕ)
      → (o.thread == 0) ≡ false
      → (worker_count == 0) ≡ false
      → (o.workers == 0) ≡ false
      → ltb worker_count (length (iterate true).1) ≡ false
      → thread_create slot ≡ some create_task
  unfolding thread_create fill_workers
  filled slot t n w room = rw (t, n, w, room) refl

  -- A call that comes back, and how the creation ends.
  abbrev pub EndsWith : ℕ → Option Created → Type 0
  EndsWith slot o = (c : Created) × (o ≡ some c) × Ends slot c

  -- For fewer than 2 ^ 16 workers, a thread is created with all its parts, in the slot, with room for
  -- just the workers that it is given; or NULL is returned, and everything obtained is given back but
  -- the array of workers, which is held for ever where it had been obtained. Both passes over the
  -- actors count alike.
  pub thread_create-Ends :
      (iterate false).0 ≡ length (iterate true).1
      → (iterate false).0 < 2 ^ 16
      → (slot : ℕ) → EndsWith slot (thread_create slot)
  unfolding thread_create fill_workers thread_destroy
  thread_create-Ends fits few slot = elim (Bool-cases (o.thread == 0)) [
    | inl t ↦ rw t (_, refl, inr (refl, (refl, refl)))
    | inr t ↦ elim (Bool-cases (worker_count == 0)) [
      | inl n ↦ rw (t, n) (_, refl, inr (refl, (refl, refl)))
      | inr n ↦ elim (Bool-cases (o.workers == 0)) [
        | inl w ↦ rw (t, n, w) (_, refl, inr (refl, (refl, refl)))
        | inr w ↦
            let room : ltb worker_count (length (iterate true).1) ≡ false =
              ground (arith, fits, few) in
            (
              create_task,
              filled slot t n w room,
              create_task-Ends (ground (arith, t)) (ground (arith, n)) (ground (arith, w)) fits
                  slot,
            )
      ]
    ]
  ]
