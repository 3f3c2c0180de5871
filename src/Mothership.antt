-- ===== src/Mothership.antt =====
-- src/mothership.c: the node's own actor. It grows the pools that the structs of buffers and jobs come
-- from, and has workers on three of the node's threads. And actor_buffer_malloc of
-- actor_rtos/src/actor/buffer.c, which its pools begin with.
pub mod Growth
mod Tests
use stm32app.Base.{
  ℕ, ◌+◌, ◌*◌, ◌%◌, ◌^◌, Bool, true, false, not, ◌&&◌, Option, none, some, List, [], ◌∷◌, ◌++◌,
  ◌==◌, if◌then◌else◌,
}
use stm32app.Signal.{Signal, ok, out_of_memory, is_set, received}
use stm32app.Memory.{Memory}
use stm32app.Buffer.{Buffer, u32, set_size}
use stm32app.Store.{Store, System, zero_buffer, put, get_last_page, set_next_page, release}
use stm32app.Event.{EventType, thread_alarm, is_alarm, diagnose, start}
use stm32app.Job.{Job}
use stm32app.Thread.{Thread, Worker, Kernel}
use stm32app.Intake.{Desk, accept_and_start_job}

-- `malloc` is the heap's for a struct; NULL is a fault, since the struct is written at once.
unfoldable pub buffer_malloc : (Store → ℕ × Store) → ℕ → Store → Option (ℕ × Store)
buffer_malloc malloc owner s =
    let (p, t) = malloc s in
    if p == 0 then none else some (p, put p (record zero_buffer { next = p; owner = owner }) t)

module _ (y : System) (malloc : Store → ℕ × Store) (actor : ℕ) where
  -- The pool's own struct while it has no memory, and a new one after.
  unfoldable pub next_page : ℕ → Store → Option (ℕ × Store)
  next_page pool s =
      if (s.buffers pool).allocated_size == 0 then some (pool, s) else buffer_malloc malloc actor s

  -- `actor_buffer_set_size(next, ...)` and what follows it.
  unfoldable pub fill_with : ℕ → Signal × Buffer × Memory → Store → Signal × Store
  fill_with page (signal, b, m) s =
      if is_set signal
      then (out_of_memory, put page b (record s { memory = m }))
      else (ok, put page (record b { size = b.allocated_size }) (record s { memory = m }))

  unfoldable pub fill_page : ℕ → ℕ → Store → Signal × Store
  fill_page page size s = fill_with page (set_size y.platform (s.buffers page) size s.memory) s

  -- One branch of `mothership_on_buffer_allocation`: `item` is the size of what the pool holds.
  unfoldable pub add_page : (pool buffer item : ℕ) → Store → Option (Signal × Store)
  add_page pool buffer item s = elim (next_page pool s) [
    | none ↦ none
    | some (page, t) ↦ elim (get_last_page buffer t) [
      | none ↦ none
      | some previous ↦ some (fill_page page (10 * item) (set_next_page previous page t))
    ]
  ]

  unfoldable pub on_buffer_allocation :
      (buffers jobs buffer_size job_size buffer : ℕ) → Store → Option (Signal × Store)
  on_buffer_allocation buffers jobs buffer_size job_size buffer s = elim (get_last_page buffer s) [
    | none ↦ none
    | some last ↦ elim (get_last_page buffers s) [
      | none ↦ none
      | some last_buffer ↦
          if last == last_buffer
          then add_page buffers buffer buffer_size s
          else elim (get_last_page jobs s) [
            | none ↦ none
            | some last_job ↦
                if last == last_job then add_page jobs buffer job_size s else some (ok, s)
          ]
    ]
  ]

pub data WorkerName : Type 0 where
  input_worker high_priority_worker low_priority_worker : WorkerName

unfoldable pub on_worker_assignment : (input high low thread : ℕ) → Option WorkerName
on_worker_assignment input high low thread =
    if thread == input
    then some input_worker
    else if thread == high
    then some high_priority_worker
    else if thread == low
    then some low_priority_worker
    else none

-- What `mothership_worker_high_priority` does at the first alarm, in its order: a timeout of a second
-- with argument 123, and two events.
pub data Action : Type 0 where
  set_timeout : (argument timeout : ℕ) → Action
  publish : EventType → Action

unfoldable pub worker_high_priority : EventType → Bool → Bool × List Action
worker_high_priority type initialized =
    if is_alarm type && not initialized
    then (true, set_timeout 123 1000000 ∷ publish diagnose ∷ publish start ∷ [])
    else (initialized, [])
