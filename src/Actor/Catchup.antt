-- ===== src/Actor/Catchup.antt =====
-- An actor is told to catch up once for each time that it was busy.
use stm32app.Base.{
  ℕ, zero, suc, ◌≡◌, refl, ◌∙◌, inl, inr, true, false, Option, none, some, List, [], ◌∷◌, arith,
  set, get_elem?, get_elem?-set_self, get_elem?-lt, Option-cases, Bool-cases, ◌==◌,
}
use stm32app.Thread.{Worker, Thread, Rtos, Kernel, worker_for, set_worker, notify_generic}
use stm32app.Actor.{worker_or_own, worker_catchup, catchup_value}

worker_for-set :
    (actor : ℕ) (ws : List Worker) (i : ℕ) (w w' : Worker)
    → get_elem? ws i ≡ some w
    → w'.actor ≡ w.actor
    → worker_for actor (set ws i w') ≡ worker_for actor ws
unfolding worker_for
worker_for-set actor [] i w w' e same = refl
worker_for-set actor (x ∷ ws) zero w w' e same = ground arith
worker_for-set actor (x ∷ ws) (suc i) w w' e same = rw (worker_for-set actor ws i w w' e same) refl

module _ (k : Kernel) (catchup_thread : ℕ → Thread) (actor : ℕ) (worker : Option ℕ) where
  abbrev caught_up : Thread → Rtos → Thread × Rtos
  caught_up = worker_catchup k catchup_thread actor worker

  found-set_worker :
      (t : Thread) (i : ℕ) (w : Worker)
      → get_elem? t.workers i ≡ some w
      → worker_or_own worker actor (set_worker i (record w { catchup = 0 }) t)
        ≡ worker_or_own worker actor t
  found-set_worker t i w e = by_worker worker
    where
      by_worker :
          (o : Option ℕ)
          → worker_or_own o actor (set_worker i (record w { catchup = 0 }) t)
            ≡ worker_or_own o actor t
      by_worker none = worker_for-set actor t.workers i w (record w { catchup = 0 }) e refl
      by_worker (some j) = refl

  -- A worker without events to catch up with stays as it is, and so does FreeRTOS.
  nothing_due :
      (t : Thread) (r : Rtos) (i : ℕ) (w : Worker)
      → worker_or_own worker actor t ≡ some i
      → get_elem? t.workers i ≡ some w
      → w.catchup ≡ 0
      → caught_up t r ≡ (t, r)
  unfolding worker_catchup
  nothing_due t r i w found there z =
      let q : (w.catchup == 0) ≡ true = ground arith in rw (found, worker_catchup, there, q) refl

  nobody_due :
      (t : Thread) (r : Rtos) → worker_or_own worker actor t ≡ none → caught_up t r ≡ (t, r)
  unfolding worker_catchup
  nobody_due t r e = rw (e, worker_catchup) refl

  no_worker_due :
      (t : Thread) (r : Rtos) (i : ℕ)
      → worker_or_own worker actor t ≡ some i
      → get_elem? t.workers i ≡ none
      → caught_up t r ≡ (t, r)
  unfolding worker_catchup
  no_worker_due t r i found e = rw (found, worker_catchup, e) refl

  -- What a run leaves is left alone by the next, for the thread and FreeRTOS that the run leaves.
  then_still :
      (t t' : Thread) (r r' : Rtos)
      → caught_up t r ≡ (t', r')
      → caught_up t' r' ≡ (t', r')
      → caught_up (caught_up t r).0 (caught_up t r).1 ≡ caught_up t r
  then_still t t' r r' e f = rw e f

  due :
      (t : Thread) (r : Rtos) (i : ℕ) (w : Worker)
      → worker_or_own worker actor t ≡ some i
      → get_elem? t.workers i ≡ some w
      → (w.catchup == 0) ≡ false
      → caught_up t r ≡ (
        set_worker i (record w { catchup = 0 }) t,
        (notify_generic k (catchup_thread w.catchup) catchup_value false r).1,
      )
  unfolding worker_catchup
  due t r i w found there nz = rw (found, worker_catchup, there, nz) refl

  -- Telling a worker to catch up a second time does nothing: the first time has cleared the thread
  -- that it had to come back to, if there was one.
  pub catchup_once :
      (t : Thread) (r : Rtos)
      → worker_catchup k catchup_thread actor worker
          (worker_catchup k catchup_thread actor worker t r).0
          (worker_catchup k catchup_thread actor worker t r).1
        ≡ worker_catchup k catchup_thread actor worker t r
  catchup_once t r = elim (Option-cases (worker_or_own worker actor t)) [
    | inl e ↦ then_still t t r r (nobody_due t r e) (nobody_due t r e)
    | inr (i, found) ↦ elim (Option-cases (get_elem? t.workers i)) [
      | inl e ↦ then_still t t r r (no_worker_due t r i found e) (no_worker_due t r i found e)
      | inr (w, there) ↦ elim (Bool-cases (w.catchup == 0)) [
        | inl z ↦ let e = nothing_due t r i w found there (ground arith) in then_still t t r r e e
        | inr nz ↦ then_still t _ r _ (due t r i w found there nz) (
            nothing_due (set_worker i (record w { catchup = 0 }) t) _ i (record w { catchup = 0 })
              (found-set_worker t i w there ∙ found)
              (get_elem?-set_self t.workers i (record w { catchup = 0 })
                (get_elem?-lt t.workers i w there))
              refl)
      ]
    ]
  ]
