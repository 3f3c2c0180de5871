-- ===== src/Node/Workers.antt =====
-- The workers that the actors of a node give a thread.
use stm32app.Base.{
  ◌≤◌, ◌^◌, sym, ◌∙◌, ℕ, zero, suc, ◌+◌, ◌≡◌, ◌≢◌, ◌<◌, refl, inl, inr, ap, Bool, true, false,
  Option, none, some, Option-cases, List, [], ◌∷◌, length, get_elem?, ◌==◌, arith, none-ne_some,
  some-inj,
}
use stm32app.Thread.{Worker, worker_for}
use stm32app.Thread.Creation.{Obtained, Created, thread_create, thread_create-Ends}
use stm32app.Node.{NodeActor, callback_of, iterate_workers}

module _ (address : ℕ → ℕ) (thread : ℕ) where
  -- The pass without an array counts what the other one writes.
  pub iterate_workers-count :
      (i : ℕ) (actors : List NodeActor)
      → (iterate_workers address thread false i actors).0
        ≡ length (iterate_workers address thread true i actors).1
  unfolding iterate_workers
  iterate_workers-count i [] = refl
  iterate_workers-count i (a ∷ actors) = elim (Option-cases (callback_of thread a)) [
    | inl absent ↦ rw (absent, iterate_workers) (iterate_workers-count (suc i) actors)
    | inr (callback, given) ↦
        rw (given, iterate_workers) (ap suc (iterate_workers-count (suc i) actors))
  ]

  abbrev worker : ℕ → ℕ → Worker
  worker callback i = record {
    last_time = 0;
    next_time = 0;
    thread = thread;
    actor = address i;
    catchup = 0;
    callback = callback;
  }

  worker_for-behind :
      (apart : (p q : ℕ) → p < q → address p ≢ address q) (p i : ℕ) (actors : List NodeActor)
      → p < i
      → worker_for (address p) (iterate_workers address thread true i actors).1 ≡ none
  unfolding iterate_workers worker_for
  worker_for-behind apart p i [] lt = refl
  worker_for-behind apart p i (a ∷ actors) lt =
      let rest = worker_for-behind apart p (suc i) actors (omega (arith, lt)) in
      elim (Option-cases (callback_of thread a)) [
        | inl absent ↦ rw (absent, iterate_workers) rest
        | inr (callback, given) ↦
            let other : (address i == address p) ≡ false = ground (arith, apart p i lt) in
            rw (given, iterate_workers, other, rest) refl
      ]

  -- The worker of the actor whose address it is, with its callback; none for an actor without one.
  abbrev pub IsServed : ℕ → Option ℕ → List Worker → Type 0
  IsServed actor none workers = worker_for actor workers ≡ none
  IsServed actor (some callback) workers =
      (k : ℕ) × (w : Worker) × (worker_for actor workers ≡ some k)
      × (get_elem? workers k ≡ some w)
      × (w.callback ≡ callback)
      × (w.thread ≡ thread)

  IsServed-cons :
      (actor : ℕ) (c : Option ℕ) (w : Worker) (workers : List Worker)
      → w.actor ≢ actor
      → IsServed actor c workers
      → IsServed actor c (w ∷ workers)
  unfolding worker_for
  IsServed-cons actor none w workers ne h =
      let other : (w.actor == actor) ≡ false = ground (arith, ne) in rw (other, h) refl
  IsServed-cons actor (some callback) w workers ne (k, v, found, at, same, here) =
      let other : (w.actor == actor) ≡ false = ground (arith, ne) in
      (suc k, v, rw (other, found) refl, at, same, here)

  IsServed-head :
      (apart : (p q : ℕ) → p < q → address p ≢ address q) (actors : List NodeActor) (i : ℕ)
      (a : NodeActor)
      → IsServed
          (address i)
          (callback_of thread a)
          (iterate_workers address thread true i (a ∷ actors)).1
  unfolding iterate_workers worker_for
  IsServed-head apart actors i a = elim (Option-cases (callback_of thread a)) [
    | inl absent ↦
        rw (absent, iterate_workers) (worker_for-behind apart i (suc i) actors (omega arith))
    | inr (callback, given) ↦
        let own : (address i == address i) ≡ true = ground arith in
        rw (given, iterate_workers) (0, worker callback i, rw own refl, refl, refl, refl)
  ]

  iterate-IsServed :
      (apart : (p q : ℕ) → p < q → address p ≢ address q) (actors : List NodeActor) (i n p : ℕ)
      (a : NodeActor)
      → p ≡ i + n
      → get_elem? actors n ≡ some a
      → IsServed (address p) (callback_of thread a) (iterate_workers address thread true i actors).1
  unfolding iterate_workers worker_for
  iterate-IsServed apart [] i n p a e at = absurd (none-ne_some a at)
  iterate-IsServed apart (b ∷ actors) i zero p a e at =
      let here : p ≡ i = omega (arith, e) in
      rw (here, ← some-inj b a at) (IsServed-head apart actors i b)
  iterate-IsServed apart (b ∷ actors) i (suc n) p a e at =
      let rest = iterate-IsServed apart actors (suc i) n p a (omega (arith, e)) at in
      elim (Option-cases (callback_of thread b)) [
        | inl absent ↦ rw (absent, iterate_workers) rest
        | inr (callback, given) ↦
            rw (given, iterate_workers)
              (IsServed-cons (address p) (callback_of thread a) _ _ (apart i p (omega (arith, e)))
                rest)
      ]

count_le :
    (address : ℕ → ℕ) (thread i : ℕ) (actors : List NodeActor)
    → (iterate_workers address thread false i actors).0 ≤ length actors
unfolding iterate_workers
count_le address thread i [] = omega arith
count_le address thread i (a ∷ actors) =
    let rest = count_le address thread (suc i) actors in
    elim (Option-cases (callback_of thread a)) [
      | inl absent ↦ rw (absent, iterate_workers) (omega (arith, rest))
      | inr (callback, given) ↦ rw (given, iterate_workers) (omega (arith, rest))
    ]

-- A thread that a node of fewer than 2 ^ 16 actors creates serves every actor of the node: each has a
-- worker on it with the callback that its class gives for the thread, or none where the class gives
-- none. The actors stand at different addresses.
pub created_serves :
    (address : ℕ → ℕ)
    → ((p q : ℕ) → p < q → address p ≢ address q)
    → (o : Obtained) (actors : List NodeActor) (actor queue_size flags slot p : ℕ) (a : NodeActor)
      (c : Created)
    → length actors < 2 ^ 16
    → get_elem? actors p ≡ some a
    → thread_create o (λ d. iterate_workers address o.thread d 0 actors) actor queue_size flags slot
      ≡ some c
    → c.result ≢ 0
    → IsServed address o.thread (address p) (callback_of o.thread a) c.thread.workers
created_serves address apart o actors actor queue_size flags slot p a c few at made created =
    let iterate : Bool → ℕ × List Worker = λ d. iterate_workers address o.thread d 0 actors in
    let le = count_le address o.thread 0 actors in
    let (c', made', ends) =
      thread_create-Ends o iterate actor queue_size flags
        (iterate_workers-count address o.thread 0 actors) (omega (arith, le, few)) slot in
    let same : c' ≡ c = some-inj c' c (sym made' ∙ made) in
    elim ends [
      | inl (_, (_, _, _, workers, _)) ↦
          rw (← same, workers)
            (iterate-IsServed address o.thread apart actors 0 p p a (omega arith) at)
      | inr (failed, _) ↦ absurd (created (rw same at failed))
    ]
