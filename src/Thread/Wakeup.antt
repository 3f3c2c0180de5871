-- ===== src/Thread/Wakeup.antt =====
-- No alarm is slept through: the thread's wake-up time against its workers'.
use stm32app.Base.{
  ℕ, zero, suc, ◌+◌, ◌≤◌, ◌<◌, ◌≡◌, refl, ◌≢◌, ◌⊎◌, inl, inr, Bool, true, Option, none, some,
  length, get_elem?, ◌==◌, arith, get_elem?-set_self, get_elem?-lt, get_elem?_of_lt, length-set,
  Bool-cases, Option-cases, ap, ◌∙◌,
}
use native.Mathlib.Decide.{ℕ_discrete}
use stm32app.Signal.{ok, is_busy}
use stm32app.Event.{Event}
use stm32app.Thread.{Worker, Thread, never, set_worker}
use stm32app.Thread.Dispatch.{
  Dispatched, before_callback, after_callback, should_notify_actor, run_callback, adopt_time,
  actor_dispatch, note_busy, dispatch_at, dispatch_from, event_dispatch,
}
use stm32app.Thread.Coverage.{Covers, Covers-ext, Covers-intro, Covers-empty, Covers-set_worker}

-- What callbacks keep to: they leave the other workers covered, as scheduling does, the workers in
-- place, and an event that is broadcast without a consumer.
pub record IsPolite {W : Type 0} (callback : ℕ → Thread → Event → W → Dispatched W) : Type 0 where
  pub covers :
      (i : ℕ) (t : Thread) (e : Event) (world : W) (j : ℕ)
      → i ≢ j
      → Covers t j
      → Covers (callback i t e world).thread j
  pub places :
      (i : ℕ) (t : Thread) (e : Event) (world : W)
      → length (callback i t e world).thread.workers ≡ length t.workers
  pub broadcasts :
      (i : ℕ) (t : Thread) (e : Event) (world : W)
      → e.consumer ≡ 0
      → (callback i t e world).event.consumer ≡ 0

before_callback-cases :
    (i : ℕ) (w : Worker) (t : Thread) (e : Event)
    → (before_callback i w t e ≡ t)
      ⊎ (before_callback i w t e ≡ set_worker i (record w { next_time = never }) t)
unfolding before_callback
before_callback-cases i w t e = ground arith

module _ (i : ℕ) where
  adopt_time_lem :
      (t : Thread)
      → ((adopt_time i t).next_time ≤ t.next_time) × ((adopt_time i t).workers ≡ t.workers)
  unfolding adopt_time
  adopt_time_lem t = ground arith

  adopt_time-Covers : (j : ℕ) (t : Thread) → Covers t j → Covers (adopt_time i t) j
  adopt_time-Covers j t c =
      Covers-ext t (adopt_time i t) j (ap (λ ws. get_elem? ws j) (adopt_time_lem t).1)
        (adopt_time_lem t).0 c

  adopt_time-Covers_self : (t : Thread) → Covers (adopt_time i t) i
  unfolding adopt_time
  adopt_time-Covers_self t = elim (Option-cases (get_elem? t.workers i)) [
    | inl e ↦ rw (e, adopt_time) (Covers-empty t i e)
    | inr (w, e) ↦
        Covers-intro (adopt_time i t) i w (ap (λ ws. get_elem? ws i) (adopt_time_lem t).1 ∙ e)
          (ground (arith, e))
  ]

-- Every worker below `n` is covered.
abbrev pub AllCovered : {W : Type 0} → ℕ → Option (Dispatched W) → Type 0
AllCovered n none = ⊥
AllCovered n (some d) = (j : ℕ) → j < n → Covers d.thread j

module _ {W : Type 0} (subscribed : ℕ → Event → Bool)
    (callback : ℕ → Thread → Event → W → Dispatched W) (polite : IsPolite callback) where
  -- What a delivery to worker `i` does to the workers' coverage and to the event's consumer.
  record Delivers (i : ℕ) (t : Thread) (e : Event) (d : Dispatched W) : Type 0 where
    others : (j : ℕ) → i ≢ j → Covers t j → Covers d.thread j
    places : length d.thread.workers ≡ length t.workers
    broadcasts : e.consumer ≡ 0 → d.event.consumer ≡ 0

  set_worker-Delivers :
      (i : ℕ) (w : Worker) (t : Thread) (e : Event) (d : Dispatched W)
      → Delivers i t e d
      → Delivers i t e (record d { thread = set_worker i w d.thread })
  set_worker-Delivers i w t e d v = record {
    others = λ j ne c. Covers-set_worker d.thread i j w ne (v.others j ne c);
    places = length-set d.thread.workers i w ∙ v.places;
    broadcasts = v.broadcasts;
  }

  callback-Delivers :
      (i : ℕ) (t : Thread) (e : Event) (world : W) → Delivers i t e (callback i t e world)
  callback-Delivers i t e world = record {
    others = polite.covers i t e world;
    places = polite.places i t e world;
    broadcasts = polite.broadcasts i t e world;
  }

  -- A worker's own entry may be set before the callback too.
  before-Delivers :
      (i : ℕ) (w : Worker) (t : Thread) (e : Event) (d : Dispatched W)
      → Delivers i (set_worker i w t) e d
      → Delivers i t e d
  before-Delivers i w t e d v = record {
    others = λ j ne c. v.others j ne (Covers-set_worker t i j w ne c);
    places = v.places ∙ length-set t.workers i w;
    broadcasts = v.broadcasts;
  }

  after_callback-Delivers :
      (i : ℕ) (t : Thread) (e : Event) (d : Dispatched W)
      → Delivers i t e d
      → Delivers i t e (after_callback i d)
  unfolding after_callback
  after_callback-Delivers i t e d v = elim (Option-cases (get_elem? d.thread.workers i)) [
    | inl none_there ↦
        rw (none_there, after_callback)
          (record {
            others = v.others;
            places = v.places;
            broadcasts = λ z. ground (arith, v.broadcasts z);
          })
    | inr (w, there) ↦
        rw (there, after_callback)
          (record {
            others = λ j ne c. Covers-set_worker d.thread i j _ ne (v.others j ne c);
            places = length-set d.thread.workers i _ ∙ v.places;
            broadcasts = λ z. ground (arith, v.broadcasts z);
          })
  ]

  idle-Delivers :
      (i : ℕ) (t : Thread) (e : Event) (world : W)
      → Delivers i t e (record { thread = t; event = e; world = world; signal = ok })
  idle-Delivers i t e world = record { others = λ j ne c. c; places = refl; broadcasts = λ z. z }

  adopted-Delivers :
      (i : ℕ) (t : Thread) (e : Event) (d : Dispatched W)
      → Delivers i t e d
      → Delivers i t e (record d { thread = adopt_time i d.thread })
        × Covers (adopt_time i d.thread) i
  adopted-Delivers i t e d v = (
    record {
      others = λ j ne c. adopt_time-Covers i j d.thread (v.others j ne c);
      places = ap length (adopt_time_lem i d.thread).1 ∙ v.places;
      broadcasts = v.broadcasts;
    },
    adopt_time-Covers_self i d.thread,
  )

  run_callback-Delivers :
      (i : ℕ) (w : Worker) (t : Thread) (e : Event) (world : W)
      → Delivers i t e (run_callback subscribed callback i w t e world)
  unfolding run_callback
  run_callback-Delivers i w t e world =
      after_callback-Delivers i t e (callback i (before_callback i w t e) e world)
        (elim (before_callback-cases i w t e) [
          | inl same ↦ rw same (callback-Delivers i t e world)
          | inr reset ↦
              rw reset (before-Delivers i _ t e _ (callback-Delivers i (set_worker i _ t) e world))
        ])

  actor_dispatch-Delivers :
      (i : ℕ) (w : Worker) (t : Thread) (e : Event) (world : W)
      → Delivers i t e (actor_dispatch subscribed callback i w t e world)
        × Covers (actor_dispatch subscribed callback i w t e world).thread i
  unfolding actor_dispatch
  actor_dispatch-Delivers i w t e world = elim (Bool-cases (should_notify_actor subscribed t e w)) [
    | inl heard ↦ rw heard (
        adopted-Delivers i t e (run_callback subscribed callback i w t e world)
          (run_callback-Delivers i w t e world))
    | inr deaf ↦ rw deaf (adopted-Delivers i t e _ (idle-Delivers i t e world))
  ]

  note_busy-Covers :
      (self i j : ℕ) (d : Dispatched W) → Covers d.thread j → Covers (note_busy self i d).thread j
  unfolding note_busy
  note_busy-Covers self i j d c = elim (Bool-cases (is_busy d.signal)) [
    | inr fine ↦ rw fine c
    | inl busy ↦ elim (Option-cases (get_elem? d.thread.workers i)) [
      | inl e ↦ rw (busy, e, note_busy) c
      | inr (w, e) ↦
          rw (busy, e, note_busy)
            (elim (ℕ_discrete i j) [
              | no ne ↦ Covers-set_worker d.thread i j _ ne c
              | yes same ↦ here w e same
            ])
    ]
  ]
    where
      here :
          (w : Worker)
          → get_elem? d.thread.workers i ≡ some w
          → i ≡ j
          → Covers (set_worker i (record w { catchup = self }) d.thread) j
      here w e same = rw (← same) (
          Covers-intro (set_worker i (record w { catchup = self }) d.thread) i
            (record w { catchup = self })
            (get_elem?-set_self d.thread.workers i (record w { catchup = self })
              (get_elem?-lt d.thread.workers i w e))
            (rw (← same, e) at c))

  note_busy_lem :
      (self i : ℕ) (d : Dispatched W)
      → (length (note_busy self i d).thread.workers ≡ length d.thread.workers)
        × ((note_busy self i d).event ≡ d.event)
  unfolding note_busy
  note_busy_lem self i d = elim (Option-cases (get_elem? d.thread.workers i)) [
    | inl e ↦ ground arith
    | inr (w, e) ↦ ground (arith, length-set d.thread.workers i (record w { catchup = self }))
  ]

  -- A broadcast goes to the worker at the index.
  dispatch_at-broadcast :
      (self i : ℕ) (d : Dispatched W) (w : Worker)
      → d.event.consumer ≡ 0
      → get_elem? d.thread.workers i ≡ some w
      → dispatch_at subscribed callback self i d
        ≡ some (note_busy self i (actor_dispatch subscribed callback i w d.thread d.event d.world))
  unfolding dispatch_at
  dispatch_at-broadcast self i d w z e = ground arith

  dispatch_from-Covers :
      (self n i : ℕ) (d : Dispatched W)
      → d.event.consumer ≡ 0
      → i + n ≡ length d.thread.workers
      → ((j : ℕ) → j < i → Covers d.thread j)
      → AllCovered (length d.thread.workers) (dispatch_from subscribed callback self n i d)
  unfolding dispatch_from
  dispatch_from-Covers self zero i d z e c = λ j lt. c j (omega arith)
  dispatch_from-Covers self (suc n) i d z e c =
      let (w, there) = get_elem?_of_lt d.thread.workers i (omega arith) in
      let a : Dispatched W = actor_dispatch subscribed callback i w d.thread d.event d.world in
      let (v, covered) = actor_dispatch-Delivers i w d.thread d.event d.world in
      let d' : Dispatched W = note_busy self i a in
      let (len, ev) = note_busy_lem self i a in
      let z' : d'.event.consumer ≡ 0 = ap (λ x. x.consumer) ev ∙ v.broadcasts z in
      let len' : length d'.thread.workers ≡ length d.thread.workers = len ∙ v.places in
      let zb : (d'.event.consumer == 0) ≡ true = ground arith in
      rw (dispatch_at-broadcast self i d w z there, dispatch_from, zb, ← len')
        (dispatch_from-Covers self n (suc i) d' z' (omega arith) (λ j lt. elim (ℕ_discrete i j) [
          | no ne ↦ note_busy-Covers self i j a (v.others j ne (c j (omega arith)))
          | yes same ↦ rw (← same) (note_busy-Covers self i i a covered)
        ]))

  -- After an event without a consumer went round the whole thread, the thread wakes up no later
  -- than any of its workers has asked for, whether the worker was notified or not. The callbacks
  -- leave the other workers' times covered, the workers in place and the event without a consumer.
  pub event_dispatch-Covers :
      (self : ℕ) (t : Thread) (e : Event) (world : W)
      → e.consumer ≡ 0
      → AllCovered (length t.workers) (event_dispatch subscribed callback self t e world)
  unfolding event_dispatch
  event_dispatch-Covers self t e world z =
      dispatch_from-Covers self (length t.workers) 0
        (record { thread = t; event = e; world = world; signal = ok }) z (omega arith)
        (λ j lt. absurd (omega arith))
