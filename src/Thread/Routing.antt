-- ===== src/Thread/Routing.antt =====
-- Events that are addressed to one actor.
use stm32app.Base.{
  none-ne_some, some-inj, true, leb, ◌==◌, if◌then◌else◌, ℕ, zero, suc, ◌+◌, ◌^◌, ◌≤◌, ◌<◌, ◌≡◌,
  refl, ◌≢◌, inl, inr, Bool, false, ◌||◌, none, some, List, [], ◌∷◌, length, get_elem?, arith, ap,
  sym, ◌∙◌, get_elem?-set_self, get_elem?-set_ne, get_elem?-lt, Bool-cases, Option-cases,
}
use stm32app.Signal.{ok, received, is_busy}
use stm32app.Event.{
  Event, EventType, is_alarm, idle, read, read_to_buffer, write, transfer, erase, mount, unmount,
  response, lock, unlock, introspection, diagnose, open_file, query, delete, close, sync, stats,
  start, enable, disable, thread_start, thread_stop, thread_alarm,
}
use stm32app.Thread.{Worker, Thread, max_sleep_time, worker_for, set_worker}
use stm32app.Thread.Dispatch.{
  Dispatched, is_start, is_waiting, notifies, before_callback, after_callback, should_notify_actor,
  run_callback, adopt_time, actor_dispatch, note_busy, dispatch_at, dispatch_from, event_dispatch,
}
use stm32app.Thread.Await.{wake_times}

-- The index that `worker_for` finds holds a worker of the actor.
pub worker_for_lem :
    (actor : ℕ) (ws : List Worker) (j : ℕ)
    → worker_for actor ws ≡ some j
    → (w : Worker) × (get_elem? ws j ≡ some w) × (w.actor ≡ actor)
unfolding worker_for
worker_for_lem actor [] j h = cc
worker_for_lem actor (w ∷ ws) zero h = (w, refl, ground arith)
worker_for_lem actor (w ∷ ws) (suc j) h = worker_for_lem actor ws j (ground arith)

length-ne_zero : (ws : List Worker) → ws ≢ [] → length ws ≢ 0
length-ne_zero [] h = absurd (h refl)
length-ne_zero (w ∷ ws) h = omega arith

module _ {W : Type 0} (subscribed : ℕ → Event → Bool)
    (callback : ℕ → Thread → Event → W → Dispatched W) (self : ℕ) (t : Thread) (e : Event)
    (world : W) where
  -- What is left of an event that goes to worker `j`.
  abbrev pub delivered : ℕ → Worker → Dispatched W
  delivered j w = note_busy self j (actor_dispatch subscribed callback j w t e world)

module _ {W : Type 0} (subscribed : ℕ → Event → Bool)
    (callback : ℕ → Thread → Event → W → Dispatched W) (self : ℕ) (t : Thread) (e : Event)
    (world : W) (some_workers : t.workers ≢ []) (addressed : e.consumer ≢ 0) where
  first_round :
      (n j : ℕ) (w : Worker)
      → n ≢ 0
      → worker_for e.consumer t.workers ≡ some j
      → get_elem? t.workers j ≡ some w
      → (delivered subscribed callback self t e world j w).event.consumer ≢ 0
      → dispatch_from subscribed callback self n 0
          (record { thread = t; event = e; world = world; signal = ok })
        ≡ some (delivered subscribed callback self t e world j w)
  unfolding dispatch_from dispatch_at
  first_round zero j w nz found there kept = absurd (nz refl)
  first_round (suc n) j w nz found there kept = ground arith

  no_round :
      (n : ℕ)
      → n ≢ 0
      → worker_for e.consumer t.workers ≡ none
      → dispatch_from subscribed callback self n 0
          (record { thread = t; event = e; world = world; signal = ok })
        ≡ none
  unfolding dispatch_from dispatch_at
  no_round zero nz missing = absurd (nz refl)
  no_round (suc n) nz missing = ground arith

  dispatched :
      (j : ℕ) (w : Worker)
      → worker_for e.consumer t.workers ≡ some j
      → get_elem? t.workers j ≡ some w
      → (delivered subscribed callback self t e world j w).event.consumer ≢ 0
      → event_dispatch subscribed callback self t e world
        ≡ some (delivered subscribed callback self t e world j w)
  unfolding event_dispatch
  dispatched j w found there kept =
      first_round (length t.workers) j w (length-ne_zero t.workers some_workers) found there kept

  -- An event for an actor that has no worker on the thread, among others that have, is a NULL
  -- pointer.
  pub addressed_unknown :
      worker_for e.consumer t.workers ≡ none
      → event_dispatch subscribed callback self t e world ≡ none
  unfolding event_dispatch
  addressed_unknown missing =
      no_round (length t.workers) (length-ne_zero t.workers some_workers) missing

nil_has_none : (ws : List Worker) (j : ℕ) (w : Worker) → ws ≡ [] → get_elem? ws j ≡ some w → ⊥
nil_has_none ws j w e there = ground (arith, ap (λ l. get_elem? l j) e)

-- The first worker of an actor is the one that `worker_for` finds.
worker_for-first :
    (actor : ℕ) (ws : List Worker) (j : ℕ) (w : Worker)
    → get_elem? ws j ≡ some w
    → w.actor ≡ actor
    → ((i : ℕ) (v : Worker) → i < j → get_elem? ws i ≡ some v → v.actor ≢ actor)
    → worker_for actor ws ≡ some j
unfolding worker_for
worker_for-first actor [] j w there own first = absurd (none-ne_some w there)
worker_for-first actor (v ∷ ws) zero w there own first =
    let same : v ≡ w = some-inj v w there in
    let here : (v.actor == actor) ≡ true = rw same (ground (arith, own)) in rw here refl
worker_for-first actor (v ∷ ws) (suc j) w there own first =
    let other : (v.actor == actor) ≡ false = ground (arith, first 0 v (omega arith) refl) in
    let rest : worker_for actor ws ≡ some j =
      worker_for-first actor ws j w there own
        (λ i u lt at. first (suc i) u (omega (arith, lt)) at) in
    rw (other, rest) refl

notifies_targeted :
    (type : EventType) (due is_subscribed : Bool)
    → is_alarm type ≡ false
    → notifies type due true is_subscribed ≡ true
notifies_targeted idle due is_subscribed ordinary = refl
notifies_targeted read due is_subscribed ordinary = refl
notifies_targeted read_to_buffer due is_subscribed ordinary = refl
notifies_targeted write due is_subscribed ordinary = refl
notifies_targeted transfer due is_subscribed ordinary = refl
notifies_targeted erase due is_subscribed ordinary = refl
notifies_targeted mount due is_subscribed ordinary = refl
notifies_targeted unmount due is_subscribed ordinary = refl
notifies_targeted response due is_subscribed ordinary = refl
notifies_targeted lock due is_subscribed ordinary = refl
notifies_targeted unlock due is_subscribed ordinary = refl
notifies_targeted introspection due is_subscribed ordinary = refl
notifies_targeted diagnose due is_subscribed ordinary = refl
notifies_targeted open_file due is_subscribed ordinary = refl
notifies_targeted query due is_subscribed ordinary = refl
notifies_targeted delete due is_subscribed ordinary = refl
notifies_targeted close due is_subscribed ordinary = refl
notifies_targeted sync due is_subscribed ordinary = refl
notifies_targeted stats due is_subscribed ordinary = refl
notifies_targeted start due is_subscribed ordinary = refl
notifies_targeted enable due is_subscribed ordinary = refl
notifies_targeted disable due is_subscribed ordinary = refl
notifies_targeted thread_start due is_subscribed ordinary = refl
notifies_targeted thread_stop due is_subscribed ordinary = refl
notifies_targeted thread_alarm due is_subscribed ordinary = absurd (ground (arith, ordinary))

-- What is left of an event that has been seen.
abbrev pub seen : Event → Event
seen e = if is_waiting e.status then record e { status = received } else e

-- The callback of the worker has run on the event, and nothing else has changed the world, the signal
-- or the event, but that it has been seen.
abbrev pub IsDelivered : {W : Type 0} → Dispatched W → Dispatched W → Type 0
IsDelivered c d = (d.world ≡ c.world) × (d.signal ≡ c.signal) × (d.event ≡ seen c.event)

module _ {W : Type 0} (subscribed : ℕ → Event → Bool)
    (callback : ℕ → Thread → Event → W → Dispatched W) (self : ℕ) (t : Thread) (e : Event)
    (world : W) (addressed : e.consumer ≢ 0)
    (ordinary : (is_alarm e.type || is_start e.type) ≡ false) where
  delivered-IsDelivered :
      (j : ℕ) (w : Worker)
      → w.actor ≡ e.consumer
      → IsDelivered (callback j t e world) (delivered subscribed callback self t e world j w)
  unfolding note_busy actor_dispatch run_callback after_callback before_callback should_notify_actor
  delivered-IsDelivered j w own =
      let own' : (e.consumer == w.actor) ≡ true = ground (arith, own) in
      let no_alarm : is_alarm e.type ≡ false = ground (arith, ordinary) in
      let heard =
        notifies_targeted e.type (leb w.next_time t.current_time) (subscribed w.actor e) no_alarm in
      elim (Bool-cases (is_busy (callback j t e world).signal)) [
        | inl busy ↦ rw (own', heard, ordinary, busy) (refl, refl, refl)
        | inr free ↦ rw (own', heard, ordinary, free) (refl, refl, refl)
      ]

  -- An event for an actor with a worker on the thread, of any number of workers, that is no alarm and
  -- no start: the callback of the actor's first worker is called with it, once, no other worker's is,
  -- and its world, its signal and its event, which counts as received from then on, are what is left.
  -- The callback leaves the event a consumer.
  pub addressed_once :
      (j : ℕ) (w : Worker)
      → get_elem? t.workers j ≡ some w
      → w.actor ≡ e.consumer
      → ((i : ℕ) (v : Worker) → i < j → get_elem? t.workers i ≡ some v → v.actor ≢ e.consumer)
      → (callback j t e world).event.consumer ≢ 0
      → (d : Dispatched W) × (event_dispatch subscribed callback self t e world ≡ some d)
        × IsDelivered (callback j t e world) d
  addressed_once j w there own first kept =
      let d = delivered subscribed callback self t e world j w in
      let done = delivered-IsDelivered j w own in
      let consumer : d.event.consumer ≢ 0 = rw (done.2) (ground (arith, kept)) in
      (
        d,
        dispatched subscribed callback self t e world (λ q. nil_has_none t.workers j w q there)
            addressed j w (worker_for-first e.consumer t.workers j w there own first) there
            consumer,
        done,
      )

adopt_quiet :
    (j : ℕ) (t : Thread) (w : Worker)
    → get_elem? t.workers j ≡ some w
    → t.next_time ≤ w.next_time
    → adopt_time j t ≡ t
unfolding adopt_time
adopt_quiet j t w there le = ground arith

-- The thread and the event after a delivery whose callback changes neither the thread's times nor its
-- workers.
module _ {W : Type 0} (subscribed : ℕ → Event → Bool)
    (callback : ℕ → Thread → Event → W → Dispatched W)
    (quiet : (i : ℕ) (t : Thread) (e : Event) (world : W) → (callback i t e world).thread ≡ t)
    (self j i : ℕ) (w : Worker) (t : Thread) (e : Event) (world : W)
    (there : get_elem? t.workers j ≡ some w)
    (ordinary : (is_alarm e.type || is_start e.type) ≡ false) where
  stamped : Thread
  stamped = set_worker j (record w { last_time = t.current_time }) t

  after-stamped : (d : Dispatched W) → d.thread ≡ t → (after_callback j d).thread ≡ stamped
  unfolding after_callback stamped
  after-stamped d same =
      rw (same, there, after_callback)
        (ap (λ x. set_worker j (record w { last_time = x.current_time }) x) same)

  run-stamped : (run_callback subscribed callback j w t e world).thread ≡ stamped
  unfolding run_callback before_callback
  run-stamped = rw ordinary (after-stamped (callback j t e world) (quiet j t e world))

  -- Only the worker's stamp changes, so another worker's time is where it was, and the thread's too if
  -- the worker asks for no earlier one.
  dispatch_quiet :
      t.next_time ≤ w.next_time
      → i ≢ j
      → ((actor_dispatch subscribed callback j w t e world).thread.next_time ≡ t.next_time)
        × (get_elem? (actor_dispatch subscribed callback j w t e world).thread.workers i
            ≡ get_elem? t.workers i)
  unfolding actor_dispatch stamped
  dispatch_quiet le ne = elim (Bool-cases (should_notify_actor subscribed t e w)) [
    | inr deaf ↦ rw (deaf, adopt_quiet j t w there le) (refl, refl)
    | inl heard ↦
        let self_there : get_elem? stamped.workers j
            ≡ some (record w { last_time = t.current_time }) =
          get_elem?-set_self t.workers j _ (get_elem?-lt t.workers j w there) in
        rw
          (
            heard,
            run-stamped,
            adopt_quiet j stamped (record w { last_time = t.current_time }) self_there le,
          )
          (refl, get_elem?-set_ne t.workers j i _ (λ q. ne (sym q)))
  ]

note_busy_quiet :
    {W : Type 0} (self j i : ℕ) (d : Dispatched W)
    → i ≢ j
    → ((note_busy self j d).thread.next_time ≡ d.thread.next_time)
      × (get_elem? (note_busy self j d).thread.workers i ≡ get_elem? d.thread.workers i)
      × ((note_busy self j d).event ≡ d.event)
unfolding note_busy
note_busy_quiet self j i d ne = elim (Option-cases (get_elem? d.thread.workers j)) [
  | inl e ↦ ground arith
  | inr (w, e) ↦
      ground (
        arith,
        get_elem?-set_ne d.thread.workers j i (record w { catchup = self }) (λ q. ne (sym q)),
      )
]

dispatch_consumer :
    {W : Type 0} (subscribed : ℕ → Event → Bool) (callback : ℕ → Thread → Event → W → Dispatched W)
    → ((i : ℕ) (t : Thread) (e : Event) (world : W)
        → (callback i t e world).event.consumer ≡ e.consumer)
    → (j : ℕ) (w : Worker) (t : Thread) (e : Event) (world : W)
    → (actor_dispatch subscribed callback j w t e world).event.consumer ≡ e.consumer
unfolding actor_dispatch run_callback after_callback
dispatch_consumer subscribed callback same j w t e world =
    ground (arith, same j (before_callback j w t e) e world)

wake_times_due :
    (now : ℕ) (t : Thread)
    → t.next_time ≤ now
    → now + max_sleep_time < 2 ^ 32
    → ((wake_times now t).next_time ≡ now + max_sleep_time)
      × ((wake_times now t).workers ≡ t.workers)
unfolding wake_times
wake_times_due now t due fits = ground arith

-- A thread that is woken for an event at a time when an alarm is due puts its wake-up time off by a
-- minute. If the event is addressed to another actor, whose worker asks for nothing sooner and
-- whose callback leaves the thread and the consumer alone, the alarm of worker `i` stays behind
-- that time.
pub alarm_put_off :
    {W : Type 0} (subscribed : ℕ → Event → Bool) (callback : ℕ → Thread → Event → W → Dispatched W)
    (quiet : (i : ℕ) (t : Thread) (e : Event) (world : W) → (callback i t e world).thread ≡ t)
    (same_event : (i : ℕ) (t : Thread) (e : Event) (world : W)
      → (callback i t e world).event.consumer ≡ e.consumer)
    (self i j now : ℕ) (w late : Worker) (t : Thread) (e : Event) (world : W)
    → (is_alarm e.type || is_start e.type) ≡ false
    → e.consumer ≢ 0
    → worker_for e.consumer t.workers ≡ some j
    → get_elem? t.workers j ≡ some w
    → get_elem? t.workers i ≡ some late
    → i ≢ j
    → t.next_time ≤ now
    → late.next_time ≤ now
    → now + max_sleep_time ≤ w.next_time
    → now + max_sleep_time < 2 ^ 32
    → (d : Dispatched W) × (event_dispatch subscribed callback self (wake_times now t) e world
        ≡ some d)
      × (d.thread.next_time ≡ now + max_sleep_time)
      × (get_elem? d.thread.workers i ≡ some late)
      × (late.next_time < d.thread.next_time)
alarm_put_off {W} subscribed callback quiet same_event self i j now w late t e world ordinary
      addressed found there late_there ne due late_due far fits =
    let t' : Thread = wake_times now t in
    let (time, workers) = wake_times_due now t due fits in
    let there' : get_elem? t'.workers j ≡ some w = ap (λ ws. get_elem? ws j) workers ∙ there in
    let found' : worker_for e.consumer t'.workers ≡ some j =
      ap (worker_for e.consumer) workers ∙ found in
    let a : Dispatched W = actor_dispatch subscribed callback j w t' e world in
    let (same_time, same_workers) =
      dispatch_quiet subscribed callback quiet self j i w t' e world there' ordinary (omega arith)
        ne in
    let (busy_time, busy_worker, busy_event) = note_busy_quiet self j i a ne in
    let kept : (note_busy self j a).event.consumer ≢ 0 =
      rw (busy_event, dispatch_consumer subscribed callback same_event j w t' e world) addressed in
    let t_ne : t'.workers ≢ [] = λ q. nil_has_none t'.workers j w q there' in
    (
      note_busy self j a,
      dispatched subscribed callback self t' e world t_ne addressed j w found' there' kept,
      busy_time ∙ same_time ∙ time,
      busy_worker ∙ same_workers ∙ ap (λ ws. get_elem? ws i) workers ∙ late_there,
      omega arith,
    )
