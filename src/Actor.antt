-- ===== src/Actor.antt =====
-- actor_node/src/actor/actor.c: the phases of an actor, and how it is told to catch up with deferred
-- events. A phase is a property of the actor, which `actor_set_property` of accessors.c writes.
pub mod Settling
pub mod Catchup
mod Tests
use stm32app.Base.{ℕ, Bool, true, false, not, Option, none, some, get_elem?, ◌==◌, if◌then◌else◌}
use stm32app.Thread.{Thread, Rtos, Kernel, worker_for, set_worker, notify_generic}

-- `enum actor_phase`.
pub data Phase : Type 0 where
  enabled constructing linking starting calibrating preparing running requesting responding working
        idle busy resetting pausing paused resuming stopping stopped disabled destructing :
      Phase

abbrev pub code : Phase → ℕ
code enabled = 0
code constructing = 1
code linking = 2
code starting = 3
code calibrating = 4
code preparing = 5
code running = 6
code requesting = 7
code responding = 8
code working = 9
code idle = 10
code busy = 11
code resetting = 12
code pausing = 13
code paused = 14
code resuming = 15
code stopping = 16
code stopped = 17
code disabled = 18
code destructing = 19

abbrev pub same_phase : Phase → Phase → Bool
same_phase p q = code p == code q

-- An actor's phase and whatever else its methods change.
pub record Body (W : Type 0) : Type 0 where
  pub phase : Phase
  pub world : W

-- The methods of a class, absent where the pointer is NULL. `construct` says whether it has failed.
pub record Methods (W : Type 0) : Type 0 where
  pub construct : Option (Body W → Bool × Body W)
  pub link : Option (Body W → Body W)
  pub destruct : Option (Body W → Body W)
  pub start : Option (Body W → Body W)
  pub stop : Option (Body W → Body W)
  pub pause : Option (Body W → Body W)
  pub resume : Option (Body W → Body W)
  pub on_phase : Option (Phase → Body W → Body W)

module _ {W : Type 0} (c : Methods W) where
  -- The last lines of `actor_on_phase_change`, which are all that it does for most phases.
  unfoldable pub notify_phase : Phase → Body W → Body W
  notify_phase p b = elim (c.on_phase) [ none ↦ b | some f ↦ f p b ]

  -- `actor_set_phase` to a phase without a case of its own.
  unfoldable pub set_plain_phase : Phase → Body W → Body W
  set_plain_phase p b = if same_phase b.phase p then b else notify_phase p (record b { phase = p })

  -- A method that leads from one phase to the next, unless it has set a phase of its own. A method
  -- that is called without a test is a fault where it is absent.
  unfoldable pub pass_through : Option (Body W → Body W) → Phase → Phase → Body W → Option (Body W)
  pass_through none from to b = none
  pass_through (some f) from to b =
      let b' = f b in
      if same_phase b'.phase from then some (set_plain_phase to b') else some (notify_phase from b')

  -- `actor_set_phase(actor, ACTOR_STOPPING)` and to ACTOR_STARTING.
  unfoldable pub set_stopping : Body W → Option (Body W)
  set_stopping b =
      if same_phase b.phase stopping
      then some b
      else pass_through (c.stop) stopping stopped (record b { phase = stopping })

  unfoldable pub set_starting : Body W → Option (Body W)
  set_starting b =
      if same_phase b.phase starting
      then some b
      else pass_through (c.start) starting running (record b { phase = starting })

  abbrev pub run_optional : Option (Body W → Body W) → Body W → Body W
  run_optional none b = b
  run_optional (some f) b = f b

  unfoldable pub on_constructing : Body W → Body W
  on_constructing b = elim (c.construct) [
    | none ↦ notify_phase constructing b
    | some f ↦
        let (failed, b') = f b in
        if failed then set_plain_phase disabled b' else notify_phase constructing b'
  ]

  -- Without a method to pause, the actor is stopped and then told of the pause.
  unfoldable pub on_pausing : Body W → Option (Body W)
  on_pausing b = elim (c.pause) [
    | none ↦ elim (set_stopping b) [ none ↦ none | some b' ↦ some (notify_phase pausing b') ]
    | some f ↦ pass_through (some f) pausing paused b
  ]

  unfoldable pub on_resuming : Body W → Option (Body W)
  on_resuming b = elim (c.resume) [
    | none ↦ set_starting b
    | some f ↦ pass_through (some f) resuming running b
  ]

  unfoldable pub on_phase_change : Phase → Body W → Option (Body W)
  on_phase_change constructing b = some (on_constructing b)
  on_phase_change destructing b = some (notify_phase destructing (run_optional (c.destruct) b))
  on_phase_change linking b = some (notify_phase linking (run_optional (c.link) b))
  on_phase_change starting b = pass_through (c.start) starting running b
  on_phase_change stopping b = pass_through (c.stop) stopping stopped b
  on_phase_change pausing b = on_pausing b
  on_phase_change resuming b = on_resuming b
  on_phase_change p b = some (notify_phase p b)

  -- `actor_set_phase`: nothing happens where the value is the property's already.
  unfoldable pub set_phase : Phase → Body W → Option (Body W)
  set_phase p b =
      if same_phase b.phase p then some b else on_phase_change p (record b { phase = p })

-- ACTOR_SIGNAL_CATCHUP.
abbrev pub catchup_value : ℕ
catchup_value = 7

abbrev pub worker_or_own : Option ℕ → ℕ → Thread → Option ℕ
worker_or_own none actor t = worker_for actor t.workers
worker_or_own (some i) actor t = some i

-- `actor_worker_catchup` on worker `i` of the thread, or on the actor's worker of the input thread
-- where none is given. `catchup_thread` is the thread that a thread's deferred events go to.
unfoldable pub worker_catchup : Kernel → (ℕ → Thread) → ℕ → Option ℕ → Thread → Rtos → Thread × Rtos
worker_catchup k catchup_thread actor worker t r = elim (worker_or_own worker actor t) [
  | none ↦ (t, r)
  | some i ↦ elim (get_elem? t.workers i) [
    | none ↦ (t, r)
    | some w ↦
        if w.catchup == 0
        then (t, r)
        else (let (_, r') = notify_generic k (catchup_thread w.catchup) catchup_value false r in
            (set_worker i (record w { catchup = 0 }) t, r'))
  ]
]
