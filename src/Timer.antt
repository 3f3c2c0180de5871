-- ===== src/Timer.antt =====
-- actor_cm3/src/actor/module/timer.c: alarms that actors set on a hardware timer. The counter is
-- libopencm3's, so its registers and what writes them are a parameter, `Outside`.
pub mod Slots
pub mod Writes
pub mod Book
pub mod Passing
pub mod Next
pub mod Quiet
pub mod Alarms
pub mod Ticks
pub mod Misses
pub mod Requests
mod Tests
use stm32app.Base.{
  ℕ, zero, suc, ◌+◌, ◌-◌, ◌%◌, ◌^◌, Bool, true, false, ◌&&◌, ◌||◌, not, Option, none, some, List,
  [], ◌∷◌, ◌++◌, length, get_elem?, set, ltb, leb, ◌==◌, if◌then◌else◌,
}
use stm32app.Actor.{Phase, running, idle, same_phase, Body, Methods, set_plain_phase}
use stm32app.Buffer.{u32}

-- Actor 0 stands for NULL, which marks a free slot.
pub record Subscription : Type 0 where
  pub actor : ℕ
  pub argument : ℕ
  pub time : ℕ

abbrev pub free_slot : Subscription
free_slot = record { actor = 0; argument = 0; time = 0 }

-- A call of `actor_signal` with ACTOR_SIGNAL_TIMEOUT.
pub record Alarm : Type 0 where
  pub actor : ℕ
  pub argument : ℕ

-- `struct module_timer` and its properties, with the calls of `actor_signal`, the latest last.
pub record Timer (R : Type 0) : Type 0 where
  pub subscriptions : List Subscription
  pub current_time : ℕ
  pub next_time : ℕ
  pub next_tick : ℕ
  pub period : ℕ
  pub registers : R
  pub sent : List Alarm

-- What libopencm3 does to the timer's registers, and `actor_signal` with ACTOR_SIGNAL_TIMEOUT: the
-- on_signal of the actor with the argument, which may come back to the timer.
pub record Outside (R : Type 0) : Type 0 where
  pub get_counter : R → ℕ
  pub set_counter : ℕ → R → R
  pub enable_counter : R → R
  pub disable_counter : R → R
  pub has_update_flag : R → Bool
  pub clear_update_flag : R → R
  pub signal : ℕ → ℕ → Body (Timer R) → Body (Timer R)

-- (uint32_t) -1
abbrev pub no_time : ℕ
no_time = 2 ^ 32 - 1

-- The difference of two `uint32_t`, and where it stands in the order of `int` counted from INT_MIN.
abbrev pub word_sub : ℕ → ℕ → ℕ
word_sub a b = u32 (a + (2 ^ 32 - b))

abbrev pub signed_rank : ℕ → ℕ
signed_rank d = u32 (d + 2 ^ 31)

-- `timer_get_next_subscription`: `difference` is the rank of the closest so far.
unfoldable pub closest_from : ℕ → ℕ → Option Subscription → List Subscription → Option Subscription
closest_from next_time difference result [] = result
closest_from next_time difference result (s ∷ ss) =
    let d = signed_rank (word_sub s.time next_time) in
    let skipped = closest_from next_time difference result ss in
    let taken = closest_from next_time d (some s) ss in
    if s.actor == 0 then skipped else if ltb d difference then taken else skipped

-- 0x7FFFFFFF has the highest rank.
unfoldable pub get_next_subscription : {R : Type 0} → Timer R → Option Subscription
get_next_subscription t = closest_from t.next_time (2 ^ 32 - 1) none t.subscriptions

-- Whether a time has come: its `int` distance from now is not positive.
abbrev pub is_due : ℕ → ℕ → Bool
is_due now time = leb (signed_rank (word_sub time now)) (2 ^ 31)

-- `timer_get_subscription` from slot `i` on, with the first free slot seen so far, NULL where there
-- is none.
abbrev pub first_free : ℕ → Option ℕ → Option ℕ
first_free i none = some i
first_free i (some f) = some f

unfoldable pub find_slot : ℕ → ℕ → ℕ → Option ℕ → List Subscription → Option ℕ
find_slot actor argument i free [] = free
find_slot actor argument i free (s ∷ ss) =
    let free' = if s.actor == 0 then first_free i free else free in
    if (s.actor == actor) && (s.argument == argument)
    then some i
    else find_slot actor argument (suc i) free' ss

unfoldable pub get_subscription : {R : Type 0} → Timer R → ℕ → ℕ → Option ℕ
get_subscription t actor argument = find_slot actor argument 0 none t.subscriptions

module _ {R : Type 0} (h : Outside R) where
  unfoldable pub stop_counting : Timer R → Timer R
  stop_counting t = record t {
    next_time = no_time;
    next_tick = t.period;
    registers = h.disable_counter t.registers;
  }

  unfoldable pub start_counting : Timer R → Timer R
  start_counting t = record t { registers = h.enable_counter t.registers }

  -- `timer_on_phase`.
  unfoldable pub on_phase : Phase → Body (Timer R) → Body (Timer R)
  on_phase running b = record b { world = start_counting b.world }
  on_phase idle b = record b { world = stop_counting b.world }
  on_phase p b = b

  -- The methods of `module_timer_class` that a change to ACTOR_RUNNING or ACTOR_IDLE reaches.
  abbrev pub timer_class : Methods (Timer R)
  timer_class = record {
    construct = none;
    link = none;
    destruct = none;
    start = none;
    stop = none;
    pause = none;
    resume = none;
    on_phase = some on_phase;
  }

  unfoldable pub lower_next_time : ℕ → Timer R → Timer R
  lower_next_time time t = if ltb time t.next_time then record t { next_time = time } else t

  -- The tick of `timer_schedule`, a full period where the deadline is further away.
  unfoldable pub set_tick : Timer R → Timer R
  set_tick t =
      let diff = word_sub t.next_time t.current_time in
      if ltb diff t.period
      then record t {
        next_tick = diff;
        registers = h.set_counter (word_sub t.period diff) t.registers;
      }
      else record t { next_tick = t.period }

  unfoldable pub timer_schedule : Timer R → ℕ → Timer R
  timer_schedule t next_time = set_tick (lower_next_time next_time t)

  -- The first lines of `timer_advance`.
  abbrev pub pass_time : ℕ → Timer R → Timer R
  pass_time time t = record t {
    current_time = u32 (t.current_time + time);
    registers = h.set_counter 0 t.registers;
  }

  abbrev pub ensure_running : Body (Timer R) → Body (Timer R)
  ensure_running b = if same_phase b.phase running then b else set_plain_phase timer_class running b

  -- What `timer_advance` does with the slot that is next after the alarms have gone.
  unfoldable pub settle : Body (Timer R) → Option Subscription → Body (Timer R)
  settle b none = set_plain_phase timer_class idle b
  settle b (some s) = record b {
    world = timer_schedule (record b.world { next_time = s.time }) s.time;
  }

  abbrev pub write_slot : ℕ → Subscription → Timer R → Timer R
  write_slot i s t = record t { subscriptions = set t.subscriptions i s }

  -- One round of `timer_notify`: the slot is free by the time that the actor is told.
  unfoldable pub notify_slot : ℕ → Subscription → Body (Timer R) → Body (Timer R)
  notify_slot i s b =
      let t = write_slot i free_slot b.world in
      let alarm : Alarm = record { actor = s.actor; argument = s.argument } in
      let told =
        h.signal s.actor s.argument
          (record b { world = record t { sent = t.sent ++ (alarm ∷ []) } }) in
      if s.actor == 0 then b else if is_due b.world.current_time s.time then told else b

  unfoldable pub notify_at : ℕ → Body (Timer R) → Body (Timer R)
  notify_at i b = elim (get_elem? b.world.subscriptions i) [ none ↦ b | some s ↦ notify_slot i s b ]

  -- The slots from `i` on, `n` of them. Each is read when its turn comes.
  unfoldable pub notify_from : ℕ → ℕ → Body (Timer R) → Body (Timer R)
  notify_from zero i b = b
  notify_from (suc n) i b = notify_from n (suc i) (notify_at i b)

  unfoldable pub notify : Body (Timer R) → Body (Timer R)
  notify b = notify_from (length b.world.subscriptions) 0 b

  unfoldable pub run_alarms : Body (Timer R) → Body (Timer R)
  run_alarms b =
      let t = b.world in
      if leb t.next_time t.current_time
      then settle (notify b) (get_next_subscription (notify b).world)
      else record b { world = timer_schedule t t.next_time }

  unfoldable pub advance_timer : Body (Timer R) → ℕ → Body (Timer R)
  advance_timer b time =
      let b' = ensure_running b in run_alarms (record b' { world = pass_time time b'.world })

  unfoldable pub interrupt : Body (Timer R) → Body (Timer R)
  interrupt b =
      let t = b.world in
      if h.has_update_flag t.registers
      then advance_timer
          (record b { world = record t { registers = h.clear_update_flag t.registers } })
          t.next_tick
      else b

  -- The time that the counter shows to have passed since the last tick.
  abbrev pub elapsed : Timer R → ℕ
  elapsed t = word_sub (h.get_counter t.registers) (word_sub t.period t.next_tick)

  abbrev pub was_next : Timer R → Subscription → Bool
  was_next t s = (t.next_time == no_time) || (t.next_time == s.time)

  abbrev pub was_closer : Subscription → ℕ → Bool
  was_closer s time = not (s.time == 0) && leb s.time time

  -- The slot is NULL: a fault.
  unfoldable pub schedule_next : Timer R → Option Subscription → Option (Timer R)
  schedule_next t none = none
  schedule_next t (some s) = some (timer_schedule t s.time)

  -- Where the slot was next, and moves further away, another one may be.
  unfoldable pub reschedule : Timer R → Subscription → Subscription → Option (Timer R)
  reschedule t old new =
      if was_next t old
      then schedule_next t (if was_closer old new.time then get_next_subscription t else some new)
      else some t

  -- The status of a success, where NULL was not reached.
  abbrev pub succeed : Option (Timer R) → Option (Bool × Timer R)
  succeed none = none
  succeed (some t) = some (true, t)

  -- `module_timer_timeout` once it has a slot.
  unfoldable pub fill_slot : Timer R → ℕ → Option Subscription → ℕ → ℕ → ℕ → Option (Bool × Timer R)
  fill_slot t i none actor argument time = none
  fill_slot t i (some old) actor argument time =
      let new : Subscription = record { actor = actor; argument = argument; time = time } in
      succeed (reschedule (write_slot i new t) old new)

  -- `module_timer_timeout` once the time has been brought up to date. Without a slot the status is
  -- ACTOR_SIGNAL_OUT_OF_MEMORY, here `false`.
  unfoldable pub subscribe : Timer R → ℕ → ℕ → ℕ → Option (Bool × Timer R)
  subscribe t actor argument delay = elim (get_subscription t actor argument) [
    | none ↦ some (false, t)
    | some i ↦
        fill_slot t i (get_elem? t.subscriptions i) actor argument (u32 (t.current_time + delay))
  ]

  abbrev pub in_body : Body (Timer R) → Option (Bool × Timer R) → Option (Bool × Body (Timer R))
  in_body b none = none
  in_body b (some (done, t)) = some (done, record b { world = t })

  unfoldable pub timeout : Body (Timer R) → ℕ → ℕ → ℕ → Option (Bool × Body (Timer R))
  timeout b actor argument delay =
      let b' = advance_timer b (elapsed b.world) in
      in_body b' (subscribe b'.world actor argument delay)

  -- `module_timer_clear`.
  unfoldable pub clear_slot : Timer R → ℕ → Subscription → Timer R
  clear_slot t i old =
      let t' = write_slot i free_slot t in
      if t.next_time == old.time
      then elim (get_next_subscription t') [ none ↦ t' | some s ↦ timer_schedule t' s.time ]
      else t'

  unfoldable pub clear : Timer R → ℕ → ℕ → Timer R
  clear t actor argument = elim (get_subscription t actor argument) [
    | none ↦ t
    | some i ↦ elim (get_elem? t.subscriptions i) [ none ↦ t | some old ↦ clear_slot t i old ]
  ]

  -- `timer_stop`.
  unfoldable pub stop_timer : Body (Timer R) → Body (Timer R)
  stop_timer b =
      if same_phase b.phase running then record b { world = stop_counting b.world } else b
