-- ===== src/Timer/Ticks.antt =====
-- When the timer ticks next: the deadline that the counter is set for, and the phase of the timer.
use stm32app.Base.{
  ℕ, ◌-◌, ◌^◌, ◌<◌, ◌≡◌, ◌⊎◌, inl, inr, refl, sym, true, false, Option, none, some, leb, arith,
  Bool-cases, min,
}
use stm32app.Actor.{running, idle, Body, same_phase, set_plain_phase, notify_phase}
use stm32app.Timer.{
  Subscription, Timer, Outside, no_time, word_sub, get_next_subscription, stop_counting,
  start_counting, on_phase, timer_class, set_tick, lower_next_time, timer_schedule, pass_time,
  ensure_running, settle, run_alarms, advance_timer,
}
use stm32app.Timer.Quiet.{IsQuiet, notified, notify_quiet}
use stm32app.Timer.Passing.{run_slots}
use stm32app.Timer.Next.{IsBound, IsNearest, get_next_subscription-IsNearest}

-- The next tick is at the deadline, or a period from now if that is sooner.
abbrev pub IsTimed : {R : Type 0} → Timer R → Type 0
IsTimed t = t.next_tick ≡ min t.period (word_sub t.next_time t.current_time)

-- After the passage of time the timer runs, and ticks at the deadline, if that was in the future or
-- is the nearest of the slots still in use; or it is idle, since no slot is in use (but at the
-- distance of INT_MAX).
abbrev pub IsSettled : {R : Type 0} → ℕ → Body (Timer R) → Type 0
IsSettled from b =
    ((same_phase b.phase running ≡ true)
      × IsTimed b.world
      × (((b.world.next_time ≡ from) × (b.world.current_time < from))
          ⊎ ((s : Subscription) × (b.world.next_time ≡ s.time)
              × IsNearest from (2 ^ 32 - 1) b.world.subscriptions (some s))))
    ⊎ ((same_phase b.phase idle ≡ true)
        × (b.world.next_time ≡ no_time)
        × (b.world.next_tick ≡ b.world.period)
        × IsBound from (2 ^ 32 - 1) b.world.subscriptions)

IsSettled-from : {R : Type 0} (m n : ℕ) (b : Body (Timer R)) → m ≡ n → IsSettled n b → IsSettled m b
IsSettled-from m n b e settled = rw e settled

module _ {R : Type 0} (h : Outside R) where
  set_tick-IsTimed : (t : Timer R) → IsTimed (set_tick h t)
  unfolding set_tick
  set_tick-IsTimed t = ground arith

  schedule-IsTimed : (t : Timer R) (time : ℕ) → IsTimed (timer_schedule h t time)
  unfolding timer_schedule
  schedule-IsTimed t time = set_tick-IsTimed (lower_next_time h time t)

  -- What `timer_schedule` leaves of a timer whose deadline is the given one already.
  schedule_kept :
      (t : Timer R)
      → ((timer_schedule h t t.next_time).next_time ≡ t.next_time)
        × ((timer_schedule h t t.next_time).current_time ≡ t.current_time)
        × ((timer_schedule h t t.next_time).subscriptions ≡ t.subscriptions)
  unfolding timer_schedule set_tick lower_next_time
  schedule_kept t = ground arith

  pub running_lem :
      (b : Body (Timer R))
      → (same_phase (ensure_running h b).phase running ≡ true)
        × ((ensure_running h b).world.next_time ≡ b.world.next_time)
  unfolding set_plain_phase notify_phase on_phase start_counting
  running_lem b = elim (Bool-cases (same_phase b.phase running)) [
    | inl same ↦ rw same (same, refl)
    | inr other ↦ rw other (refl, refl)
  ]

  idle_stops :
      (b : Body (Timer R))
      → same_phase b.phase running ≡ true
      → let stopped = set_plain_phase (timer_class h) idle b in
        (same_phase stopped.phase idle ≡ true)
        × (stopped.world.next_time ≡ no_time)
        × (stopped.world.next_tick ≡ stopped.world.period)
        × (stopped.world.subscriptions ≡ b.world.subscriptions)
  unfolding set_plain_phase notify_phase on_phase stop_counting
  idle_stops b runs =
      let other : same_phase b.phase idle ≡ false = ground (arith, runs) in
      rw other (refl, refl, refl, refl)

  settle-IsSettled :
      (b : Body (Timer R)) (from : ℕ)
      → same_phase b.phase running ≡ true
      → (next : Option Subscription) → IsNearest from (2 ^ 32 - 1) b.world.subscriptions next
      → IsSettled from (settle h b next)
  unfolding settle
  settle-IsSettled b from runs none near =
      let (stopped, time, tick, slots) = idle_stops b runs in
      inr (stopped, time, tick, rw slots near)
  settle-IsSettled b from runs (some s) near =
      let (kept, _, slots) = schedule_kept (record b.world { next_time = s.time }) in
      inl (runs, schedule-IsTimed _ s.time, inr (s, kept, rw slots near))

  run_alarms-IsSettled :
      (b : Body (Timer R))
      → IsQuiet h b.world.subscriptions
      → same_phase b.phase running ≡ true
      → IsSettled b.world.next_time (run_alarms h b)
  unfolding run_alarms
  run_alarms-IsSettled b quiet runs =
      elim (Bool-cases (leb b.world.next_time b.world.current_time)) [
        | inl due ↦
            rw (due, notify_quiet h b quiet)
              (settle-IsSettled (record b { world = notified b.world }) b.world.next_time runs
                (get_next_subscription (notified b.world))
                (get_next_subscription-IsNearest (notified b.world)))
        | inr later ↦
            let (kept, now, _) = schedule_kept b.world in
            rw later
              (inl (runs, schedule-IsTimed b.world _, inl (kept, rw now (ground (arith, later)))))
      ]

  -- Where no actor with an alarm comes back to the timer while it is told of one: after
  -- `timer_advance` the timer is running and its next tick is at the deadline or a period from now,
  -- whichever is sooner, where the deadline is the one that it had, still to come, or that of the
  -- nearest slot left in use; or it is idle, without a deadline, and no slot is in use but at the
  -- distance of INT_MAX.
  pub advance_timer-IsSettled :
      (b : Body (Timer R)) (time : ℕ)
      → IsQuiet h b.world.subscriptions
      → IsSettled b.world.next_time (advance_timer h b time)
  unfolding advance_timer
  advance_timer-IsSettled b time quiet =
      let (runs, next) = running_lem b in
      let ready : Body (Timer R) = record (ensure_running h b) {
        world = pass_time h time (ensure_running h b).world;
      } in
      IsSettled-from b.world.next_time ready.world.next_time (advance_timer h b time) (sym next)
        (run_alarms-IsSettled ready (rw (run_slots h b).0 quiet) runs)
