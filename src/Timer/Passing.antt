-- ===== src/Timer/Passing.antt =====
-- The slots of a timer after `timer_advance`: the ticks and the phase leave them to `timer_notify`.
use stm32app.Base.{
  ℕ, ◌≡◌, ◌⊎◌, inl, inr, refl, ◌∙◌, Option, none, some, List, leb, arith, Bool-cases,
}
use stm32app.Actor.{idle, Body, set_plain_phase, notify_phase}
use stm32app.Timer.{
  Subscription, Timer, Outside, get_next_subscription, stop_counting, start_counting, on_phase,
  timer_class, set_tick, lower_next_time, timer_schedule, pass_time, ensure_running, settle,
  run_alarms, advance_timer, interrupt,
}
use stm32app.Timer.Quiet.{IsQuiet, notify_slots, notified, notify_quiet}
use stm32app.Timer.Slots.{IsUnique}
use stm32app.Timer.Alarms.{deadline-notify_slots, IsUnique-notify_slots}
use stm32app.Timer.Book.{IsPassage, deadlines}

slots_from :
    {s0 s1 s2 : List Subscription} {n n' : ℕ}
    → s1 ≡ s0
    → n' ≡ n
    → (s2 ≡ s1) ⊎ (s2 ≡ notify_slots n s1)
    → (s2 ≡ s0) ⊎ (s2 ≡ notify_slots n' s0)
slots_from same now (inl e) = inl (e ∙ same)
slots_from same now (inr e) = inr (rw (← same, now) e)

module _ {R : Type 0} (h : Outside R) where
  pub run_slots :
      (b : Body (Timer R))
      → ((ensure_running h b).world.subscriptions ≡ b.world.subscriptions)
        × ((ensure_running h b).world.current_time ≡ b.world.current_time)
  unfolding set_plain_phase notify_phase on_phase start_counting
  run_slots b = ground arith

  idle_slots :
      (b : Body (Timer R))
      → ((set_plain_phase (timer_class h) idle b).world.subscriptions ≡ b.world.subscriptions)
        × ((set_plain_phase (timer_class h) idle b).world.current_time ≡ b.world.current_time)
  unfolding set_plain_phase notify_phase on_phase stop_counting
  idle_slots b = ground arith

  pub schedule_slots :
      (t : Timer R) (time : ℕ)
      → ((timer_schedule h t time).subscriptions ≡ t.subscriptions)
        × ((timer_schedule h t time).current_time ≡ t.current_time)
  unfolding timer_schedule set_tick lower_next_time
  schedule_slots t time = ground arith

  settle_slots :
      (b : Body (Timer R)) (next : Option Subscription)
      → ((settle h b next).world.subscriptions ≡ b.world.subscriptions)
        × ((settle h b next).world.current_time ≡ b.world.current_time)
  unfolding settle
  settle_slots b none = idle_slots b
  settle_slots b (some s) = schedule_slots (record b.world { next_time = s.time }) s.time

  run_alarms_slots :
      (b : Body (Timer R))
      → IsQuiet h b.world.subscriptions
      → ((run_alarms h b).world.current_time ≡ b.world.current_time)
        × (((run_alarms h b).world.subscriptions ≡ b.world.subscriptions)
            ⊎ ((run_alarms h b).world.subscriptions
                ≡ notify_slots b.world.current_time b.world.subscriptions))
  unfolding run_alarms
  run_alarms_slots b quiet = elim (Bool-cases (leb b.world.next_time b.world.current_time)) [
    | inl due ↦
        let (kept, time) =
          settle_slots (record b { world = notified b.world })
            (get_next_subscription (notified b.world)) in
        rw (due, notify_quiet h b quiet) (time, inr kept)
    | inr later ↦
        let (kept, time) = schedule_slots b.world b.world.next_time in rw later (time, inl kept)
  ]

  -- The time passes, and the slots are as before or without those that are due.
  advance_timer_slots :
      (b : Body (Timer R)) (time : ℕ)
      → IsQuiet h b.world.subscriptions
      → let after = (advance_timer h b time).world in
        (after.subscriptions ≡ b.world.subscriptions)
        ⊎ (after.subscriptions ≡ notify_slots after.current_time b.world.subscriptions)
  unfolding advance_timer
  advance_timer_slots b time quiet =
      let (same, _) = run_slots b in
      let (now, slots) =
        run_alarms_slots
          (record (ensure_running h b) { world = pass_time h time (ensure_running h b).world })
          (rw same quiet) in
      slots_from same now slots

  passes_of_slots :
      (b b' : Body (Timer R))
      → IsUnique b.world.subscriptions
      → ((b'.world.subscriptions ≡ b.world.subscriptions)
          ⊎ (b'.world.subscriptions ≡ notify_slots b'.world.current_time b.world.subscriptions))
      → IsUnique b'.world.subscriptions
        × IsPassage b'.world.current_time (deadlines b.world) (deadlines b'.world)
  passes_of_slots b b' uniq (inl e) = rw e (uniq, inl (λ a g u. refl))
  passes_of_slots b b' uniq (inr e) = rw e (
    IsUnique-notify_slots b'.world.current_time b.world.subscriptions uniq,
    inr (λ a g u. (deadline-notify_slots b'.world.current_time b.world.subscriptions a g u uniq).0),
  )

  pub advance_timer-Passes :
      (b : Body (Timer R)) (time : ℕ)
      → IsQuiet h b.world.subscriptions
      → IsUnique b.world.subscriptions
      → let after = (advance_timer h b time).world in
        IsUnique after.subscriptions
        × IsPassage after.current_time (deadlines b.world) (deadlines after)
  advance_timer-Passes b time quiet uniq =
      passes_of_slots b (advance_timer h b time) uniq (advance_timer_slots b time quiet)

  pub interrupt-Passes :
      (b : Body (Timer R))
      → IsQuiet h b.world.subscriptions
      → IsUnique b.world.subscriptions
      → let after = (interrupt h b).world in
        IsUnique after.subscriptions
        × IsPassage after.current_time (deadlines b.world) (deadlines after)
  unfolding interrupt
  interrupt-Passes b quiet uniq = elim (Bool-cases (h.has_update_flag b.world.registers)) [
    | inl fired ↦ rw fired (advance_timer-Passes _ b.world.next_tick quiet uniq)
    | inr still ↦ rw still (uniq, inl (λ a g u. refl))
  ]
