-- ===== src/Timer/Misses.antt =====
-- Alarms that the timer does not go off for in time.
use stm32app.Base.{
  ℕ, ◌+◌, ◌-◌, ◌%◌, ◌^◌, ◌≤◌, ◌<◌, ◌≡◌, ◌≢◌, ◌⊎◌, refl, inl, inr, ap, sym, ◌∙◌, Bool, true, false,
  Option, none, some, get_elem?, leb, ltb, arith, Bool-cases, Option-cases, some-inj, none-ne_some,
}
use stm32app.Actor.{running, idle, Body, same_phase, set_plain_phase, notify_phase}
use stm32app.Timer.{
  Subscription, Timer, Outside, no_time, word_sub, find_slot, get_subscription,
  get_next_subscription, timer_schedule, set_tick, lower_next_time, timer_class, on_phase,
  stop_counting, start_counting, pass_time, ensure_running, settle, run_alarms, advance_timer,
  elapsed, write_slot, was_next, schedule_next, reschedule, succeed, fill_slot, subscribe, in_body,
  timeout,
}
use stm32app.Timer.Slots.{deadline, IsUnique, IsFull, find_slot-IsSlotFor, find_slot-IsFull}
use stm32app.Timer.Writes.{deadline-set_self}
use stm32app.Timer.Quiet.{IsQuiet, notified, notify_quiet}
use stm32app.Timer.Ticks.{running_lem}
use stm32app.Timer.Passing.{run_slots, advance_timer-Passes}
use stm32app.Timer.Requests.{subscribe-Sets}

leb_of_le : (m n : ℕ) → m ≤ n → leb m n ≡ true
leb_of_le m n h = ground arith

-- The deadline that is pending is that of another pair.
abbrev pub IsForOthers : {R : Type 0} → Timer R → ℕ → ℕ → Type 0
IsForOthers t a g =
    (k : ℕ) (s : Subscription)
    → get_elem? t.subscriptions k ≡ some s
    → ((s.actor ≡ a) × (s.argument ≡ g)) ⊎ ((s.actor ≡ 0) × (deadline t.subscriptions a g ≡ none))
    → s.time ≢ t.next_time

module _ {R : Type 0} (h : Outside R) where
  fill_slot_missed :
      (t : Timer R) (k : ℕ) (old : Subscription) (a g time : ℕ)
      → t.next_time ≢ no_time
      → t.next_time ≢ old.time
      → fill_slot h t k (some old) a g time
        ≡ some (true, write_slot h k (record { actor = a; argument = g; time = time }) t)
  unfolding fill_slot reschedule
  fill_slot_missed t k old a g time set other =
      let not_next : was_next h t old ≡ false = ground (arith, set, other) in rw not_next refl

  -- What `timer_advance` does before the pending deadline.
  early_sent :
      (b : Body (Timer R)) (d : ℕ)
      → b.world.next_time < 2 ^ 32
      → b.world.current_time + d < b.world.next_time
      → (advance_timer h b d).world.sent ≡ b.world.sent
  unfolding advance_timer run_alarms timer_schedule set_tick lower_next_time set_plain_phase
      notify_phase on_phase start_counting
  early_sent b d word early = ground (arith, word, early)

  -- While an alarm is pending for another pair, so that no slot that the pair may take, its own or a
  -- free one, holds the pending deadline, an alarm that an actor sets for a nearer time is noted as
  -- the pair's deadline, and the timer keeps the pending deadline, the tick and the registers that it
  -- had. If the timer advances next to any time before the pending deadline, also past that of the
  -- new alarm, nobody is told of an alarm. Some slot is free, no pair has two, and the actor is not
  -- NULL.
  pub nearer_alarm_missed :
      (t : Timer R) (a g delay : ℕ)
      → a ≢ 0
      → IsUnique t.subscriptions
      → (IsFull t.subscriptions → ⊥)
      → IsForOthers t a g
      → t.next_time < 2 ^ 32 - 1
      → (t.current_time + delay) % 2 ^ 32 < t.next_time
      → (t' : Timer R) × (subscribe h t a g delay ≡ some (true, t'))
        × (deadline t'.subscriptions a g ≡ some ((t.current_time + delay) % 2 ^ 32))
        × ((t'.next_time ≡ t.next_time)
            × (t'.next_tick ≡ t.next_tick)
            × (t'.registers ≡ t.registers))
        × ((b : Body (Timer R)) (d : ℕ)
            → b.world ≡ t'
            → t.current_time + d < t.next_time
            → (advance_timer h b d).world.sent ≡ t.sent)
  unfolding subscribe get_subscription
  nearer_alarm_missed t a g delay u uniq room others word near =
      elim (Option-cases (find_slot a g 0 none t.subscriptions)) [
        | inl full ↦ absurd (room (find_slot-IsFull a g 0 t.subscriptions full))
        | inr (k, found) ↦
            let slot = find_slot-IsSlotFor a g k t.subscriptions found in
            let (old, at, why) = slot in
            let time : ℕ = (t.current_time + delay) % 2 ^ 32 in
            let new : Subscription = record { actor = a; argument = g; time = time } in
            (
              write_slot h k new t,
              rw (found, subscribe, at)
                  (fill_slot_missed t k old a g time (omega (arith, word))
                    (λ e. others k old at why (sym e))),
              deadline-set_self t.subscriptions k new u uniq slot,
              (refl, refl, refl),
              λ b d same early.
                  early_sent b d (rw same (omega (arith, word))) (rw same early)
                  ∙ ap (λ (x : Timer R). x.sent) same,
            )
      ]

  -- What `timer_advance` of a timeout sees once the time has passed.
  abbrev pub after_pass : Body (Timer R) → Timer R
  after_pass b = notified (pass_time h (elapsed h b.world) (ensure_running h b).world)

  -- The counter is disabled, and its value may have been set since.
  abbrev pub IsDisabled : R → Type 0
  IsDisabled r =
      (r0 : R) × ((r ≡ h.disable_counter r0)
        ⊎ ((n : ℕ) × (r ≡ h.set_counter n (h.disable_counter r0))))

  abbrev IsStopped : Body (Timer R) → Type 0
  IsStopped b =
      (same_phase b.phase idle ≡ true) × ((r0 : R) × (b.world.registers ≡ h.disable_counter r0))

  idle_lem :
      (b : Body (Timer R))
      → same_phase b.phase running ≡ true
      → IsStopped (set_plain_phase (timer_class h) idle b)
  unfolding set_plain_phase notify_phase on_phase stop_counting
  idle_lem b runs =
      let other : same_phase b.phase idle ≡ false = ground (arith, runs) in
      rw other (refl, (b.world.registers, refl))

  advance_stops :
      (b : Body (Timer R))
      → IsQuiet h b.world.subscriptions
      → (after_pass b).next_time ≤ (after_pass b).current_time
      → get_next_subscription (after_pass b) ≡ none
      → IsStopped (advance_timer h b (elapsed h b.world))
  unfolding advance_timer run_alarms settle
  advance_stops b quiet due last =
      let passed = leb_of_le _ _ due in
      let (runs, _) = running_lem h b in
      let ready : Body (Timer R) = record (ensure_running h b) {
        world = pass_time h (elapsed h b.world) (ensure_running h b).world;
      } in
      let still : IsQuiet h ready.world.subscriptions = rw (run_slots h b).0 quiet in
      rw (passed, notify_quiet h ready still, last) (idle_lem _ runs)

  -- The registers are those of the timer, or the counter has been set.
  IsCounted : Timer R → Timer R → Type 0
  IsCounted t t' =
      (t'.registers ≡ t.registers) ⊎ ((n : ℕ) × (t'.registers ≡ h.set_counter n t.registers))

  set_tick-IsCounted : (t : Timer R) → IsCounted t (set_tick h t)
  unfolding set_tick IsCounted
  set_tick-IsCounted t =
      let diff = word_sub t.next_time t.current_time in
      elim (Bool-cases (ltb diff t.period)) [
        | inl sooner ↦ rw sooner (inr (word_sub t.period diff, refl))
        | inr later ↦ rw later (inl refl)
      ]

  lower_registers : (t : Timer R) (time : ℕ) → (lower_next_time h time t).registers ≡ t.registers
  unfolding lower_next_time
  lower_registers t time = ground arith

  schedule-IsCounted : (t : Timer R) (time : ℕ) → IsCounted t (timer_schedule h t time)
  unfolding timer_schedule IsCounted lower_next_time
  schedule-IsCounted t time =
      rw (lower_registers t time) at (set_tick-IsCounted (lower_next_time h time t))

  AllCounted : Timer R → Option (Timer R) → Type 0
  AllCounted t none = Unit
  AllCounted t (some t') = IsCounted t t'

  reschedule-AllCounted :
      (t : Timer R) (old new : Subscription) → AllCounted t (reschedule h t old new)
  unfolding reschedule AllCounted IsCounted
  reschedule-AllCounted t old new = elim (Bool-cases (was_next h t old)) [
    | inl next ↦ rw next (next_counted _)
    | inr other ↦ rw other (inl refl)
  ]
    where
      next_counted : (o : Option Subscription) → AllCounted t (schedule_next h t o)
      next_counted none = unfold schedule_next in tt
      next_counted (some s) = unfold schedule_next in schedule-IsCounted t s.time

  fill_slot-IsCounted :
      (t : Timer R) (k : ℕ) (slot : Option Subscription) (a g time : ℕ) (done : Bool) (t' : Timer R)
      → fill_slot h t k slot a g time ≡ some (done, t')
      → IsCounted t t'
  unfolding fill_slot IsCounted AllCounted
  fill_slot-IsCounted t k none a g time done t' e = absurd (none-ne_some _ e)
  fill_slot-IsCounted t k (some old) a g time done t' e =
      let new : Subscription = record { actor = a; argument = g; time = time } in
      let t1 : Timer R = write_slot h k new t in
      counted t1 (reschedule h t1 old new) (reschedule-AllCounted t1 old new) e
    where
      counted :
          (t1 : Timer R) (o : Option (Timer R))
          → AllCounted t1 o
          → succeed h o ≡ some (done, t')
          → IsCounted t1 t'
      counted t1 none all e' = absurd (none-ne_some _ e')
      counted t1 (some u) all e' =
          let same : u ≡ t' = ap (λ (x : Bool × Timer R). x.1) (some-inj (true, u) (done, t') e') in
          rw same at all

  subscribe-IsCounted :
      (t : Timer R) (a g delay : ℕ) (done : Bool) (t' : Timer R)
      → subscribe h t a g delay ≡ some (done, t')
      → IsCounted t t'
  unfolding subscribe IsCounted
  subscribe-IsCounted t a g delay done t' e = elim (Option-cases (get_subscription t a g)) [
    | inl full ↦
        let same : t ≡ t' =
          ap (λ (x : Bool × Timer R). x.1)
            (some-inj (false, t) (done, t') (rw (full, subscribe) at e)) in
        rw same (inl refl)
    | inr (k, found) ↦ fill_slot-IsCounted t k _ a g _ done t' (rw (found, subscribe) at e)
  ]

  in_body_lem :
      (b b' : Body (Timer R)) (o : Option (Bool × Timer R)) (done : Bool)
      → in_body h b o ≡ some (done, b')
      → (o ≡ some (done, b'.world)) × (b'.phase ≡ b.phase)
  in_body_lem b b' none done e = absurd (none-ne_some _ e)
  in_body_lem b b' (some (ok, t)) done e =
      let p = some-inj _ (done, b') e in
      (
        ap (λ (x : Bool × Body (Timer R)). some (x.0, x.1.world)) p,
        sym (ap (λ (x : Bool × Body (Timer R)). x.1.phase) p),
      )

  IsDisabled-of :
      (t t' : Timer R)
      → ((r0 : R) × (t.registers ≡ h.disable_counter r0))
      → IsCounted t t'
      → IsDisabled t'.registers
  unfolding IsCounted
  IsDisabled-of t t' (r0, e) (inl same) = (r0, inl (same ∙ e))
  IsDisabled-of t t' (r0, e) (inr (n, set)) = (r0, inr (n, set ∙ ap (h.set_counter n) e))

  -- When the last pending alarm goes off in the very call that sets a new one, which is not refused,
  -- and no actor with an alarm comes back to the timer while it is told of one, the timer is left idle
  -- with its counter disabled, although the pair has the deadline that was asked for. No pair has two
  -- slots before, and the actor is not NULL.
  pub timeout_stops :
      (b b' : Body (Timer R)) (a g delay : ℕ)
      → IsQuiet h b.world.subscriptions
      → a ≢ 0
      → IsUnique b.world.subscriptions
      → (after_pass b).next_time ≤ (after_pass b).current_time
      → get_next_subscription (after_pass b) ≡ none
      → timeout h b a g delay ≡ some (true, b')
      → (same_phase b'.phase idle ≡ true)
        × IsDisabled b'.world.registers
        × (deadline b'.world.subscriptions a g ≡ some ((b'.world.current_time + delay) % 2 ^ 32))
  unfolding timeout
  timeout_stops b b' a g delay quiet u uniq due last e =
      let after = advance_timer h b (elapsed h b.world) in
      let (stopped, disabled) = advance_stops b quiet due last in
      let (run, phase) = in_body_lem after b' _ true e in
      let (uniq', _) = advance_timer-Passes h b (elapsed h b.world) quiet uniq in
      (
        rw phase stopped,
        IsDisabled-of after.world b'.world disabled
            (subscribe-IsCounted after.world a g delay true b'.world run),
        elim (subscribe-Sets h after.world b'.world a g delay true u uniq' run) [
          | inl (_, (_, now, same)) ↦ rw now (same a g u ∙ ground arith)
          | inr (refused, _) ↦ absurd (ground (arith, refused))
        ],
      )
