-- ===== src/Timer/Tests.antt =====
-- A timer at concrete inputs: a counter, and whether it counts.
use stm32app.Base.{
  ◌==◌, if◌then◌else◌, zero, suc, ◌+◌, ◌<◌, inl, inr, ap, some-inj, none-ne_some, ℕ, ◌≡◌, ◌≢◌, ◌≤◌,
  refl, Bool, true, false, none, some, [], ◌∷◌, arith,
}
use stm32app.Actor.{Body, running, idle, same_phase, set_plain_phase, notify_phase}
use stm32app.Timer.{
  Timer, free_slot, timeout, advance_timer, run_alarms, settle, notify, Subscription, Outside,
  notify_from, notify_at, notify_slot, get_next_subscription, closest_from, timer_schedule,
  set_tick, lower_next_time, stop_counting, start_counting, subscribe, fill_slot, get_subscription,
  find_slot, reschedule, schedule_next, on_phase,
}
use stm32app.Timer.Slots.{deadline, IsUnique, IsFull}
use stm32app.Timer.Quiet.{IsQuiet, notify_slots}
use stm32app.Timer.Alarms.{alarms_for, notify_lem}
use stm32app.Timer.Book.{set_alarm, IsAllowed, deadlines}
use stm32app.Timer.Requests.{perform, perform-IsAllowed}
use stm32app.Timer.Ticks.{IsSettled, advance_timer-IsSettled}
use stm32app.Timer.Misses.{IsForOthers, IsDisabled, after_pass, nearer_alarm_missed, timeout_stops}

abbrev registers : Outside (ℕ × Bool)
registers = record {
  get_counter = λ r. r.0;
  set_counter = λ n r. (n, r.1);
  enable_counter = λ r. (r.0, true);
  disable_counter = λ r. (r.0, false);
  has_update_flag = λ r. true;
  clear_update_flag = λ r. r;
  signal = λ a g b. if a == 9 then record b { phase = idle } else b;
}

-- Actor 3 waits for time 100.
abbrev waiting : Timer (ℕ × Bool)
waiting = record {
  subscriptions = record { actor = 3; argument = 0; time = 100 } ∷ free_slot ∷ [];
  current_time = 90;
  next_time = 100;
  next_tick = 10;
  period = 1000;
  registers = (1001, true);
  sent = [];
}

-- Actor 9 takes the phase of the timer, but has no alarm.
waiting-IsQuiet : IsQuiet registers waiting.subscriptions
waiting-IsQuiet = (λ u b. refl, (λ u b. refl, tt))

-- The same a little earlier.
abbrev early : Timer (ℕ × Bool)
early = record waiting { registers = (992, true) }

abbrev ticking : Timer (ℕ × Bool) → Body (Timer (ℕ × Bool))
ticking t = record { phase = running; world = t }

waiting-IsUnique : IsUnique waiting.subscriptions
waiting-IsUnique = ((λ u. refl), ((λ u. refl), tt))

abbrev third : ℕ
third = 3

actor_given : third ≢ 0
actor_given = omega arith

notify_lem_example :
    let b = ticking (record waiting { current_time = 100 }) in
    let after = (notify registers b).world in
    (deadline after.subscriptions 3 0 ≡ none) × (alarms_for 3 0 after.sent ≡ 1)
notify_lem_example =
    notify_lem registers (ticking (record waiting { current_time = 100 })) 3 0 waiting-IsQuiet
      actor_given waiting-IsUnique

-- At 92, actor 3 moves its alarm to 122.
abbrev moved : Timer (ℕ × Bool)
moved = record early {
  subscriptions = record { actor = 3; argument = 0; time = 122 } ∷ free_slot ∷ [];
  current_time = 92;
  next_time = 100;
  next_tick = 8;
  registers = (992, true);
}

moves : perform registers (ticking early) (set_alarm 3 0 30) ≡ some (true, ticking moved)
unfolding perform timeout advance_timer run_alarms settle notify notify_from notify_at notify_slot
    get_next_subscription closest_from timer_schedule set_tick lower_next_time set_plain_phase
    notify_phase on_phase stop_counting start_counting subscribe fill_slot get_subscription
    find_slot reschedule schedule_next
moves = refl

perform-IsAllowed_example :
    IsUnique moved.subscriptions
    × IsAllowed 92
        (IsFull moved.subscriptions)
        (set_alarm 3 0 30)
        true
        (deadlines early)
        (deadlines moved)
perform-IsAllowed_example =
    perform-IsAllowed registers (ticking early) (ticking moved) (set_alarm 3 0 30) true
      waiting-IsQuiet actor_given waiting-IsUnique moves

advance_timer-IsSettled_example : IsSettled 100 (advance_timer registers (ticking early) 5)
advance_timer-IsSettled_example =
    advance_timer-IsSettled registers (ticking early) 5 waiting-IsQuiet

abbrev five : ℕ
five = 5

fifth : five ≢ 0
fifth = omega arith

has_room : IsFull waiting.subscriptions → ⊥
has_room (_, (used, _)) = used refl

pending_for_third : IsForOthers waiting 5 0
pending_for_third zero s at (inl (own, _)) =
    let same = some-inj (record { actor = 3; argument = 0; time = 100 }) s at in
    absurd (omega (arith, own, ap (λ (x : Subscription). x.actor) same))
pending_for_third zero s at (inr (free, _)) =
    let same = some-inj (record { actor = 3; argument = 0; time = 100 }) s at in
    absurd (omega (arith, free, ap (λ (x : Subscription). x.actor) same))
pending_for_third (suc zero) s at why =
    let same = some-inj free_slot s at in rw (← same) (omega arith)
pending_for_third (suc (suc k)) s at why = absurd (none-ne_some s at)

-- At 90, with the deadline at 100, actor 5 asks for an alarm in 2.
nearer_alarm_missed_example :
    (t' : Timer (ℕ × Bool)) × (subscribe registers waiting 5 0 2 ≡ some (true, t'))
    × (deadline t'.subscriptions 5 0 ≡ some 92)
    × ((t'.next_time ≡ 100) × (t'.next_tick ≡ 10) × (t'.registers ≡ waiting.registers))
    × ((b : Body (Timer (ℕ × Bool))) (d : ℕ)
        → b.world ≡ t'
        → 90 + d < 100
        → (advance_timer registers b d).world.sent ≡ [])
nearer_alarm_missed_example =
    nearer_alarm_missed registers waiting 5 0 2 fifth waiting-IsUnique has_room pending_for_third
      (omega arith) (omega arith)

abbrev stopped : Timer (ℕ × Bool)
stopped = record waiting {
  subscriptions = record { actor = 5; argument = 0; time = 111 } ∷ free_slot ∷ [];
  current_time = 101;
  next_time = 111;
  next_tick = 10;
  registers = (990, false);
  sent = record { actor = 3; argument = 0 } ∷ [];
}

stop_due :
    (after_pass registers (ticking waiting)).next_time
    ≤ (after_pass registers (ticking waiting)).current_time
stop_due = omega arith

stop_last : get_next_subscription (after_pass registers (ticking waiting)) ≡ none
unfolding get_next_subscription closest_from notify_slots
stop_last = refl

stops :
    timeout registers (ticking waiting) 5 0 10
    ≡ some (true, record { phase = idle; world = stopped })
unfolding timeout advance_timer run_alarms settle notify notify_from notify_at notify_slot
    get_next_subscription closest_from timer_schedule set_tick lower_next_time set_plain_phase
    notify_phase on_phase stop_counting start_counting subscribe fill_slot get_subscription
    find_slot reschedule schedule_next
stops = refl

timeout_stops_example :
    (same_phase idle idle ≡ true)
    × IsDisabled registers stopped.registers
    × (deadline stopped.subscriptions 5 0 ≡ some 111)
timeout_stops_example =
    timeout_stops registers (ticking waiting) (record { phase = idle; world = stopped }) 5 0 10
      waiting-IsQuiet fifth waiting-IsUnique stop_due stop_last stops
