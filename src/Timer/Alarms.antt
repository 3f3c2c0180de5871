-- ===== src/Timer/Alarms.antt =====
-- The alarms that are due, in the loop of `timer_notify`.
use stm32app.Base.{
  ℕ, ◌+◌, ◌≡◌, ◌≢◌, inl, inr, refl, ◌∙◌, sym, Bool, false, ◌&&◌, Option, none, some, List, [], ◌∷◌,
  ◌++◌, ◌==◌, if◌then◌else◌, arith, Bool-cases,
}
use stm32app.Actor.{Body}
use stm32app.Timer.{Subscription, Alarm, Timer, Outside, is_due, notify}
use stm32app.Timer.Quiet.{IsQuiet, notify_slots, due_alarms, notify_quiet}
use stm32app.Timer.Slots.{matches, deadline, IsUnique}

-- A deadline that goes once its time has come.
abbrev pub expire : ℕ → Option ℕ → Option ℕ
expire now none = none
expire now (some time) = if is_due now time then none else some time

abbrev pub is_expired : ℕ → Option ℕ → Bool
is_expired now none = false
is_expired now (some time) = is_due now time

-- How often a pair is sent its alarm.
abbrev pub alarms_for : ℕ → ℕ → List Alarm → ℕ
alarms_for a g [] = 0
alarms_for a g (x ∷ xs) = (if (x.actor == a) && (x.argument == g) then 1 else 0) + alarms_for a g xs

alarms_for-append :
    (a g : ℕ) (xs ys : List Alarm)
    → alarms_for a g (xs ++ ys) ≡ alarms_for a g xs + alarms_for a g ys
alarms_for-append a g [] ys = omega arith
alarms_for-append a g (x ∷ xs) ys = omega (arith, alarms_for-append a g xs ys)

pub deadline-notify_none :
    (now : ℕ) (ss : List Subscription) (a g : ℕ)
    → a ≢ 0
    → deadline ss a g ≡ none
    → (deadline (notify_slots now ss) a g ≡ none) × (alarms_for a g (due_alarms now ss) ≡ 0)
unfolding notify_slots due_alarms
deadline-notify_none now [] a g u d = (refl, refl)
deadline-notify_none now (s ∷ ss) a g u d = ground (arith, deadline-notify_none now ss a g u, d)

pub deadline-notify_slots :
    (now : ℕ) (ss : List Subscription) (a g : ℕ)
    → a ≢ 0
    → IsUnique ss
    → (deadline (notify_slots now ss) a g ≡ expire now (deadline ss a g))
      × (alarms_for a g (due_alarms now ss) ≡ (if is_expired now (deadline ss a g) then 1 else 0))
unfolding notify_slots due_alarms
deadline-notify_slots now [] a g u uniq = (refl, refl)
deadline-notify_slots now (s ∷ ss) a g u (first, uniq) = elim (Bool-cases (matches s a g)) [
  | inr m ↦ ground (arith, deadline-notify_slots now ss a g u uniq, m)
  | inl m ↦
      let sa : s.actor ≡ a = ground (arith, m) in
      let sg : s.argument ≡ g = ground (arith, m) in
      let absent : deadline ss a g ≡ none = rw (← sa, ← sg) (first (λ e. u (sym sa ∙ e))) in
      ground (arith, deadline-notify_none now ss a g u absent, m, absent)
]

pub IsUnique-notify_slots :
    (now : ℕ) (ss : List Subscription) → IsUnique ss → IsUnique (notify_slots now ss)
unfolding notify_slots
IsUnique-notify_slots now [] uniq = tt
IsUnique-notify_slots now (s ∷ ss) (first, uniq) =
    let rest = IsUnique-notify_slots now ss uniq in
    let kept : s.actor ≢ 0 → deadline (notify_slots now ss) s.actor s.argument ≡ none =
      λ v. (deadline-notify_none now ss s.actor s.argument v (first v)).0 in
    elim (Bool-cases (s.actor == 0)) [
      | inl z ↦ rw z (kept, rest)
      | inr used ↦ elim (Bool-cases (is_due now s.time)) [
        | inl due ↦ rw (used, due) ((λ v. absurd (v refl)), rest)
        | inr later ↦ rw (used, later) (kept, rest)
      ]
    ]

-- Where no actor with an alarm comes back to the timer while it is told of one, the loop of
-- `timer_notify` takes away the deadline of a pair exactly when its time has come, for every pair of an actor and an argument, and
-- tells the pair once then and not at all otherwise. No pair has two slots before.
pub notify_lem :
    {R : Type 0} (h : Outside R) (b : Body (Timer R)) (a g : ℕ)
    → IsQuiet h b.world.subscriptions
    → a ≢ 0
    → IsUnique b.world.subscriptions
    → let t = b.world in
      let after = (notify h b).world in
      (deadline after.subscriptions a g ≡ expire t.current_time (deadline t.subscriptions a g))
      × (alarms_for a g after.sent
          ≡ alarms_for a g t.sent
            + (if is_expired t.current_time (deadline t.subscriptions a g) then 1 else 0))
notify_lem h b a g quiet u uniq =
    let t = b.world in
    let (gone, once) = deadline-notify_slots t.current_time t.subscriptions a g u uniq in
    rw (notify_quiet h b quiet) (
      gone,
      omega (arith, alarms_for-append a g t.sent (due_alarms t.current_time t.subscriptions), once),
    )
