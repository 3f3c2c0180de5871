-- ===== src/Timer/Requests.antt =====
-- The requests to a timer, as the slots, the ticks and the phase implement them, against the map.
use stm32app.Base.{
  ℕ, ◌+◌, ◌%◌, ◌^◌, ◌≡◌, ◌≢◌, ◌⊎◌, inl, inr, refl, sym, ap, Bool, true, false, Option, none, some,
  set, arith, Bool-cases, Option-cases, some-inj, none-ne_some,
}
use stm32app.Actor.{Body}
use stm32app.Timer.{
  Subscription, Timer, Outside, free_slot, find_slot, get_subscription, get_next_subscription,
  timer_schedule, advance_timer, interrupt, elapsed, write_slot, was_next, schedule_next,
  reschedule, succeed, fill_slot, subscribe, in_body, timeout, clear_slot, clear,
}
use stm32app.Timer.Quiet.{IsQuiet}
use stm32app.Timer.Slots.{
  IsUnique, IsSlotFor, find_slot-IsSlotFor, find_slot-absent, find_slot-IsFull, IsFull,
}
use stm32app.Timer.Writes.{deadline-set_self, IsUnique-set}
use stm32app.Timer.Book.{
  Request, set_alarm, clear_alarm, tick, Book, Same, put, IsPassage, IsAllowed, HasActor, deadlines,
  without, put_slot, without-Clears,
}
use stm32app.Timer.Passing.{schedule_slots, advance_timer-Passes, interrupt-Passes}

module _ {R : Type 0} (h : Outside R) where
  -- A fault of the code is `none`.
  unfoldable pub perform : Body (Timer R) → Request → Option (Bool × Body (Timer R))
  perform b (set_alarm a g delay) = timeout h b a g delay
  perform b (clear_alarm a g) = some (true, record b { world = clear h b.world a g })
  perform b tick = some (true, interrupt h b)

  clear_slot_slots :
      (t : Timer R) (k : ℕ) (old : Subscription)
      → (clear_slot h t k old).subscriptions ≡ set t.subscriptions k free_slot
  unfolding clear_slot
  clear_slot_slots t k old =
      elim (Option-cases (get_next_subscription (write_slot h k free_slot t))) [
        | inl e ↦ rw e (ground arith)
        | inr (s, e) ↦
            let kept = schedule_slots h (write_slot h k free_slot t) s.time in
            rw e (ground (arith, kept))
      ]

  clear_slots :
      (t : Timer R) (a g : ℕ)
      → (clear h t a g).subscriptions
        ≡ without (find_slot a g 0 none t.subscriptions) t.subscriptions
  unfolding clear get_subscription
  clear_slots t a g = elim (Option-cases (find_slot a g 0 none t.subscriptions)) [
    | inl e ↦ rw (e, clear) refl
    | inr (k, e) ↦
        let (old, at, _) = find_slot-IsSlotFor a g k t.subscriptions e in
        rw (e, clear, at) (clear_slot_slots t k old)
  ]

  clear-Clears :
      (t : Timer R) (a g : ℕ)
      → a ≢ 0
      → IsUnique t.subscriptions
      → IsUnique (clear h t a g).subscriptions
        × Same (deadlines (clear h t a g)) (put a g none (deadlines t))
  clear-Clears t a g u uniq =
      rw (clear_slots t a g) (without-Clears t.subscriptions a g _ u uniq refl)

  schedule_next_slots :
      (t t' : Timer R) (next : Option Subscription)
      → schedule_next h t next ≡ some t'
      → (t'.subscriptions ≡ t.subscriptions) × (t'.current_time ≡ t.current_time)
  unfolding schedule_next
  schedule_next_slots t t' none e = absurd (none-ne_some t' e)
  schedule_next_slots t t' (some s) e =
      rw (← some-inj (timer_schedule h t s.time) t' e) (schedule_slots h t s.time)

  reschedule_slots :
      (t t' : Timer R) (old new : Subscription)
      → reschedule h t old new ≡ some t'
      → (t'.subscriptions ≡ t.subscriptions) × (t'.current_time ≡ t.current_time)
  unfolding reschedule
  reschedule_slots t t' old new e = elim (Bool-cases (was_next h t old)) [
    | inl next ↦ schedule_next_slots t t' _ (rw next at e)
    | inr other ↦
        let same : t ≡ t' = some-inj t t' (rw other at e) in
        (
          sym (ap (λ (x : Timer R). x.subscriptions) same),
          sym (ap (λ (x : Timer R). x.current_time) same),
        )
  ]

  -- What a success leaves.
  abbrev pub Sets : Timer R → Timer R → ℕ → ℕ → ℕ → Type 0
  Sets t t' a g time =
      IsUnique t'.subscriptions
      × (t'.current_time ≡ t.current_time)
      × Same (deadlines t') (put a g (some time) (deadlines t))

  succeed-some :
      (r : Option (Timer R)) (done : Bool) (t' : Timer R)
      → succeed h r ≡ some (done, t')
      → (done ≡ true) × (r ≡ some t')
  succeed-some none done t' e = absurd (none-ne_some _ e)
  succeed-some (some t) done t' e =
      let p = some-inj (true, t) (done, t') e in
      (sym (ap (λ (x : Bool × Timer R). x.0) p), ap (λ (x : Bool × Timer R). some x.1) p)

  fill_slot-Sets :
      (t t' : Timer R) (k : ℕ) (slot : Option Subscription) (a g time : ℕ) (done : Bool)
      → a ≢ 0
      → IsUnique t.subscriptions
      → IsSlotFor a g t.subscriptions k
      → fill_slot h t k slot a g time ≡ some (done, t')
      → (done ≡ true) × Sets t t' a g time
  unfolding fill_slot
  fill_slot-Sets t t' k none a g time done u uniq own e = absurd (none-ne_some _ e)
  fill_slot-Sets t t' k (some old) a g time done u uniq own e =
      let new : Subscription = record { actor = a; argument = g; time = time } in
      let (ok, r) = succeed-some _ done t' e in
      let (slots, now) = reschedule_slots (write_slot h k new t) t' old new r in
      (
        ok,
        rw slots (
          IsUnique-set t.subscriptions k new u uniq own,
          now,
          put_slot t.subscriptions k a g new (some time) u own
              (deadline-set_self t.subscriptions k new u uniq own) (λ b c v apart. apart),
        ),
      )

  abbrev pub Refuses : Timer R → Timer R → ℕ → ℕ → Type 0
  Refuses t t' a g = (t' ≡ t) × (deadlines t a g ≡ none) × IsFull t.subscriptions

  -- A new deadline, or no slot.
  pub subscribe-Sets :
      (t t' : Timer R) (a g delay : ℕ) (done : Bool)
      → a ≢ 0
      → IsUnique t.subscriptions
      → subscribe h t a g delay ≡ some (done, t')
      → ((done ≡ true) × Sets t t' a g ((t.current_time + delay) % 2 ^ 32))
        ⊎ ((done ≡ false) × Refuses t t' a g)
  unfolding subscribe get_subscription
  subscribe-Sets t t' a g delay done u uniq e =
      elim (Option-cases (find_slot a g 0 none t.subscriptions)) [
        | inl full ↦
            let p = some-inj (false, t) (done, t') (rw (full, subscribe) at e) in
            inr (
              sym (ap (λ (x : Bool × Timer R). x.0) p),
              (
                sym (ap (λ (x : Bool × Timer R). x.1) p),
                find_slot-absent a g t.subscriptions full,
                find_slot-IsFull a g 0 t.subscriptions full,
              ),
            )
        | inr (k, found) ↦ inl (
            fill_slot-Sets t t' k _ a g _ done u uniq
              (find_slot-IsSlotFor a g k t.subscriptions found) (rw (found, subscribe) at e))
      ]

  in_body-some :
      (b b' : Body (Timer R)) (done : Bool) (r : Option (Bool × Timer R))
      → in_body h b r ≡ some (done, b')
      → r ≡ some (done, b'.world)
  in_body-some b b' done none e = absurd (none-ne_some _ e)
  in_body-some b b' done (some (ok, t)) e =
      ap (λ (x : Bool × Body (Timer R)). some (x.0, x.1.world)) (some-inj _ (done, b') e)

  IsAllowed-of_Sets :
      (x : Book) (t t' : Timer R) (a g delay : ℕ) (done : Bool)
      → IsUnique t.subscriptions
      → IsPassage t.current_time x (deadlines t)
      → ((done ≡ true) × Sets t t' a g ((t.current_time + delay) % 2 ^ 32))
        ⊎ ((done ≡ false) × Refuses t t' a g)
      → IsUnique t'.subscriptions
        × IsAllowed t'.current_time
            (IsFull t'.subscriptions)
            (set_alarm a g delay)
            done
            x
            (deadlines t')
  IsAllowed-of_Sets x t t' a g delay done uniq passed (inl (ok, (uniq', same, put_in))) =
      rw same (uniq', (deadlines t, passed, inl (ok, put_in)))
  IsAllowed-of_Sets x t t' a g delay done uniq passed (inr (ko, (same, absent, full))) =
      rw same (uniq, (deadlines t, passed, inr (ko, (λ b c v. refl), absent, full)))

  -- Where no actor with an alarm comes back to the timer while it is told of one, every request does to the deadlines of the pairs what the map of `IsAllowed` lets it do, and
  -- leaves no pair with two slots: the interrupt and the passage of time take away all deadlines
  -- that are due or none, `module_timer_timeout` then gives the pair the deadline now plus the delay
  -- in 32 bits, or refuses where every slot is in use by another pair, and `module_timer_clear` takes
  -- the pair's deadline away; other pairs keep theirs. No pair has two slots before, and the actor is
  -- not NULL.
  pub perform-IsAllowed :
      (b b' : Body (Timer R)) (r : Request) (done : Bool)
      → IsQuiet h b.world.subscriptions
      → HasActor r
      → IsUnique b.world.subscriptions
      → perform b r ≡ some (done, b')
      → IsUnique b'.world.subscriptions
        × IsAllowed b'.world.current_time
            (IsFull b'.world.subscriptions)
            r
            done
            (deadlines b.world)
            (deadlines b'.world)
  unfolding perform timeout
  perform-IsAllowed b b' tick done quiet u uniq e =
      let p = some-inj (true, interrupt h b) (done, b') e in
      let (uniq', passed) = interrupt-Passes h b quiet uniq in
      let same : interrupt h b ≡ b' = ap (λ (x : Bool × Body (Timer R)). x.1) p in
      rw (← same) (uniq', (sym (ap (λ (x : Bool × Body (Timer R)). x.0) p), passed))
  perform-IsAllowed b b' (clear_alarm a g) done quiet u uniq e =
      let p = some-inj (true, record b { world = clear h b.world a g }) (done, b') e in
      let (uniq', cleared) = clear-Clears b.world a g u uniq in
      let same : clear h b.world a g ≡ b'.world = ap (λ (x : Bool × Body (Timer R)). x.1.world) p in
      rw (← same) (uniq', (sym (ap (λ (x : Bool × Body (Timer R)). x.0) p), cleared))
  perform-IsAllowed b b' (set_alarm a g delay) done quiet u uniq e =
      let after = advance_timer h b (elapsed h b.world) in
      let (uniq', passed) = advance_timer-Passes h b (elapsed h b.world) quiet uniq in
      let e' = in_body-some after b' done _ e in
      IsAllowed-of_Sets (deadlines b.world) after.world b'.world a g delay done uniq' passed
        (subscribe-Sets after.world b'.world a g delay done u uniq' e')
