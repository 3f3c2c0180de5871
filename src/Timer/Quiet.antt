-- ===== src/Timer/Quiet.antt =====
-- The loop of `timer_notify` where the actors that it tells leave the timer alone.
use mathlib.Core.List.{append_assoc, append-nil}
use stm32app.Base.{
  ◌≢◌, arith, ℕ, suc, ◌≡◌, refl, ap, sym, ◌∙◌, true, false, Bool-cases, inl, inr, some, List, [],
  ◌∷◌, ◌++◌, length, get_elem?, set, ◌==◌, if◌then◌else◌,
}
use stm32app.Actor.{Body}
use stm32app.Timer.{
  Subscription, Alarm, Timer, Outside, free_slot, is_due, notify_slot, notify_at, notify_from,
  notify,
}

-- No actor with an alarm in one of the slots comes back to the timer, to set or clear an alarm, while
-- it is told of that one.
abbrev pub IsQuiet : {R : Type 0} → Outside R → List Subscription → Type 0
IsQuiet h [] = Unit
IsQuiet {R} h (s ∷ ss) =
    (s.actor ≢ 0 → (b : Body (Timer R)) → h.signal s.actor s.argument b ≡ b) × IsQuiet h ss

-- The slots without those whose time has come, and the alarms of those.
unfoldable pub notify_slots : ℕ → List Subscription → List Subscription
notify_slots now [] = []
notify_slots now (s ∷ ss) =
    let rest = notify_slots now ss in
    if s.actor == 0 then s ∷ rest else if is_due now s.time then free_slot ∷ rest else s ∷ rest

unfoldable pub due_alarms : ℕ → List Subscription → List Alarm
due_alarms now [] = []
due_alarms now (s ∷ ss) =
    let rest = due_alarms now ss in
    if s.actor == 0
    then rest
    else if is_due now s.time
    then record { actor = s.actor; argument = s.argument } ∷ rest
    else rest

abbrev pub notified : {R : Type 0} → Timer R → Timer R
notified t = record t {
  subscriptions = notify_slots t.current_time t.subscriptions;
  sent = t.sent ++ due_alarms t.current_time t.subscriptions;
}

get_elem?-behind :
    (pre : List Subscription) (s : Subscription) (ss : List Subscription)
    → get_elem? (pre ++ (s ∷ ss)) (length pre) ≡ some s
get_elem?-behind [] s ss = refl
get_elem?-behind (p ∷ pre) s ss = get_elem?-behind pre s ss

set-behind :
    (pre : List Subscription) (s x : Subscription) (ss : List Subscription)
    → set (pre ++ (s ∷ ss)) (length pre) x ≡ pre ++ (x ∷ ss)
set-behind [] s x ss = refl
set-behind (p ∷ pre) s x ss = ap (λ l. p ∷ l) (set-behind pre s x ss)

length-snoc :
    (pre : List Subscription) (s : Subscription) → length (pre ++ (s ∷ [])) ≡ suc (length pre)
length-snoc [] s = refl
length-snoc (p ∷ pre) s = ap suc (length-snoc pre s)

module _ {R : Type 0} (h : Outside R) where
  abbrev holding : Body (Timer R) → List Subscription → List Alarm → Body (Timer R)
  holding b ss sent = record b { world = record b.world { subscriptions = ss; sent = sent } }

  at_slot :
      (b : Body (Timer R)) (pre : List Subscription) (s : Subscription) (ss : List Subscription)
      (sent : List Alarm)
      → notify_at h (length pre) (holding b (pre ++ (s ∷ ss)) sent)
        ≡ notify_slot h (length pre) s (holding b (pre ++ (s ∷ ss)) sent)
  unfolding notify_at
  at_slot b pre s ss sent = rw (get_elem?-behind pre s ss, notify_at) refl

  at_unused :
      (b : Body (Timer R)) (pre : List Subscription) (s : Subscription) (ss : List Subscription)
      (sent : List Alarm)
      → (s.actor == 0) ≡ true
      → notify_at h (length pre) (holding b (pre ++ (s ∷ ss)) sent)
        ≡ holding b (pre ++ (s ∷ ss)) sent
  unfolding notify_slot
  at_unused b pre s ss sent unused = at_slot b pre s ss sent ∙ rw unused refl

  at_later :
      (b : Body (Timer R)) (pre : List Subscription) (s : Subscription) (ss : List Subscription)
      (sent : List Alarm)
      → (s.actor == 0) ≡ false
      → is_due b.world.current_time s.time ≡ false
      → notify_at h (length pre) (holding b (pre ++ (s ∷ ss)) sent)
        ≡ holding b (pre ++ (s ∷ ss)) sent
  unfolding notify_slot
  at_later b pre s ss sent used later = at_slot b pre s ss sent ∙ rw (used, later) refl

  at_due :
      (b : Body (Timer R)) (pre : List Subscription) (s : Subscription) (ss : List Subscription)
      (sent : List Alarm)
      → (s.actor == 0) ≡ false
      → is_due b.world.current_time s.time ≡ true
      → ((c : Body (Timer R)) → h.signal s.actor s.argument c ≡ c)
      → notify_at h (length pre) (holding b (pre ++ (s ∷ ss)) sent)
        ≡ holding b
            (pre ++ (free_slot ∷ ss))
            (sent ++ (record { actor = s.actor; argument = s.argument } ∷ []))
  unfolding notify_slot
  at_due b pre s ss sent used due quiet =
      at_slot b pre s ss sent ∙ rw (used, due, set-behind pre s free_slot ss) (quiet _)

  -- What is left of the loop after the slot `x`.
  shifted :
      (b : Body (Timer R)) (n : ℕ) (pre : List Subscription) (x : Subscription)
      (ss rest : List Subscription) (sent sent' : List Alarm)
      → notify_from h n (length (pre ++ (x ∷ []))) (holding b ((pre ++ (x ∷ [])) ++ ss) sent)
        ≡ holding b ((pre ++ (x ∷ [])) ++ rest) sent'
      → notify_from h n (suc (length pre)) (holding b (pre ++ (x ∷ ss)) sent)
        ≡ holding b (pre ++ (x ∷ rest)) sent'
  shifted b n pre x ss rest sent sent' e =
      rw (length-snoc pre x, append_assoc pre (x ∷ []) ss, append_assoc pre (x ∷ []) rest) at e

  -- The rest of the loop, once the slots in front have had their turn.
  notify_from_lem :
      (b : Body (Timer R)) (pre ss : List Subscription) (sent : List Alarm)
      → IsQuiet h ss
      → notify_from h (length ss) (length pre) (holding b (pre ++ ss) sent)
        ≡ holding b
            (pre ++ notify_slots b.world.current_time ss)
            (sent ++ due_alarms b.world.current_time ss)
  unfolding notify_from notify_slots due_alarms
  notify_from_lem b pre [] sent quiet = ap (holding b (pre ++ [])) (sym (append-nil sent))
  notify_from_lem b pre (s ∷ ss) sent (first, quiet) = elim (Bool-cases (s.actor == 0)) [
    | inl unused ↦
        let ih = notify_from_lem b (pre ++ (s ∷ [])) ss sent quiet in
        ap (notify_from h (length ss) (suc (length pre))) (at_unused b pre s ss sent unused)
        ∙ rw unused (shifted b (length ss) pre s ss _ sent _ ih)
    | inr used ↦ elim (Bool-cases (is_due b.world.current_time s.time)) [
      | inr later ↦
          let ih = notify_from_lem b (pre ++ (s ∷ [])) ss sent quiet in
          ap (notify_from h (length ss) (suc (length pre))) (at_later b pre s ss sent used later)
          ∙ rw (used, later) (shifted b (length ss) pre s ss _ sent _ ih)
      | inl due ↦
          let alarm : Alarm = record { actor = s.actor; argument = s.argument } in
          let ih = notify_from_lem b (pre ++ (free_slot ∷ [])) ss (sent ++ (alarm ∷ [])) quiet in
          ap (notify_from h (length ss) (suc (length pre)))
            (at_due b pre s ss sent used due (first (ground (arith, used))))
          ∙ rw (used, due)
              (shifted b (length ss) pre free_slot ss _ (sent ++ (alarm ∷ [])) _ ih
                ∙ ap (holding b (pre ++ (free_slot ∷ notify_slots b.world.current_time ss)))
                    (append_assoc sent (alarm ∷ []) (due_alarms b.world.current_time ss)))
    ]
  ]

  pub notify_quiet :
      (b : Body (Timer R))
      → IsQuiet h b.world.subscriptions
      → notify h b ≡ record b { world = notified b.world }
  unfolding notify
  notify_quiet b quiet = notify_from_lem b [] b.world.subscriptions b.world.sent quiet
