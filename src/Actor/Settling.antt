-- ===== src/Actor/Settling.antt =====
-- Where a change of phase ends.
use stm32app.Base.{
  ◌≡◌, refl, inl, inr, ◌∙◌, ap, Bool, true, false, Option, none, some, if◌then◌else◌, Option-cases,
}
use stm32app.Actor.{
  Phase, enabled, constructing, linking, starting, calibrating, preparing, running, requesting,
  responding, working, idle, busy, resetting, pausing, paused, resuming, stopping, stopped,
  disabled, destructing, same_phase, Body, Methods, notify_phase, set_plain_phase, pass_through,
  set_stopping, set_starting, run_optional, on_constructing, on_pausing, on_resuming,
  on_phase_change, set_phase,
}

-- A method that is there, or not, leaves the phase to actor.c.
abbrev pub IsPassive : {W : Type 0} → Option (Body W → Body W) → Type 0
IsPassive {W} none = Unit
IsPassive {W} (some f) = (b : Body W) → (f b).phase ≡ b.phase

abbrev pub HasMethod : {W : Type 0} → Option (Body W → Body W) → Type 0
HasMethod none = ⊥
HasMethod (some f) = Unit

pub record IsPassiveClass {W : Type 0} (c : Methods W) : Type 0 where
  pub constructs :
      (f : Body W → Bool × Body W) → c.construct ≡ some f → (b : Body W) → (f b).1.phase ≡ b.phase
  pub links : IsPassive (c.link)
  pub destructs : IsPassive (c.destruct)
  pub starts : IsPassive (c.start)
  pub stops : IsPassive (c.stop)
  pub pauses : IsPassive (c.pause)
  pub resumes : IsPassive (c.resume)
  pub notifies :
      (f : Phase → Body W → Body W)
      → c.on_phase ≡ some f
      → (p : Phase) (b : Body W) → (f p b).phase ≡ b.phase

abbrev pub is_absent : {A : Type 0} → Option A → Bool
is_absent none = true
is_absent (some _) = false

-- Where a change to the phase ends, for a class that does not fail to construct.
abbrev pub settled : {W : Type 0} → Methods W → Phase → Phase
settled c starting = running
settled c stopping = stopped
settled c resuming = running
settled c pausing = if is_absent (c.pause) then stopped else paused
settled c p = p

-- The run ends in the phase.
abbrev pub EndsIn : {W : Type 0} → Phase → Option (Body W) → Type 0
EndsIn p none = ⊥
EndsIn p (some b) = b.phase ≡ p

module _ {W : Type 0} (c : Methods W) (passive : IsPassiveClass c) where
  notify_phase-phase : (p : Phase) (b : Body W) → (notify_phase c p b).phase ≡ b.phase
  unfolding notify_phase
  notify_phase-phase p b = elim (Option-cases (c.on_phase)) [
    | inl e ↦ rw (e, notify_phase) refl
    | inr (f, e) ↦ rw (e, notify_phase) (passive.notifies f e p b)
  ]

  set_plain_phase-phase :
      (p : Phase) (b : Body W) → same_phase b.phase p ≡ false → (set_plain_phase c p b).phase ≡ p
  unfolding set_plain_phase
  set_plain_phase-phase p b ne = rw ne (notify_phase-phase p (record b { phase = p }))

  pass_through-EndsIn :
      (o : Option (Body W → Body W)) (from to : Phase) (b : Body W)
      → HasMethod o
      → IsPassive o
      → b.phase ≡ from
      → same_phase from from ≡ true
      → same_phase from to ≡ false
      → EndsIn to (pass_through c o from to b)
  unfolding pass_through
  pass_through-EndsIn none from to b has p e same ne = has
  pass_through-EndsIn (some f) from to b has p e same ne =
      let q : (f b).phase ≡ from = p b ∙ e in
      let here : same_phase (f b).phase from ≡ true = ap (λ x. same_phase x from) q ∙ same in
      let there : same_phase (f b).phase to ≡ false = ap (λ x. same_phase x to) q ∙ ne in
      rw here (set_plain_phase-phase to (f b) there)

  notified-EndsIn :
      (p : Phase) (o : Option (Body W → Body W)) (b : Body W)
      → IsPassive o
      → (notify_phase c p (run_optional c o b)).phase ≡ b.phase
  notified-EndsIn p none b q = notify_phase-phase p b
  notified-EndsIn p (some f) b q = notify_phase-phase p (f b) ∙ q b

  module _ (has_start : HasMethod (c.start)) (has_stop : HasMethod (c.stop)) where
    set_stopping-EndsIn :
        (b : Body W) → same_phase b.phase stopping ≡ false → EndsIn stopped (set_stopping c b)
    unfolding set_stopping
    set_stopping-EndsIn b far = rw far (
        pass_through-EndsIn (c.stop) stopping stopped (record b { phase = stopping }) has_stop
          (passive.stops) refl refl refl)

    set_starting-EndsIn :
        (b : Body W) → same_phase b.phase starting ≡ false → EndsIn running (set_starting c b)
    unfolding set_starting
    set_starting-EndsIn b far = rw far (
        pass_through-EndsIn (c.start) starting running (record b { phase = starting }) has_start
          (passive.starts) refl refl refl)

    then_notified :
        (p q : Phase) (o : Option (Body W))
        → EndsIn q o
        → EndsIn q (elim o [ none ↦ none | some b ↦ some (notify_phase c p b) ])
    then_notified p q none h = h
    then_notified p q (some b) h = notify_phase-phase p b ∙ h

    on_pausing-EndsIn :
        (b : Body W)
        → b.phase ≡ pausing
        → EndsIn (if is_absent (c.pause) then stopped else paused) (on_pausing c b)
    unfolding on_pausing
    on_pausing-EndsIn b e = elim (Option-cases (c.pause)) [
      | inl h ↦
          let far : same_phase b.phase stopping ≡ false = ap (λ x. same_phase x stopping) e in
          rw (h, on_pausing)
            (then_notified pausing stopped (set_stopping c b) (set_stopping-EndsIn b far))
      | inr (f, h) ↦
          rw (h, on_pausing)
            (pass_through-EndsIn (some f) pausing paused b tt (rw h at (passive.pauses)) e refl
              refl)
    ]

    on_resuming-EndsIn : (b : Body W) → b.phase ≡ resuming → EndsIn running (on_resuming c b)
    unfolding on_resuming
    on_resuming-EndsIn b e = elim (Option-cases (c.resume)) [
      | inl h ↦ rw (h, on_resuming) (set_starting-EndsIn b (ap (λ x. same_phase x starting) e))
      | inr (f, h) ↦
          rw (h, on_resuming)
            (pass_through-EndsIn (some f) resuming running b tt (rw h at (passive.resumes)) e refl
              refl)
    ]

    module _
        (sound : (f : Body W → Bool × Body W)
          → c.construct ≡ some f
          → (b : Body W) → (f b).0 ≡ false) where
      on_constructing-phase :
          (b : Body W) → b.phase ≡ constructing → (on_constructing c b).phase ≡ constructing
      unfolding on_constructing
      on_constructing-phase b e = elim (Option-cases (c.construct)) [
        | inl h ↦ rw (h, on_constructing) (notify_phase-phase constructing b ∙ e)
        | inr (f, h) ↦
            rw (h, on_constructing, sound f h b)
              (notify_phase-phase constructing (f b).1 ∙ passive.constructs f h b ∙ e)
      ]

      change-EndsIn :
          (p : Phase) (b : Body W) → b.phase ≡ p → EndsIn (settled c p) (on_phase_change c p b)
      unfolding on_phase_change
      change-EndsIn enabled b e = notify_phase-phase enabled b ∙ e
      change-EndsIn constructing b e = on_constructing-phase b e
      change-EndsIn linking b e = notified-EndsIn linking (c.link) b (passive.links) ∙ e
      change-EndsIn starting b e =
          pass_through-EndsIn (c.start) starting running b has_start (passive.starts) e refl refl
      change-EndsIn calibrating b e = notify_phase-phase calibrating b ∙ e
      change-EndsIn preparing b e = notify_phase-phase preparing b ∙ e
      change-EndsIn running b e = notify_phase-phase running b ∙ e
      change-EndsIn requesting b e = notify_phase-phase requesting b ∙ e
      change-EndsIn responding b e = notify_phase-phase responding b ∙ e
      change-EndsIn working b e = notify_phase-phase working b ∙ e
      change-EndsIn idle b e = notify_phase-phase idle b ∙ e
      change-EndsIn busy b e = notify_phase-phase busy b ∙ e
      change-EndsIn resetting b e = notify_phase-phase resetting b ∙ e
      change-EndsIn pausing b e = on_pausing-EndsIn b e
      change-EndsIn paused b e = notify_phase-phase paused b ∙ e
      change-EndsIn resuming b e = on_resuming-EndsIn b e
      change-EndsIn stopping b e =
          pass_through-EndsIn (c.stop) stopping stopped b has_stop (passive.stops) e refl refl
      change-EndsIn stopped b e = notify_phase-phase stopped b ∙ e
      change-EndsIn disabled b e = notify_phase-phase disabled b ∙ e
      change-EndsIn destructing b e =
          notified-EndsIn destructing (c.destruct) b (passive.destructs) ∙ e

      -- A change of phase comes back and ends where it should, for a class with methods to start and
      -- stop, whose methods leave the phase alone and whose construction does not fail: starting and
      -- resuming end in running, stopping in stopped, pausing in paused or, without a method to pause,
      -- in stopped, and every other phase in itself.
      pub set_phase-EndsIn :
          (p : Phase) (b : Body W)
          → same_phase b.phase p ≡ false
          → EndsIn (settled c p) (set_phase c p b)
      unfolding set_phase
      set_phase-EndsIn p b far = rw far (change-EndsIn p (record b { phase = p }) refl)
