-- ===== src/Event/Life.antt =====
-- The life of an event: how often it claims the buffer that it carries, and that it lets go of it.
use stm32app.Base.{
  ℕ, zero, suc, ◌<◌, ◌≡◌, refl, ◌≢◌, Option, some, none, arith, ◌==◌, if◌then◌else◌, false,
}
use stm32app.Signal.{waiting, handled, deferred}
use stm32app.Buffer.{dynamic_size}
use stm32app.Store.{Store, System, destroy}
use stm32app.Store.Users.{counted, use-counted, release-counted}
use stm32app.Event.{
  Event, is_deferred, is_idle, is_alarm, zero_event, claim, set_shared_status, set_status,
  accept_and_process, finalize,
}

module _ (y : System) (actor : ℕ) where
  -- The event after the actor has put it off `k` times.
  unfoldable pub put_off : ℕ → Event → Store → Option (Event × Store)
  put_off zero e s = some (e, s)
  put_off (suc k) e s = elim (set_status y actor e deferred s) [
    | none ↦ none
    | some (e', s') ↦ put_off k e' s'
  ]

  module _ (e : Event) (s : Store) (n : ℕ) (carries : e.size ≡ dynamic_size) (nz : e.payload ≢ 0)
      (guest : (s.buffers e.payload).owner ≢ actor) where
    shared : ℕ → Store
    shared k = counted e.payload k s

    put_off_again :
        (k : ℕ)
        → put_off k (record e { status = deferred; consumer = actor }) (shared n)
          ≡ some (record e { status = deferred; consumer = actor }, shared n)
    unfolding put_off set_status set_shared_status claim
    put_off_again zero = refl
    put_off_again (suc k) = ground (arith, put_off_again k)

    -- One status that keeps the event, on an event that is not deferred yet.
    first_claim :
        n < 255 → is_deferred e.status ≡ false → claim y actor e (shared n) ≡ shared (suc n)
    unfolding claim shared
    first_claim lt fresh = rw fresh (use-counted y e.payload s nz n actor lt guest)

    put_off_first :
        (k : ℕ)
        → n < 255
        → is_deferred e.status ≡ false
        → put_off (suc k) e (shared n)
          ≡ put_off k (record e { status = deferred; consumer = actor }) (shared (suc n))
    unfolding put_off set_status set_shared_status
    put_off_first k lt fresh = ground (arith, first_claim lt fresh)

-- The weak definition of the report callback: nothing happens.
abbrev pub no_report : ℕ → Event → Store → Event × Store
no_report _ e s = (e, s)

module _ (y : System) (actor : ℕ) (e : Event) (s : Store) (n : ℕ) (carries : e.size ≡ dynamic_size)
    (nz : e.payload ≢ 0) (guest : (s.buffers e.payload).owner ≢ actor) (lt : n < 255)
    (fresh : is_deferred e.status ≡ false) where
  abbrev kept : Store
  kept = counted e.payload (suc n) s

  -- However often a guest puts an event off before it takes it, the event's buffer gains one user.
  -- The event is not deferred at first, the buffer has less than 255 users, and a guest is an actor
  -- that does not own it.
  pub claims_once :
      (k : ℕ)
      → (elim (put_off y actor k e (counted e.payload n s)) [
        | none ↦ none
        | some (e', s') ↦ set_status y actor e' handled s'
      ])
        ≡ some (record e { status = handled; consumer = actor }, counted e.payload (suc n) s)
  unfolding set_status set_shared_status put_off claim shared
  claims_once zero = ground (arith, use-counted y e.payload s nz n actor lt guest)
  claims_once (suc k) =
      rw
        (
          put_off_first y actor e s n carries nz guest k lt fresh,
          put_off_again y actor e s (suc n) carries nz guest k,
        )
        (ground arith)

  after_taking : Option (Event × Store) → Option (Event × Store)
  after_taking o = elim o [
    | none ↦ none
    | some (e', s') ↦
        elim (accept_and_process y actor e' (some zero_event) handled deferred none s') [
          | none ↦ none
          | some a ↦ finalize y no_report actor a.slot a.store
        ]
  ]

  ended : Option (Event × Store)
  ended =
      if n == 0
      then elim (destroy y e.payload (counted e.payload 0 s)) [
        | none ↦ none
        | some s' ↦ some (zero_event, s')
      ]
      else some (zero_event, counted e.payload n s)

  finalize-kept :
      is_idle e.type ≡ false
      → is_alarm e.type ≡ false
      → finalize y no_report actor (record e { status = handled; consumer = actor }) kept ≡ ended
  unfolding finalize set_status set_shared_status ended
  finalize-kept not_idle not_alarm = ground (arith, release-counted y e.payload s nz n actor guest)

  joined :
      (o : Option (Event × Store))
      → is_idle e.type ≡ false
      → is_alarm e.type ≡ false
      → (elim o [ none ↦ none | some (e', s') ↦ set_status y actor e' handled s' ])
        ≡ some (record e { status = handled; consumer = actor }, kept)
      → after_taking o ≡ ended
  unfolding after_taking accept_and_process
  joined none ni na h = cc
  joined (some (e', s')) ni na h = rw (h, after_taking, accept_and_process) (finalize-kept ni na)

  -- A guest that puts an event with a buffer off any number of times, takes it into an idle slot
  -- and finalizes it leaves the slot idle and the buffer as it found it; where nobody else uses it,
  -- it is destroyed. The event is neither idle nor an alarm and not deferred at first, the buffer
  -- has less than 255 users, and the report to the producer changes nothing.
  pub taken_and_finalized :
      (k : ℕ)
      → is_idle e.type ≡ false
      → is_alarm e.type ≡ false
      → (elim (put_off y actor k e (counted e.payload n s)) [
        | none ↦ none
        | some (e', s') ↦
            elim (accept_and_process y actor e' (some zero_event) handled deferred none s') [
              | none ↦ none
              | some a ↦ finalize y no_report actor a.slot a.store
            ]
      ])
        ≡ (if n == 0
            then elim (destroy y e.payload (counted e.payload 0 s)) [
              | none ↦ none
              | some s' ↦ some (zero_event, s')
            ]
            else some (zero_event, counted e.payload n s))
  unfolding after_taking ended
  taken_and_finalized k not_idle not_alarm =
      joined (put_off y actor k e (counted e.payload n s)) not_idle not_alarm (claims_once k)

  -- An event with a buffer whose status is reset between its deferral and its handling, as when it
  -- moves to another thread's queue, counts the same guest twice. The event is not deferred at
  -- first and the buffer has less than 254 users.
  pub reset_claims_twice :
      n < 254
      → (elim (set_status y actor e deferred (counted e.payload n s)) [
        | none ↦ none
        | some (e', s') ↦ set_status y actor (record e' { status = waiting }) handled s'
      ])
        ≡ some (record e { status = handled; consumer = actor }, counted e.payload (suc (suc n)) s)
  unfolding set_status set_shared_status claim
  reset_claims_twice lt' = ground (
    arith,
    use-counted y e.payload s nz n actor lt guest,
    use-counted y e.payload s nz (suc n) actor (omega arith) guest,
  )
