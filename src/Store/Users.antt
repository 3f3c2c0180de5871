-- ===== src/Store/Users.antt =====
-- The count of users of a shared buffer, over any number of receivers.
use mathlib.Core.Path.{fun_ext}
use stm32app.Base.{
  ℕ, zero, suc, ◌+◌, ◌-◌, ◌≤◌, ◌<◌, ◌≡◌, sym, ap, ◌∙◌, ◌≢◌, Option, some, none, false, List, [],
  ◌∷◌, arith, length, lt→ltb, All, ◌==◌, if◌then◌else◌,
}
use stm32app.Buffer.{Buffer, u8}
use stm32app.Store.{Store, System, put, reference, dereference, buffer_use, release, destroy}

pub put-put : (p : ℕ) (b c : Buffer) (s : Store) → put p b (put p c s) ≡ put p b s
put-put p b c s = ap (λ f. record s { buffers = f }) (fun_ext λ q. ground arith)

pub get-put : (p : ℕ) (b : Buffer) (s : Store) → (put p b s).buffers p ≡ b
get-put p b s = ground arith

pub put_self : (p : ℕ) (s : Store) → put p (s.buffers p) s ≡ s
put_self p s = ap (λ f. record s { buffers = f }) (fun_ext λ q. ground arith)

-- The store in which the buffer at `p` has `n` users.
abbrev pub counted : ℕ → ℕ → Store → Store
counted p n s = put p (record (s.buffers p) { users = n }) s

reference-counted : (p n : ℕ) (s : Store) → reference p (counted p n s) ≡ counted p (u8 (n + 1)) s
unfolding reference
reference-counted p n s = rw (get-put p (record (s.buffers p) { users = n }) s) (put-put p _ _ s)

dereference-counted :
    (p n : ℕ) (s : Store) → dereference p (counted p (suc n) s) ≡ some (counted p n s)
unfolding dereference
dereference-counted p n s =
    rw (get-put p (record (s.buffers p) { users = suc n }) s, lt→ltb 0 (suc n) (omega arith))
      (ap some (put-put p _ _ s ∙ ap (λ k. counted p k s) (omega arith)))

module _ (y : System) (p : ℕ) where
  unfoldable pub use_all : List ℕ → Store → Store
  use_all [] s = s
  use_all (actor ∷ actors) s = use_all actors (buffer_use y p actor s)

  unfoldable pub release_all : List ℕ → Store → Option Store
  release_all [] s = some s
  release_all (actor ∷ actors) s = elim (release y p actor s) [
    | none ↦ none
    | some s' ↦ release_all actors s'
  ]

  module _ (s : Store) (nz : p ≢ 0) where
    -- None of the actors owns the buffer.
    abbrev pub AreGuests : List ℕ → Type 0
    AreGuests actors = All (λ a. (s.buffers p).owner ≢ a) actors

    pub use-counted :
        (n actor : ℕ)
        → n < 255
        → (s.buffers p).owner ≢ actor
        → buffer_use y p actor (counted p n s) ≡ counted p (suc n) s
    unfolding buffer_use
    use-counted n actor lt ne =
        let e : u8 (n + 1) ≡ suc n = omega arith in
        rw (get-put p (record (s.buffers p) { users = n }) s)
          (ground (arith, reference-counted p n s, ap (λ k. counted p k s) e))

    pub release-counted :
        (n actor : ℕ)
        → (s.buffers p).owner ≢ actor
        → release y p actor (counted p (suc n) s)
          ≡ (if n == 0 then destroy y p (counted p 0 s) else some (counted p n s))
    unfolding release
    release-counted n actor ne = rw (get-put p (record (s.buffers p) { users = suc n }) s) (
        ground (arith, dereference-counted p n s, get-put p (record (s.buffers p) { users = n }) s))

    use_all-counted :
        (n : ℕ) (actors : List ℕ)
        → n + length actors ≤ 255
        → AreGuests actors
        → use_all actors (counted p n s) ≡ counted p (n + length actors) s
    unfolding use_all
    use_all-counted n [] le g = ap (λ k. counted p k s) (omega arith)
    use_all-counted n (actor ∷ actors) le g =
        let e : suc n + length actors ≡ n + suc (length actors) = omega arith in
        rw (use-counted n actor (omega arith) g.0)
          (use_all-counted (suc n) actors (omega arith) g.1 ∙ ap (λ k. counted p k s) e)

    -- Some users are left.
    release_all-counted :
        (n : ℕ) (actors : List ℕ)
        → length actors < n
        → AreGuests actors
        → release_all actors (counted p n s) ≡ some (counted p (n - length actors) s)
    unfolding release_all
    release_all-counted n [] lt g = ap (λ k. some (counted p k s)) (omega arith)
    release_all-counted zero (actor ∷ actors) lt g = absurd (omega arith)
    release_all-counted (suc zero) (actor ∷ actors) lt g = absurd (omega arith)
    release_all-counted (suc (suc n)) (actor ∷ actors) lt g =
        let e : suc n - length actors ≡ suc (suc n) - suc (length actors) = omega arith in
        let more : (suc n == 0) ≡ false = ground arith in
        rw (release-counted (suc n) actor g.0, more, release_all)
          (release_all-counted (suc n) actors (omega arith) g.1 ∙ ap (λ k. some (counted p k s)) e)

    taken :
        (takers leavers : List ℕ)
        → (s.buffers p).users ≡ 0
        → length takers ≤ 255
        → AreGuests takers
        → release_all leavers (use_all takers s) ≡ release_all leavers (counted p (length takers) s)
    taken takers leavers z le g =
        ap (λ t. release_all leavers (use_all takers t))
          (sym (ap (λ k. counted p k s) (sym z) ∙ put_self p s))
        ∙ ap (release_all leavers)
            (use_all-counted 0 takers (omega arith) g ∙ ap (λ k. counted p k s) (omega arith))

    -- A buffer that nobody uses yet, taken up by at most 255 receivers other than its owner, outlives
    -- any smaller number of releases, with a count of the receivers that are left and nothing else
    -- changed.
    pub shared_alive :
        (takers leavers : List ℕ)
        → (s.buffers p).users ≡ 0
        → length takers ≤ 255
        → AreGuests takers
        → AreGuests leavers
        → length leavers < length takers
        → release_all leavers (use_all takers s)
          ≡ some (counted p (length takers - length leavers) s)
    shared_alive takers leavers z le gt gl lt =
        taken takers leavers z le gt ∙ release_all-counted (length takers) leavers lt gl

    -- A buffer that nobody uses yet, taken up by at most 255 receivers other than its owner, is
    -- destroyed by as many releases by such receivers, at the last one and as it was at the start.
    pub shared_destroyed :
        (takers leavers : List ℕ) (last : ℕ)
        → (s.buffers p).users ≡ 0
        → length takers ≤ 255
        → AreGuests takers
        → AreGuests leavers
        → (s.buffers p).owner ≢ last
        → length takers ≡ suc (length leavers)
        → (elim (release_all leavers (use_all takers s)) [
          | none ↦ none
          | some s' ↦ release y p last s'
        ])
          ≡ destroy y p s
    shared_destroyed takers leavers last z le gt gl nl e =
        let one : length takers - length leavers ≡ 1 = omega arith in
        rw (
          shared_alive takers leavers z le gt gl (omega arith),
          one,
          release-counted 0 last nl,
          z_store,
        )
      where
        z_store : counted p 0 s ≡ s
        z_store = ap (λ k. counted p k s) (sym z) ∙ put_self p s
