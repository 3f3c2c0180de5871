-- ===== src/Timer/Slots.antt =====
-- The slots of a timer as a map from pairs of an actor and an argument to deadlines.
use stm32app.Base.{
  ℕ, suc, ◌+◌, ◌≡◌, ◌≢◌, ◌⊎◌, inl, inr, refl, Bool, false, ◌&&◌, Option, none, some, List, [], ◌∷◌,
  get_elem?, ◌==◌, if◌then◌else◌, arith, Bool-cases, some-inj, none-ne_some, some-ne_none, All,
}
use stm32app.Timer.{Subscription, find_slot, first_free}

abbrev pub matches : Subscription → ℕ → ℕ → Bool
matches s a g = (s.actor == a) && (s.argument == g)

-- The deadline of a pair, whose first slot counts.
abbrev pub deadline : List Subscription → ℕ → ℕ → Option ℕ
deadline [] a g = none
deadline (s ∷ ss) a g = if matches s a g then some s.time else deadline ss a g

-- No pair has two slots.
abbrev pub IsUnique : List Subscription → Type 0
IsUnique [] = Unit
IsUnique (s ∷ ss) = (s.actor ≢ 0 → deadline ss s.actor s.argument ≡ none) × IsUnique ss

-- A slot that `timer_get_subscription` may give: the pair's own, or a free one if it has none.
abbrev pub IsSlotFor : ℕ → ℕ → List Subscription → ℕ → Type 0
IsSlotFor a g ss j =
    (old : Subscription) × (get_elem? ss j ≡ some old)
    × (((old.actor ≡ a) × (old.argument ≡ g)) ⊎ ((old.actor ≡ 0) × (deadline ss a g ≡ none)))

-- The same for the rest of the loop: it ends at a slot of the rest, or at the free one seen before.
abbrev IsFoundFrom : ℕ → ℕ → ℕ → Option ℕ → List Subscription → Option ℕ → Type 0
IsFoundFrom a g i free ss none = (free ≡ none) × (deadline ss a g ≡ none)
IsFoundFrom a g i free ss (some k) =
    ((free ≡ some k) × (deadline ss a g ≡ none)) ⊎ ((j : ℕ) × (k ≡ i + j) × IsSlotFor a g ss j)

IsFoundFrom-cons :
    (a g i : ℕ) (free : Option ℕ) (s : Subscription) (ss : List Subscription) (r : Option ℕ)
    → matches s a g ≡ false
    → IsFoundFrom a g (suc i) free ss r
    → IsFoundFrom a g i free (s ∷ ss) r
IsFoundFrom-cons a g i free s ss none m h = ground (arith, h, m)
IsFoundFrom-cons a g i free s ss (some k) m (inl h) = inl (ground (arith, h, m))
IsFoundFrom-cons a g i free s ss (some k) m (inr (j, e, (old, at, inl own))) =
    inr (suc j, omega arith, (old, at, inl own))
IsFoundFrom-cons a g i free s ss (some k) m (inr (j, e, (old, at, inr (zeroed, absent)))) =
    inr (suc j, omega arith, (old, at, inr (zeroed, ground (arith, absent, m))))

IsFoundFrom-free :
    (a g i : ℕ) (s : Subscription) (ss : List Subscription) (r : Option ℕ)
    → matches s a g ≡ false
    → s.actor ≡ 0
    → IsFoundFrom a g (suc i) (some i) ss r
    → IsFoundFrom a g i none (s ∷ ss) r
IsFoundFrom-free a g i s ss none m z h = absurd (some-none h)
  where
    some-none : (some i ≡ none) × (deadline ss a g ≡ none) → ⊥
    some-none (e, d) = cc
IsFoundFrom-free a g i s ss (some k) m z (inl (e, d)) =
    inr (0, omega (arith, some-inj i k e), (s, refl, inr (z, ground (arith, m, d))))
IsFoundFrom-free a g i s ss (some k) m z (inr h) =
    IsFoundFrom-cons a g i none s ss (some k) m (inr h)

IsFoundFrom-unmatched :
    (a g i : ℕ) (free : Option ℕ) (s : Subscription) (ss : List Subscription) (r : Option ℕ)
    → matches s a g ≡ false
    → s.actor ≡ 0
    → IsFoundFrom a g (suc i) (first_free i free) ss r
    → IsFoundFrom a g i free (s ∷ ss) r
IsFoundFrom-unmatched a g i none s ss r m z h = IsFoundFrom-free a g i s ss r m z h
IsFoundFrom-unmatched a g i (some f) s ss r m z h = IsFoundFrom-cons a g i (some f) s ss r m h

find_slot-IsFoundFrom :
    (a g i : ℕ) (free : Option ℕ) (ss : List Subscription)
    → IsFoundFrom a g i free ss (find_slot a g i free ss)
unfolding find_slot
find_slot-IsFoundFrom a g i none [] = (refl, refl)
find_slot-IsFoundFrom a g i (some f) [] = inl (refl, refl)
find_slot-IsFoundFrom a g i free (s ∷ ss) = elim (Bool-cases (matches s a g)) [
  | inl e ↦ rw e (inr (0, omega arith, (s, refl, inl (ground (arith, e)))))
  | inr m ↦ elim (Bool-cases (s.actor == 0)) [
    | inr used ↦
        rw (m, used)
          (IsFoundFrom-cons a g i free s ss _ m (find_slot-IsFoundFrom a g (suc i) free ss))
    | inl z ↦
        rw (m, z)
          (IsFoundFrom-unmatched a g i free s ss _ m (ground (arith, z))
            (find_slot-IsFoundFrom a g (suc i) (first_free i free) ss))
  ]
]

-- What a slot means after a write, for a slot that the write may fill.
pub find_slot-IsSlotFor :
    (a g k : ℕ) (ss : List Subscription) → find_slot a g 0 none ss ≡ some k → IsSlotFor a g ss k
find_slot-IsSlotFor a g k ss e = go (rw e at (find_slot-IsFoundFrom a g 0 none ss))
  where
    go : IsFoundFrom a g 0 none ss (some k) → IsSlotFor a g ss k
    go (inl (f, d)) = absurd (none-ne_some k f)
    go (inr (j, e', slot)) = let same : j ≡ k = omega arith in rw (← same) slot

pub find_slot-absent :
    (a g : ℕ) (ss : List Subscription) → find_slot a g 0 none ss ≡ none → deadline ss a g ≡ none
find_slot-absent a g ss e = (rw e at (find_slot-IsFoundFrom a g 0 none ss)).1

-- Without a slot for the pair, every slot is in use.
abbrev pub IsFull : List Subscription → Type 0
IsFull ss = All (λ s. s.actor ≢ 0) ss

find_slot-keeps : (a g i f : ℕ) (ss : List Subscription) → find_slot a g i (some f) ss ≢ none
unfolding find_slot
find_slot-keeps a g i f [] e = cc
find_slot-keeps a g i f (s ∷ ss) e = elim (Bool-cases (matches s a g)) [
  | inl m ↦ some-ne_none i (rw m at e)
  | inr m ↦ elim (Bool-cases (s.actor == 0)) [
    | inl z ↦ find_slot-keeps a g (suc i) f ss (rw (m, z) at e)
    | inr used ↦ find_slot-keeps a g (suc i) f ss (rw (m, used) at e)
  ]
]

pub find_slot-IsFull :
    (a g i : ℕ) (ss : List Subscription) → find_slot a g i none ss ≡ none → IsFull ss
unfolding find_slot
find_slot-IsFull a g i [] e = tt
find_slot-IsFull a g i (s ∷ ss) e = elim (Bool-cases (matches s a g)) [
  | inl m ↦ absurd (some-ne_none i (rw m at e))
  | inr m ↦ elim (Bool-cases (s.actor == 0)) [
    | inl z ↦ absurd (find_slot-keeps a g (suc i) i ss (rw (m, z) at e))
    | inr used ↦ (ground (arith, used), find_slot-IsFull a g (suc i) ss (rw (m, used) at e))
  ]
]
