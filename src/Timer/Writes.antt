-- ===== src/Timer/Writes.antt =====
-- What a write to one slot does to the deadlines of all pairs.
use stm32app.Base.{
  ℕ, zero, suc, ◌≡◌, ◌≢◌, ◌⊎◌, inl, inr, refl, false, ◌&&◌, none, some, List, [], ◌∷◌, get_elem?,
  set, ◌==◌, arith, Bool-cases, some-inj, none-ne_some, ap, sym, ◌∙◌,
}
use stm32app.Timer.{Subscription, free_slot}
use stm32app.Timer.Slots.{matches, deadline, IsUnique, IsSlotFor}

pub deadline-set-none :
    (ss : List Subscription) (j a g : ℕ) (new : Subscription)
    → deadline ss a g ≡ none
    → matches new a g ≡ false
    → deadline (set ss j new) a g ≡ none
deadline-set-none [] j a g new d m = refl
deadline-set-none (s ∷ ss) zero a g new d m = ground (arith, d, m)
deadline-set-none (s ∷ ss) (suc j) a g new d m =
    ground (arith, deadline-set-none ss j a g new, d, m)

pub deadline-set_other :
    (ss : List Subscription) (j a g : ℕ) (old new : Subscription)
    → get_elem? ss j ≡ some old
    → matches old a g ≡ false
    → matches new a g ≡ false
    → deadline (set ss j new) a g ≡ deadline ss a g
deadline-set_other [] j a g old new e m n = refl
deadline-set_other (s ∷ ss) zero a g old new e m n = rw (n, (rw (← some-inj s old e) at m)) refl
deadline-set_other (s ∷ ss) (suc j) a g old new e m n =
    ground (arith, deadline-set_other ss j a g old new e m n)

-- A pair that has a slot has a deadline.
deadline-get_elem? :
    (ss : List Subscription) (j : ℕ) (s : Subscription)
    → get_elem? ss j ≡ some s
    → deadline ss s.actor s.argument ≢ none
deadline-get_elem? [] j s e d = absurd (none-ne_some s e)
deadline-get_elem? (x ∷ ss) zero s e d = ground (
  arith,
  ap (λ (z : Subscription). z.actor) (some-inj x s e),
  ap (λ (z : Subscription). z.argument) (some-inj x s e),
)
deadline-get_elem? (x ∷ ss) (suc j) s e d = deadline-get_elem? ss j s e (ground (arith, d))

deadline-cons_none :
    (s : Subscription) (ss : List Subscription) (a g : ℕ)
    → deadline (s ∷ ss) a g ≡ none
    → (matches s a g ≡ false) × (deadline ss a g ≡ none)
deadline-cons_none s ss a g d = ground (arith, d)

-- The slots behind one with an actor are for other pairs.
matches-tail :
    (s : Subscription) (ss : List Subscription) (j a g : ℕ) (old : Subscription)
    → a ≢ 0
    → IsUnique (s ∷ ss)
    → get_elem? ss j ≡ some old
    → old.actor ≡ a
    → old.argument ≡ g
    → matches s a g ≡ false
matches-tail s ss j a g old u (first, uniq) at ea eg =
    let present : deadline ss a g ≢ none = rw (← ea, ← eg) (deadline-get_elem? ss j old at) in
    elim (Bool-cases (matches s a g)) [
      | inr m ↦ m
      | inl m ↦
          let sa : s.actor ≡ a = ground (arith, m) in
          let sg : s.argument ≡ g = ground (arith, m) in absurd (present (rw (sa, sg) at first u))
    ]

matches_sym :
    (s t : Subscription)
    → matches s t.actor t.argument ≡ false
    → matches t s.actor s.argument ≡ false
matches_sym s t m = ground (arith, m)

-- The slot of a pair is not the head's when it lies behind it, and is the pair's slot in the tail.
IsSlotFor-tail :
    (s : Subscription) (ss : List Subscription) (j a g : ℕ)
    → a ≢ 0
    → IsUnique (s ∷ ss)
    → IsSlotFor a g (s ∷ ss) (suc j)
    → (matches s a g ≡ false) × IsSlotFor a g ss j
IsSlotFor-tail s ss j a g u uniq (old, at, inl (ea, eg)) =
    (matches-tail s ss j a g old u uniq at ea eg, (old, at, inl (ea, eg)))
IsSlotFor-tail s ss j a g u uniq (old, at, inr (z, d)) =
    let (m, d') = deadline-cons_none s ss a g d in (m, (old, at, inr (z, d')))

IsSlotFor-head :
    (s : Subscription) (ss : List Subscription) (a g : ℕ)
    → a ≢ 0
    → IsUnique (s ∷ ss)
    → IsSlotFor a g (s ∷ ss) 0
    → deadline ss a g ≡ none
IsSlotFor-head s ss a g u (first, uniq) (old, at, inl (ea, eg)) =
    let sa : s.actor ≡ a = ap (λ (z : Subscription). z.actor) (some-inj s old at) ∙ ea in
    let sg : s.argument ≡ g = ap (λ (z : Subscription). z.argument) (some-inj s old at) ∙ eg in
    rw (← sa, ← sg) (first (λ e. u (sym sa ∙ e)))
IsSlotFor-head s ss a g u uniq (old, at, inr (z, d)) = (deadline-cons_none s ss a g d).1

-- Setting a slot of a pair, or a free one where the pair has none, gives the pair its deadline.
pub deadline-set_self :
    (ss : List Subscription) (j : ℕ) (new : Subscription)
    → new.actor ≢ 0
    → IsUnique ss
    → IsSlotFor new.actor new.argument ss j
    → deadline (set ss j new) new.actor new.argument ≡ some new.time
deadline-set_self [] j new u uniq (old, at, why) = absurd (none-ne_some old at)
deadline-set_self (s ∷ ss) zero new u uniq slot = ground arith
deadline-set_self (s ∷ ss) (suc j) new u uniq slot =
    let (m, slot') = IsSlotFor-tail s ss j new.actor new.argument u uniq slot in
    rw m (deadline-set_self ss j new u uniq.1 slot')

-- Freeing the slot of a pair takes its deadline away.
pub deadline-set_free :
    (ss : List Subscription) (j a g : ℕ)
    → a ≢ 0
    → IsUnique ss
    → IsSlotFor a g ss j
    → deadline (set ss j free_slot) a g ≡ none
deadline-set_free [] j a g u uniq slot = refl
deadline-set_free (s ∷ ss) zero a g u uniq slot =
    ground (arith, IsSlotFor-head s ss a g u uniq slot)
deadline-set_free (s ∷ ss) (suc j) a g u uniq slot =
    let (m, slot') = IsSlotFor-tail s ss j a g u uniq slot in
    rw m (deadline-set_free ss j a g u uniq.1 slot')

-- Other pairs keep their deadlines.
pub deadline-set_kept :
    (ss : List Subscription) (j a g b c : ℕ) (new : Subscription)
    → b ≢ 0
    → IsSlotFor a g ss j
    → ((a == b) && (g == c)) ≡ false
    → matches new b c ≡ false
    → deadline (set ss j new) b c ≡ deadline ss b c
deadline-set_kept ss j a g b c new u (old, at, why) apart n =
    deadline-set_other ss j b c old new at (go why) n
  where
    go :
        (((old.actor ≡ a) × (old.argument ≡ g)) ⊎ ((old.actor ≡ 0) × (deadline ss a g ≡ none)))
        → matches old b c ≡ false
    go (inl (ea, eg)) = rw (ea, eg) apart
    go (inr (z, d)) = ground arith

-- The pairs stay unique.
pub IsUnique-set_free :
    (ss : List Subscription) (j : ℕ) → IsUnique ss → IsUnique (set ss j free_slot)
IsUnique-set_free [] j uniq = tt
IsUnique-set_free (s ∷ ss) zero (first, uniq) = (λ u. absurd (u refl), uniq)
IsUnique-set_free (s ∷ ss) (suc j) (first, uniq) = (
  λ u. deadline-set-none ss j s.actor s.argument free_slot (first u) (ground arith),
  IsUnique-set_free ss j uniq,
)

pub IsUnique-set :
    (ss : List Subscription) (j : ℕ) (new : Subscription)
    → new.actor ≢ 0
    → IsUnique ss
    → IsSlotFor new.actor new.argument ss j
    → IsUnique (set ss j new)
IsUnique-set [] j new u uniq slot = tt
IsUnique-set (s ∷ ss) zero new u (first, uniq) slot =
    (λ _. IsSlotFor-head s ss new.actor new.argument u (first, uniq) slot, uniq)
IsUnique-set (s ∷ ss) (suc j) new u (first, uniq) slot =
    let (m, slot') = IsSlotFor-tail s ss j new.actor new.argument u (first, uniq) slot in
    (
      λ v. deadline-set-none ss j s.actor s.argument new (first v) (matches_sym s new m),
      IsUnique-set ss j new u uniq slot',
    )
