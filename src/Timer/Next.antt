-- ===== src/Timer/Next.antt =====
-- The slot that `timer_get_next_subscription` gives.
use stm32app.Base.{
  ℕ, suc, ◌-◌, ◌≤◌, ◌<◌, ◌^◌, ◌≡◌, ◌≢◌, inl, inr, refl, ◌⊎◌, Option, none, some, List, [], ◌∷◌,
  get_elem?, ltb, ◌==◌, arith, Bool-cases, All, some-inj, none-ne_some, some-ne_none,
}
use stm32app.Timer.{Subscription, Timer, word_sub, signed_rank, closest_from, get_next_subscription}

abbrev pub rank_from : ℕ → Subscription → ℕ
rank_from next_time s = signed_rank (word_sub s.time next_time)

-- Every slot in use is at least as far from `next_time` as `d`.
abbrev pub IsBound : ℕ → ℕ → List Subscription → Type 0
IsBound next_time d ss = All (λ s. s.actor ≢ 0 → d ≤ rank_from next_time s) ss

-- The first of the closest slots in use; if none is given, no slot in use is closer than `d`.
abbrev pub IsNearest : ℕ → ℕ → List Subscription → Option Subscription → Type 0
IsNearest next_time d ss none = IsBound next_time d ss
IsNearest next_time d ss (some s) =
    ((i : ℕ) × (get_elem? ss i ≡ some s))
    × (s.actor ≢ 0)
    × (rank_from next_time s < d)
    × IsBound next_time (rank_from next_time s) ss

abbrev IsBest : ℕ → ℕ → Option Subscription → List Subscription → Option Subscription → Type 0
IsBest next_time d result ss r =
    ((r ≡ result) × IsBound next_time d ss)
    ⊎ ((s : Subscription) × (r ≡ some s) × IsNearest next_time d ss (some s))

IsBest-skip :
    (next_time d : ℕ) (result : Option Subscription) (s : Subscription) (ss : List Subscription)
    (r : Option Subscription)
    → (s.actor ≢ 0 → d ≤ rank_from next_time s)
    → IsBest next_time d result ss r
    → IsBest next_time d result (s ∷ ss) r
IsBest-skip next_time d result s ss r far (inl (e, bound)) = inl (e, (far, bound))
IsBest-skip next_time d result s ss r far (inr (x, e, ((i, at), used, closer, bound))) =
    inr (x, e, ((suc i, at), used, closer, ((λ v. omega (arith, far v)), bound)))

IsBest-take :
    (next_time d : ℕ) (result : Option Subscription) (s : Subscription) (ss : List Subscription)
    (r : Option Subscription)
    → s.actor ≢ 0
    → rank_from next_time s < d
    → IsBest next_time (rank_from next_time s) (some s) ss r
    → IsBest next_time d result (s ∷ ss) r
IsBest-take next_time d result s ss r used closer (inl (e, bound)) =
    inr (s, e, ((0, refl), used, closer, ((λ v. omega arith), bound)))
IsBest-take next_time d result s ss r used closer (inr (x, e, ((i, at), used', closer', bound))) =
    inr (x, e, ((suc i, at), used', omega arith, ((λ v. omega arith), bound)))

closest_from-IsBest :
    (next_time d : ℕ) (result : Option Subscription) (ss : List Subscription)
    → IsBest next_time d result ss (closest_from next_time d result ss)
unfolding closest_from
closest_from-IsBest next_time d result [] = inl (refl, tt)
closest_from-IsBest next_time d result (s ∷ ss) = elim (Bool-cases (s.actor == 0)) [
  | inl z ↦ rw z (
      IsBest-skip next_time d result s ss _ (λ v. absurd (v (ground (arith, z))))
        (closest_from-IsBest next_time d result ss))
  | inr used ↦ elim (Bool-cases (ltb (rank_from next_time s) d)) [
    | inl closer ↦
        rw (used, closer)
          (IsBest-take next_time d result s ss _ (ground (arith, used)) (ground (arith, closer))
            (closest_from-IsBest next_time (rank_from next_time s) (some s) ss))
    | inr further ↦
        rw (used, further)
          (IsBest-skip next_time d result s ss _ (λ v. ground (arith, further))
            (closest_from-IsBest next_time d result ss))
  ]
]

IsNearest-best :
    (next_time d : ℕ) (ss : List Subscription) (r : Option Subscription)
    → IsBest next_time d none ss r
    → IsNearest next_time d ss r
IsNearest-best next_time d ss none (inl (e, bound)) = bound
IsNearest-best next_time d ss none (inr (s, e, near)) = absurd (none-ne_some s e)
IsNearest-best next_time d ss (some s) (inl (e, bound)) = absurd (some-ne_none s e)
IsNearest-best next_time d ss (some s) (inr (x, e, near)) = rw (some-inj s x e) near

-- `timer_get_next_subscription` gives a slot in use such that no slot in use is closer to
-- `next_time`, in signed arithmetic of 32 bits; NULL only if every slot in use is at the distance of
-- INT_MAX.
pub get_next_subscription-IsNearest :
    {R : Type 0} (t : Timer R)
    → IsNearest t.next_time (2 ^ 32 - 1) t.subscriptions (get_next_subscription t)
unfolding get_next_subscription
get_next_subscription-IsNearest t =
    IsNearest-best t.next_time (2 ^ 32 - 1) t.subscriptions _
      (closest_from-IsBest t.next_time (2 ^ 32 - 1) none t.subscriptions)
