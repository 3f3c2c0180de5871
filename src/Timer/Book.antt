-- ===== src/Timer/Book.antt =====
-- What a timer promises its callers: a map from pairs of an actor and an argument to deadlines, and
-- what each request may do to it.
use stm32app.Base.{
  ℕ, ◌+◌, ◌%◌, ◌^◌, ◌≡◌, ◌≢◌, ◌⊎◌, inl, inr, refl, Bool, true, false, ◌&&◌, Option, none, some,
  List, set, ◌==◌, if◌then◌else◌, arith, Bool-cases,
}
use stm32app.Timer.{Subscription, Timer, free_slot, find_slot}
use stm32app.Timer.Slots.{
  matches, deadline, IsUnique, IsSlotFor, find_slot-IsSlotFor, find_slot-absent,
}
use stm32app.Timer.Writes.{deadline-set_free, deadline-set_kept, IsUnique-set_free}
use stm32app.Timer.Alarms.{expire}

-- What callers ask of a timer, and the interrupt.
pub data Request : Type 0 where
  set_alarm : (actor argument delay : ℕ) → Request
  clear_alarm : (actor argument : ℕ) → Request
  tick : Request

-- The abstract view.
abbrev pub Book : Type 0
Book = ℕ → ℕ → Option ℕ

abbrev pub Same : Book → Book → Type 0
Same x y = (a g : ℕ) → a ≢ 0 → x a g ≡ y a g

abbrev pub put : ℕ → ℕ → Option ℕ → Book → Book
put a g d x b c = if (a == b) && (g == c) then d else x b c

-- Time passes: nothing happens, or every deadline whose time has come goes.
abbrev pub IsPassage : ℕ → Book → Book → Type 0
IsPassage now x y = Same y x ⊎ Same y (λ a g. expire now (x a g))

-- What a request may do to the map. An alarm is set after the
-- passage of time; it is refused only to a pair without one, and where `Full` holds.
abbrev pub IsAllowed : ℕ → Type 0 → Request → Bool → Book → Book → Type 0
IsAllowed now Full (set_alarm a g delay) done x y =
    (m : Book) × IsPassage now x m
    × (((done ≡ true) × Same y (put a g (some ((now + delay) % 2 ^ 32)) m))
        ⊎ ((done ≡ false) × Same y m × (m a g ≡ none) × Full))
IsAllowed now Full (clear_alarm a g) done x y = (done ≡ true) × Same y (put a g none x)
IsAllowed now Full tick done x y = (done ≡ true) × IsPassage now x y

abbrev pub HasActor : Request → Type 0
HasActor (set_alarm a g delay) = a ≢ 0
HasActor (clear_alarm a g) = a ≢ 0
HasActor tick = Unit

abbrev pub deadlines : {R : Type 0} → Timer R → Book
deadlines t = deadline t.subscriptions

-- The slots of which one, if any, is freed.
abbrev pub without : Option ℕ → List Subscription → List Subscription
without none ss = ss
without (some k) ss = set ss k free_slot

-- A write to the slot of a pair.
pub put_slot :
    (ss : List Subscription) (k a g : ℕ) (new : Subscription) (d : Option ℕ)
    → a ≢ 0
    → IsSlotFor a g ss k
    → deadline (set ss k new) a g ≡ d
    → ((b c : ℕ) → b ≢ 0 → ((a == b) && (g == c)) ≡ false → matches new b c ≡ false)
    → Same (deadline (set ss k new)) (put a g d (deadline ss))
put_slot ss k a g new d u slot own apart b c v = elim (Bool-cases ((a == b) && (g == c))) [
  | inl e ↦
      let ab : a ≡ b = ground (arith, e) in
      let gc : g ≡ c = ground (arith, e) in rw e (rw (ab, gc) at own)
  | inr e ↦ rw e (deadline-set_kept ss k a g b c new v slot e (apart b c v e))
]

put_absent :
    (ss : List Subscription) (a g : ℕ)
    → deadline ss a g ≡ none
    → Same (deadline ss) (put a g none (deadline ss))
put_absent ss a g d b c v = elim (Bool-cases ((a == b) && (g == c))) [
  | inl e ↦
      let ab : a ≡ b = ground (arith, e) in
      let gc : g ≡ c = ground (arith, e) in rw e (rw (ab, gc) at d)
  | inr e ↦ rw e refl
]

pub without-Clears :
    (ss : List Subscription) (a g : ℕ) (r : Option ℕ)
    → a ≢ 0
    → IsUnique ss
    → find_slot a g 0 none ss ≡ r
    → IsUnique (without r ss) × Same (deadline (without r ss)) (put a g none (deadline ss))
without-Clears ss a g none u uniq e = (uniq, put_absent ss a g (find_slot-absent a g ss e))
without-Clears ss a g (some k) u uniq e =
    let slot = find_slot-IsSlotFor a g k ss e in
    (
      IsUnique-set_free ss k uniq,
      put_slot ss k a g free_slot none u slot (deadline-set_free ss k a g u uniq slot)
          (λ b c v _. ground arith),
    )
