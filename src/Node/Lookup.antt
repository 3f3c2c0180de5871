-- ===== src/Node/Lookup.antt =====
-- What the searches of a node give.
use stm32app.Base.{
  ℕ, zero, suc, ◌+◌, ◌%◌, ◌≡◌, ◌<◌, ◌≤◌, refl, inl, inr, sym, ap, ◌∙◌, Bool, true, false,
  Bool-cases, Option, none, some, List, [], ◌∷◌, length, get_elem?, ◌==◌, arith, All, some-inj,
}
use stm32app.Node.{
  NodeActor, actor_index, first_from, find, find_by_type, find_by_number, find_number_from,
  find_number,
}

-- The first actor that passes, or none that does.
abbrev pub IsFirst : (NodeActor → Bool) → List NodeActor → ℕ → Option ℕ → Type 0
IsFirst test actors i none = All (λ a. test a ≡ false) actors
IsFirst test actors i (some p) =
    (n : ℕ) × (p ≡ i + n)
    × ((a : NodeActor) × (get_elem? actors n ≡ some a) × (test a ≡ true))
    × ((m : ℕ) (b : NodeActor) → m < n → get_elem? actors m ≡ some b → test b ≡ false)

IsFirst-cons :
    (test : NodeActor → Bool) (a : NodeActor) (actors : List NodeActor) (i : ℕ) (r : Option ℕ)
    → test a ≡ false
    → IsFirst test actors (suc i) r
    → IsFirst test (a ∷ actors) i r
IsFirst-cons test a actors i none e h = (e, h)
IsFirst-cons test a actors i (some p) e (n, at, found, before) =
    (suc n, omega arith, found, before')
  where
    before' :
        (m : ℕ) (b : NodeActor) → m < suc n → get_elem? (a ∷ actors) m ≡ some b → test b ≡ false
    before' zero b lt g = ap test (sym (some-inj a b g)) ∙ e
    before' (suc m) b lt g = before m b (omega arith) g

first_from-IsFirst :
    (test : NodeActor → Bool) (actors : List NodeActor) (i : ℕ)
    → IsFirst test actors i (first_from test i actors)
unfolding first_from
first_from-IsFirst test [] i = tt
first_from-IsFirst test (a ∷ actors) i = elim (Bool-cases (test a)) [
  | inl e ↦ rw e (0, omega arith, (a, refl, e), λ m b lt g. absurd (omega arith))
  | inr e ↦ rw e (IsFirst-cons test a actors i _ e (first_from-IsFirst test actors (suc i)))
]

-- Both searches give the first actor of the array that fits, by its index or by its type, and NULL
-- only if there is none.
pub find_lem :
    (actors : List NodeActor) (key : ℕ)
    → IsFirst (λ a. actor_index a == key) actors 0 (find actors key)
      × IsFirst (λ a. a.type == key) actors 0 (find_by_type actors key)
unfolding find find_by_type
find_lem actors key = (first_from-IsFirst _ actors 0, first_from-IsFirst _ actors 0)

find_number_from_lem :
    (actors : List NodeActor) (p i n : ℕ)
    → p ≡ i + n
    → n < length actors
    → find_number_from p i actors ≡ p % 256
unfolding find_number_from
find_number_from_lem [] p i n e lt = absurd (omega arith)
find_number_from_lem (a ∷ actors) p i zero e lt = ground (arith, e)
find_number_from_lem (a ∷ actors) p i (suc n) e lt =
    let here : (i == p) ≡ false = ground (arith, e) in
    rw here (find_number_from_lem actors p (suc i) n (omega (arith, e)) (omega (arith, lt)))

-- The number of an actor leads back to it below 256 actors; from there on the number of an actor is
-- that of one among the first 256.
pub find_by_number-find_number :
    (actors : List NodeActor) (p : ℕ)
    → p < length actors
    → (p < 256 → find_by_number (find_number actors p) ≡ p)
      × (256 ≤ p → find_by_number (find_number actors p) < 256)
unfolding find_number
find_by_number-find_number actors p lt =
    let e = find_number_from_lem actors p 0 p (omega arith) lt in
    (λ small. omega (arith, e, small), λ big. omega (arith, e))
