-- ===== src/Property/Writes.antt =====
-- What `set_property` leaves in memory, and when it calls nobody.
use stm32app.Base.{
  ℕ, ◌+◌, ◌≡◌, ◌≢◌, ◌≤◌, ◌⊎◌, refl, inl, inr, true, false, Bool-cases, Option, none, some, List, [],
  ◌∷◌, ◌==◌, arith,
}
use mathlib.Core.Path.{ap₂}
use stm32app.Memory.{Memory, read}
use stm32app.Memory.Copies.{read-memcpy, read-memcpy_apart}
use stm32app.Property.{Field, PropertyClass, same_bytes, set_property, write_value}

same_bytes-true : (a b : List ℕ) → same_bytes a b ≡ true → a ≡ b
same_bytes-true [] [] e = refl
same_bytes-true [] (b ∷ bs) e = absurd (ground (arith, e))
same_bytes-true (a ∷ bytes) [] e = absurd (ground (arith, e))
same_bytes-true (a ∷ bytes) (b ∷ bs) e = elim (Bool-cases (a == b)) [
  | inl same ↦ ap₂ ◌∷◌ (ground (arith, same)) (same_bytes-true bytes bs (rw same at e))
  | inr differ ↦ (let x : false ≡ true = rw differ at e in absurd (ground (arith, x)))
]

-- The property holds the value, bytes apart from it are as before, and the value too.
abbrev pub IsWritten : Field → (value size : ℕ) → Memory → Option (ℕ × Memory) → Type 0
IsWritten f value size m none = ⊥
IsWritten f value size m (some (result, m')) =
    (result ≡ 0)
    × (read m' f.original size ≡ read m value size)
    × ((p n : ℕ) → (p + n ≤ f.original) ⊎ (f.original + size ≤ p) → read m' p n ≡ read m p n)

-- A property that is not the phase, of a class that does not watch its properties: whether or not it
-- has changed, it holds the value afterwards, with a result of 0, and memory apart from it is as
-- before.
pub set_property-IsWritten :
    (c : PropertyClass) (fields : ℕ → Field) (index value size : ℕ) (m : Memory)
    → c.property_write ≡ none
    → index ≢ c.phase_subindex
    → IsWritten (fields index) value size m (set_property c fields index value size m)
unfolding set_property write_value
set_property-IsWritten c fields index value size m unwatched other =
    let f = fields index in
    let plain : (index == c.phase_subindex) ≡ false = ground (arith, other) in
    elim (Bool-cases (same_bytes (read m f.original size) (read m value size))) [
      | inl same ↦ rw same (refl, same_bytes-true _ _ same, λ p n apart. refl)
      | inr differ ↦
          rw (differ, plain, unwatched)
            (
              refl,
              read-memcpy f.original value size m,
              λ p n apart. read-memcpy_apart f.original value size m p n apart,
            )
    ]

-- A change of the phase leaves the property and the value in memory as they are.
abbrev pub IsKeeping : PropertyClass → Field → (value size : ℕ) → Type 0
IsKeeping c f value size =
    (phase : ℕ) (m m' : Memory)
    → c.change_phase phase m ≡ some m'
    → (read m' f.original size ≡ read m f.original size) × (read m' value size ≡ read m value size)
