-- ===== src/Bytes/Alignment.antt =====
-- The greatest power of two that divides an address.
use native.Mathlib.Decide.{ℕ_discrete}
use stm32app.Base.{ℕ, zero, suc, ◌+◌, ◌/◌, ◌%◌, ◌≤◌, ◌<◌, ◌≡◌, ◌≢◌, Option, none, some, arith}
use stm32app.Bytes.{alignment_from, get_maximum_byte_alignment}

-- `power k` is 2 to the k.
unfoldable pub power : ℕ → ℕ
power zero = 1
power (suc k) = power k + power k

power-pos : (k : ℕ) → 0 < power k
unfolding power
power-pos zero = omega arith
power-pos (suc k) = omega (arith, power-pos k)

power_mono : (i k : ℕ) → i ≤ k → power i ≤ power k
unfolding power
power_mono zero zero h = omega arith
power_mono (suc i) zero h = absurd (omega arith)
power_mono zero (suc k) h = omega (arith, power_mono zero k (omega arith))
power_mono (suc i) (suc k) h = omega (arith, power_mono i k (omega arith))

-- `r` divides the address, and no greater power up to the `k`-th does.
abbrev pub IsGreatest : ℕ → ℕ → Option ℕ → Type 0
IsGreatest address k none = ⊥
IsGreatest address k (some r) =
    (address % r ≡ 0) × (r ≤ power k) × ((i : ℕ) → i ≤ k → address % power i ≡ 0 → power i ≤ r)

IsGreatest-suc :
    (address k : ℕ) (o : Option ℕ)
    → address % power (suc k) ≢ 0
    → IsGreatest address k o
    → IsGreatest address (suc k) o
unfolding power
IsGreatest-suc address k none ne g = g
IsGreatest-suc address k (some r) ne g = (
  g.0,
  omega (arith, g.1),
  λ i le d. elim (ℕ_discrete i (suc k)) [
    | yes e ↦ absurd (ne (rw e at d))
    | no lower ↦ g.2 i (omega arith) d
  ],
)

aligned_round :
    (fuel address limit : ℕ)
    → 0 < limit
    → address % limit ≡ 0
    → alignment_from (suc fuel) address limit ≡ some limit
unfolding alignment_from
aligned_round fuel address limit pos e = ground arith

odd_round :
    (fuel address limit : ℕ)
    → 1 < limit
    → address % limit ≢ 0
    → alignment_from (suc fuel) address limit ≡ alignment_from fuel address (limit / 2)
unfolding alignment_from
odd_round fuel address limit more ne = ground arith

alignment_from-IsGreatest :
    (fuel address k : ℕ) → k < fuel → IsGreatest address k (alignment_from fuel address (power k))
unfolding alignment_from power
alignment_from-IsGreatest zero address k h = absurd (omega arith)
alignment_from-IsGreatest (suc fuel) address zero h =
    (omega arith, omega arith, λ i le d. power_mono i zero le)
alignment_from-IsGreatest (suc fuel) address (suc k) h =
    let half : power (suc k) / 2 ≡ power k = omega arith in
    let pos : 0 < power k = power-pos k in
    elim (ℕ_discrete (address % power (suc k)) 0) [
      | yes e ↦
          rw (aligned_round fuel address (power (suc k)) (omega arith) e)
            (e, omega arith, λ i le d. power_mono i (suc k) le)
      | no ne ↦
          rw (odd_round fuel address (power (suc k)) (omega arith) ne, half)
            (IsGreatest-suc address k (alignment_from fuel address (power k)) ne
              (alignment_from-IsGreatest fuel address k (omega arith)))
    ]

-- For a limit that is a power of two, below 2 to the 8th as the type has it, the loop ends with the
-- greatest power of two up to the limit that divides the address.
pub get_maximum_byte_alignment-IsGreatest :
    (address k : ℕ) → k < 8 → IsGreatest address k (get_maximum_byte_alignment address (power k))
unfolding get_maximum_byte_alignment
get_maximum_byte_alignment-IsGreatest address k h =
    alignment_from-IsGreatest 9 address k (omega arith)
