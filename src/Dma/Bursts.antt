-- ===== src/Dma/Bursts.antt =====
-- Which address the size of a burst is safe for.
use native.Mathlib.Decide.{ℕ_discrete}
use stm32app.Base.{
  ℕ, ◌+◌, ◌*◌, ◌/◌, ◌%◌, ◌≡◌, ◌≢◌, ◌≤◌, ◌⊎◌, refl, inl, inr, false, some, Option-cases, ◌==◌, arith,
}
use stm32app.Buffer.{u32}
use stm32app.Bytes.{get_maximum_byte_alignment}
use stm32app.Bytes.Alignment.{power, IsGreatest, get_maximum_byte_alignment-IsGreatest}
use stm32app.Dma.{burst_for, get_safe_burst_size}

-- A burst of `n` items of a width stays within 1 KB pages from an address that it divides.
abbrev pub Divides : ℕ → ℕ → ℕ → Type 0
Divides width address n = (n ≡ 1) ⊎ (address % (n * width) ≡ 0)

-- An alignment up to 16 that a power divides is one of few.
divides_at : (slot r k n : ℕ) → r ≡ k → slot % r ≡ 0 → (slot % k ≡ 0 → slot % n ≡ 0) → slot % n ≡ 0
divides_at slot r k n e d f = f (rw e at d)

divides_16 : (slot r : ℕ) → 1 ≤ r → r ≤ 16 → r % 16 ≡ 0 → slot % r ≡ 0 → slot % 16 ≡ 0
divides_16 slot r lo hi m d = divides_at slot r 16 16 (omega (arith, lo, hi, m)) d (λ h. h)

divides_8 : (slot r : ℕ) → 1 ≤ r → r ≤ 16 → r % 8 ≡ 0 → slot % r ≡ 0 → slot % 8 ≡ 0
divides_8 slot r lo hi m d = elim (ℕ_discrete r 8) [
  | yes e ↦ divides_at slot r 8 8 e d (λ h. h)
  | no ne ↦ divides_at slot r 16 8 (omega (arith, lo, hi, m, ne)) d (λ h. omega (arith, h))
]

divides_4 : (slot r : ℕ) → 1 ≤ r → r ≤ 16 → r % 4 ≡ 0 → slot % r ≡ 0 → slot % 4 ≡ 0
divides_4 slot r lo hi m d = elim (ℕ_discrete r 12) [
  | yes e ↦ divides_at slot r 12 4 e d (λ h. omega (arith, h))
  | no ne ↦ elim (ℕ_discrete r 4) [
    | yes e ↦ divides_at slot r 4 4 e d (λ h. h)
    | no ne' ↦
        let m' : r % 8 ≡ 0 = omega (arith, lo, hi, m, ne, ne') in
        let h = divides_8 slot r lo hi m' d in omega (arith, h)
  ]
]

-- The widths of DMA transfers.
abbrev pub IsWidth : ℕ → Type 0
IsWidth w = (w ≡ 1) ⊎ ((w ≡ 2) ⊎ (w ≡ 4))

burst_for-Divides :
    (slot r width fifo_threshold : ℕ)
    → IsWidth width
    → fifo_threshold ≢ 3
    → fifo_threshold ≢ 4
    → 1 ≤ r
    → r ≤ 16
    → slot % r ≡ 0
    → Divides width slot (burst_for r width fifo_threshold)
unfolding burst_for
burst_for-Divides slot r width fifo_threshold w n3 n4 lo hi d =
    ground
      (arith, w, n3, n4, divides_16 slot r lo hi, divides_8 slot r lo hi, divides_4 slot r lo hi)

-- The data lie on two pages of 1 KB.
abbrev pub Crosses : (address size width : ℕ) → Type 0
Crosses address size width = address / 1024 ≢ u32 (address + size * width) / 1024

alignment_of_slot :
    (slot : ℕ)
    → (r : ℕ) × (get_maximum_byte_alignment slot 16 ≡ some r) × (1 ≤ r) × (r ≤ 16) × (slot % r ≡ 0)
unfolding power
alignment_of_slot slot =
    let greatest : IsGreatest slot 4 (get_maximum_byte_alignment slot 16) =
      get_maximum_byte_alignment-IsGreatest slot 4 (omega arith) in
    elim (Option-cases (get_maximum_byte_alignment slot 16)) [
      | inl missing ↦ absurd (rw missing at greatest)
      | inr (r, e) ↦
          let (divides, least, most) = rw e at greatest in
          (r, e, most 0 (omega arith) (omega arith), least, divides)
    ]

crossing_burst :
    (address slot size width fifo_threshold r : ℕ)
    → Crosses address size width
    → get_maximum_byte_alignment slot 16 ≡ some r
    → get_safe_burst_size address slot size width fifo_threshold
      ≡ some (burst_for r width fifo_threshold)
unfolding get_safe_burst_size
crossing_burst address slot size width fifo_threshold r crosses e =
    let two : (address / 1024 == u32 (address + size * width) / 1024) ≡ false =
      ground (arith, crosses) in
    rw (two, e) refl

-- For data on two pages the size of the burst is one that divides the address of the function's own
-- parameter, or a single item, and is the same for any other data on two pages, whatever their
-- alignment. The thresholds of 3 and 4 look at no alignment.
pub get_safe_burst_size_lem :
    (address slot size width fifo_threshold : ℕ)
    → IsWidth width
    → fifo_threshold ≢ 3
    → fifo_threshold ≢ 4
    → Crosses address size width
    → (n : ℕ) × (get_safe_burst_size address slot size width fifo_threshold ≡ some n)
      × Divides width slot n
      × ((address' : ℕ)
          → Crosses address' size width
          → get_safe_burst_size address' slot size width fifo_threshold ≡ some n)
get_safe_burst_size_lem address slot size width fifo_threshold w n3 n4 crosses =
    let (r, e, lo, hi, d) = alignment_of_slot slot in
    (
      burst_for r width fifo_threshold,
      crossing_burst address slot size width fifo_threshold r crosses e,
      burst_for-Divides slot r width fifo_threshold w n3 n4 lo hi d,
      λ address' c. crossing_burst address' slot size width fifo_threshold r c e,
    )
