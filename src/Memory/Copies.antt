-- ===== src/Memory/Copies.antt =====
-- What `read` sees before and after a `memcpy`.
use stm32app.Base.{ℕ, zero, suc, ◌+◌, ◌≤◌, ◌<◌, ◌≡◌, refl, ◌⊎◌, ◌∷◌, ◌++◌, arith, length}
use mathlib.Core.Path.{ap₂}
use stm32app.Memory.{Memory, read, memcpy}

pub length-read : (m : Memory) (p n : ℕ) → length (read m p n) ≡ n
unfolding read
length-read m p zero = refl
length-read m p (suc n) = omega (arith, length-read m (p + 1) n)

-- Equal bytes read alike, wherever they stand.
pub read_ext :
    (m m' : Memory) (p q n : ℕ)
    → ((i : ℕ) → i < n → m'.byte (q + i) ≡ m.byte (p + i))
    → read m' q n ≡ read m p n
unfolding read
read_ext m m' p q zero h = refl
read_ext m m' p q (suc n) h =
    ap₂ ◌∷◌ (grind (arith, h 0))
      (read_ext m m' (p + 1) (q + 1) n (λ i hi. grind (arith, h (i + 1))))

pub read-append : (m : Memory) (p n k : ℕ) → read m p (n + k) ≡ read m p n ++ read m (p + n) k
unfolding read
read-append m p zero k = grind arith
read-append m p (suc n) k = grind (arith, read-append m (p + 1) n k)

-- A copy puts the source's bytes at the destination, also where the two overlap.
pub read-memcpy : (dst src n : ℕ) (m : Memory) → read (memcpy dst src n m) dst n ≡ read m src n
unfolding memcpy
read-memcpy dst src n m = read_ext m _ src dst n (λ i hi. ground arith)

-- What the destination does not meet stays.
pub read-memcpy_apart :
    (dst src n : ℕ) (m : Memory) (p k : ℕ)
    → (p + k ≤ dst) ⊎ (dst + n ≤ p)
    → read (memcpy dst src n m) p k ≡ read m p k
unfolding memcpy
read-memcpy_apart dst src n m p k h = read_ext m _ p p k (λ i hi. ground arith)
