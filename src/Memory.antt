-- ===== src/Memory.antt =====
-- The RAM that payloads live in, and the heap behind actor_env/src/actor/heap.h. `memcpy` and
-- `memset` are the C library's; the heap itself is a parameter, `Allocator`.
pub mod Copies
pub mod Arena
use stm32app.Base.{
  ℕ, zero, suc, ◌+◌, ◌-◌, ◌≤◌, ◌<◌, ◌≡◌, ◌≢◌, ◌⊎◌, ◌&&◌, List, [], ◌∷◌, ltb, leb, if◌then◌else◌,
}

-- `blocks` are the address and the length of each allocation in use. Address 0 is NULL.
pub record Memory : Type 0 where
  pub byte : ℕ → ℕ
  pub blocks : List (ℕ × ℕ)

unfoldable pub read : Memory → ℕ → ℕ → List ℕ
read m p zero = []
read m p (suc n) = m.byte p ∷ read m (p + 1) n

unfoldable pub memcpy : ℕ → ℕ → ℕ → Memory → Memory
memcpy dst src n m = record m {
  byte = λ a. if leb dst a && ltb a (dst + n) then m.byte (src + (a - dst)) else m.byte a;
}

unfoldable pub memset_zero : ℕ → ℕ → Memory → Memory
memset_zero dst n m = record m { byte = λ a. if leb dst a && ltb a (dst + n) then 0 else m.byte a }

-- `realloc region pointer size`: the new pointer, 0 where the heap has no room.
pub record Allocator : Type 0 where
  pub realloc : ℕ → ℕ → ℕ → Memory → ℕ × Memory
  pub free : ℕ → Memory → Memory

-- The address lies in an allocation other than the one at `p`.
abbrev pub InOther : ℕ → ℕ → List (ℕ × ℕ) → Type 0
InOther p a [] = ⊥
InOther p a ((q, n) ∷ bs) = ((q ≢ p) × (q ≤ a) × (a < q + n)) ⊎ InOther p a bs

-- The allocation at `p` has `n` bytes at least.
abbrev pub HasBlock : ℕ → ℕ → List (ℕ × ℕ) → Type 0
HasBlock p n [] = ⊥
HasBlock p n ((q, k) ∷ bs) = ((q ≡ p) × (n ≤ k)) ⊎ HasBlock p n bs

-- What C documents of `realloc`, where it succeeds: the new allocation holds the old bytes, and no
-- other allocation is written, freed or shared.
pub record IsAllocator (h : Allocator) : Type 0 where
  pub moves :
      (r p n : ℕ) (m : Memory) (k i : ℕ)
      → (h.realloc r p n m).0 ≢ 0
      → HasBlock p k m.blocks
      → i < k
      → i < n
      → (h.realloc r p n m).1.byte ((h.realloc r p n m).0 + i) ≡ m.byte (p + i)
  pub holds :
      (r p n : ℕ) (m : Memory)
      → (h.realloc r p n m).0 ≢ 0
      → HasBlock (h.realloc r p n m).0 n (h.realloc r p n m).1.blocks
  pub keeps :
      (r p n : ℕ) (m : Memory) (a : ℕ)
      → (h.realloc r p n m).0 ≢ 0
      → InOther p a m.blocks
      → ((h.realloc r p n m).1.byte a ≡ m.byte a)
        × InOther (h.realloc r p n m).0 a (h.realloc r p n m).1.blocks
  pub apart :
      (r p n : ℕ) (m : Memory) (a : ℕ)
      → (h.realloc r p n m).0 ≢ 0
      → InOther p a m.blocks
      → (a < (h.realloc r p n m).0) ⊎ ((h.realloc r p n m).0 + n ≤ a)
