-- ===== src/Store/Double.antt =====
-- Double buffers of buffer.c: a ring that a peripheral fills, behind a growable buffer.
use stm32app.Base.{
  ℕ, ◌+◌, ◌%◌, ◌^◌, ◌≤◌, ◌<◌, ◌≡◌, refl, ◌≢◌, ◌++◌, List, true, false, inl, inr, Option, none, some,
  arith, ltb, ◌==◌, if◌then◌else◌, Option-cases,
}
use stm32app.Signal.{Signal, ok}
use stm32app.Memory.{Allocator, IsAllocator}
use stm32app.Buffer.{Outcome, default_platform, default_max_size, read_from_ring_buffer}
use stm32app.Buffer.Append.{contents, IsManaged, IsApart}
use stm32app.Buffer.Ring.{drain, unread, IsRoomy, Extends, read_from_ring_buffer-Extends}
use stm32app.Store.{
  Store, System, put, lookup, on_buffer, reference, dereference, target_with_options,
}

-- The ring is only used for input of unknown length.
unfoldable pub double_target : System → ℕ → ℕ → ℕ → ℕ → Store → Option (ℕ × Store)
double_target y back owner source size s = elim (target_with_options y owner source size 0 s) [
  | none ↦ none
  | some (front, t) ↦ some (front, if size == 0 then reference back t else t)
]

unfoldable pub double_dereference : ℕ → ℕ → ℕ → Store → Option Store
double_dereference back front owner s =
    if (s.buffers front).owner == owner
    then (if ltb 0 (s.buffers back).users then dereference back s else some s)
    else dereference front s

-- The buffer, what is left at `front`, and the store.
unfoldable pub double_detach : ℕ → ℕ → ℕ → Store → Option (ℕ × ℕ × Store)
double_detach back front owner s = elim (double_dereference back front owner s) [
  | none ↦ none
  | some t ↦ some (front, 0, t)
]

unfoldable pub double_get_input : ℕ → ℕ → Store → ℕ
double_get_input back front s = if ltb 0 (s.buffers back).users then back else front

abbrev pub u16 : ℕ → ℕ
u16 n = n % 2 ^ 16

abbrev pub set_buffer_size : ℕ → ℕ → Store → Store
set_buffer_size p n s = put p (record (s.buffers p) { size = n }) s

-- `position` is where the peripheral has written up to; the ring's size field is where it was read to.
unfoldable pub double_ingest_external_write : System → ℕ → ℕ → ℕ → Store → Option (Signal × Store)
double_ingest_external_write y back front position s =
    if double_get_input back front s == back
    then (let ring = s.buffers back in
        elim (on_buffer front
          (λ b m.
            read_from_ring_buffer y.platform (lookup s) b ring.payload (u16 ring.allocated_size)
              (u16 ring.size) position m)
          s) [ none ↦ none | some (signal, t) ↦ some (signal, set_buffer_size back position t) ])
    else some (ok, set_buffer_size front position s)

-- The front buffer has taken in `more`, and the ring is read up to the position.
abbrev pub Ingests : Store → ℕ → ℕ → ℕ → List ℕ → Option (Signal × Store) → Type 0
Ingests s back front position more none = ⊥
Ingests s back front position more (some (signal, t)) =
    (signal ≡ ok)
    × (contents (t.buffers front) t.memory ≡ contents (s.buffers front) s.memory ++ more)
    × IsManaged (t.buffers front) t.memory
    × ((t.buffers back).size ≡ position)

module _ (s : Store) (back front position : ℕ) (ne : front ≢ back) where
  -- The store after the drain, by its outcome.
  abbrev taken_in : Outcome → Option (Signal × Store)
  taken_in none = none
  taken_in (some (signal, b, m)) =
      some (signal, set_buffer_size back position (put front b (record s { memory = m })))

  taken_in-Ingests :
      (o : Outcome) (more : List ℕ)
      → Extends (s.buffers front) s.memory more o
      → Ingests s back front position more (taken_in o)
  taken_in-Ingests none more x = x
  taken_in-Ingests (some (signal, b, m)) more x =
      let apart : (front == back) ≡ false = ground arith in
      let here : (front == front) ≡ true = ground arith in
      let there : (back == back) ≡ true = ground arith in
      rw (apart, here, there) (x.0, x.1, x.2, refl)

  ingest-taken_in :
      (y : System)
      → 0 < (s.buffers back).users
      → (s.buffers back).allocated_size < 2 ^ 16
      → (s.buffers back).size < 2 ^ 16
      → double_ingest_external_write y back front position s
        ≡ taken_in (
            read_from_ring_buffer y.platform
              (lookup s)
              (s.buffers front)
              (s.buffers back).payload
              (s.buffers back).allocated_size
              (s.buffers back).size
              position
              s.memory)
  unfolding double_ingest_external_write double_get_input
  ingest-taken_in y used small short =
      let a : u16 (s.buffers back).allocated_size ≡ (s.buffers back).allocated_size = omega arith in
      let b : u16 (s.buffers back).size ≡ (s.buffers back).size = omega arith in
      let u : ltb 0 (s.buffers back).users ≡ true = ground arith in
      let same : (back == back) ≡ true = ground arith in
      elim (Option-cases (
        read_from_ring_buffer y.platform (lookup s) (s.buffers front) (s.buffers back).payload
          (s.buffers back).allocated_size (s.buffers back).size position s.memory)) [
            | inl e ↦ rw (u, same, a, b, e) refl
            | inr (r, e) ↦ rw (u, same, a, b, e) refl
          ]

module _ (h : Allocator) (law : IsAllocator h) (roomy : IsRoomy h) (y : System)
    (plain : y.platform ≡ default_platform h) where
  -- While the ring is in use, taking in what has been written to it up to a position appends those
  -- bytes to the front buffer, around the ring's end too, and marks the ring as read up to there. The
  -- ring has less than 64 KB and the front buffer, on the default platform with room on the heap, stays
  -- within its limit.
  pub double_ingest_external_write-Ingests :
      (s : Store) (back front position : ℕ)
      → front ≢ back
      → 0 < (s.buffers back).users
      → IsManaged (s.buffers front) s.memory
      → (s.buffers back).payload ≢ 0
      → IsApart (s.buffers front) s.memory (s.buffers back).payload (s.buffers back).allocated_size
      → (s.buffers back).size < (s.buffers back).allocated_size
      → position ≤ (s.buffers back).allocated_size
      → (s.buffers back).allocated_size < 2 ^ 16
      → (s.buffers front).size
          + unread (s.buffers back).allocated_size (s.buffers back).size position
        ≤ default_max_size
      → Ingests s back front position
          (drain s.memory
            (s.buffers back).payload
            (s.buffers back).allocated_size
            (s.buffers back).size
            (unread (s.buffers back).allocated_size (s.buffers back).size position))
          (double_ingest_external_write y back front position s)
  double_ingest_external_write-Ingests s back front position ne used v nz a lt le small fits =
      rw (ingest-taken_in s back front position ne y used small (omega arith), plain)
        (taken_in-Ingests s back front position ne _ _ (
          read_from_ring_buffer-Extends h law roomy (lookup s) (s.buffers front) s.memory v
            (s.buffers back).payload (s.buffers back).allocated_size (s.buffers back).size position
            nz a lt le small fits))
