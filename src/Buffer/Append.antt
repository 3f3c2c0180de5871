-- ===== src/Buffer/Append.antt =====
-- `actor_buffer_append`: the bytes that a buffer holds after it, through a reallocation or not.
use stm32app.Base.{
  ℕ, ◌+◌, ◌≤◌, ◌<◌, ◌≡◌, refl, ◌≢◌, ◌∙◌, ◌⊎◌, inl, inr, Option, some, arith, ltb, Bool-cases,
  if◌then◌else◌, List, ◌++◌,
}
use mathlib.Core.Path.{ap₂}
use stm32app.Signal.{ok}
use stm32app.Memory.{Memory, Allocator, IsAllocator, InOther, HasBlock, read, memcpy}
use stm32app.Memory.Copies.{read_ext, read-append, read-memcpy, read-memcpy_apart}
use stm32app.Buffer.{
  Buffer, default_max_size, default_platform, reserve, set_size, buffer_realloc, region_of,
  put_bytes, write, write_plain, append,
}
use stm32app.Buffer.Growth.{reserve_lem, reserve_enough}

-- The bytes that the buffer is filled with.
abbrev pub contents : Buffer → Memory → List ℕ
contents b m = read m b.payload b.size

-- A managed buffer over its own heap allocation, or with none yet.
pub record IsManaged (b : Buffer) (m : Memory) : Type 0 where
  pub owned : b.owner ≢ 0
  pub filled : b.size ≤ b.allocated_size
  pub placed :
      ((b.size ≡ 0) × (b.allocated_size ≡ 0))
      ⊎ ((b.payload ≢ 0) × HasBlock b.payload b.allocated_size m.blocks)

-- `n` bytes at `p` stand in other allocations, none of them in the payload.
abbrev pub IsApart : Buffer → Memory → ℕ → ℕ → Type 0
IsApart b m p n =
    (i : ℕ)
    → i < n
    → InOther b.payload (p + i) m.blocks
      × ((p + i < b.payload) ⊎ (b.payload + b.allocated_size ≤ p + i))

module _ (h : Allocator) where
  -- The heap has room for the buffer at `n` bytes, if it has to grow at all.
  abbrev pub HasRoom : Buffer → ℕ → Memory → Type 0
  HasRoom b n m = b.allocated_size < n → (buffer_realloc (default_platform h) b n m).0 ≢ 0

  -- The buffer and the memory after a successful `reserve`.
  abbrev pub grown : Buffer → ℕ → Memory → Buffer × Memory
  grown b n m =
      if ltb b.allocated_size n
      then (
        record b { allocated_size = n; payload = (buffer_realloc (default_platform h) b n m).0 },
        (buffer_realloc (default_platform h) b n m).1,
      )
      else (b, m)

  reserve-grown :
      (b : Buffer) (n : ℕ) (m : Memory)
      → IsManaged b m
      → n ≤ default_max_size
      → reserve (default_platform h) b n m ≡ some (ok, (grown b n m).0, (grown b n m).1)
  unfolding set_size
  reserve-grown b n m v le = ground (arith, reserve_lem h b n m, reserve_enough h b n m)

  module _ (law : IsAllocator h) (b : Buffer) (n : ℕ) (m : Memory) (v : IsManaged b m) where
    -- Growth keeps the buffer managed and its contents, and leaves what lies elsewhere.
    grown-IsManaged : HasRoom b n m → IsManaged (grown b n m).0 (grown b n m).1
    unfolding buffer_realloc
    grown-IsManaged room =
        ground (arith, law.holds (region_of (default_platform h) b) b.payload n m)

    contents-grown : HasRoom b n m → contents (grown b n m).0 (grown b n m).1 ≡ contents b m
    unfolding buffer_realloc
    contents-grown room = elim (Bool-cases (ltb b.allocated_size n)) [
      | inl more ↦ rw more (
          read_ext m (buffer_realloc (default_platform h) b n m).1 b.payload
            (buffer_realloc (default_platform h) b n m).0 b.size
            (λ i hi. ground (
              arith,
              law.moves (region_of (default_platform h) b) b.payload n m b.allocated_size i,
            )))
      | inr enough ↦ rw enough
    ]

    IsApart-grown :
        (p k : ℕ) → HasRoom b n m → IsApart b m p k → IsApart (grown b n m).0 (grown b n m).1 p k
    unfolding buffer_realloc
    IsApart-grown p k room a i hi = ground (
      arith,
      a i hi,
      law.keeps (region_of (default_platform h) b) b.payload n m (p + i),
      law.apart (region_of (default_platform h) b) b.payload n m (p + i),
    )

    byte-grown :
        (a : ℕ) → HasRoom b n m → InOther b.payload a m.blocks → (grown b n m).1.byte a ≡ m.byte a
    unfolding buffer_realloc
    byte-grown a room o =
        ground (arith, law.keeps (region_of (default_platform h) b) b.payload n m a)

    read-grown : (p k : ℕ) → HasRoom b n m → IsApart b m p k → read (grown b n m).1 p k ≡ read m p k
    read-grown p k room a =
        read_ext m (grown b n m).1 p p k λ i hi. byte-grown (p + i) room (a i hi).0

  -- The buffer and the memory after `n` bytes at `p` are appended.
  abbrev pub appended : Buffer → ℕ → ℕ → Memory → Buffer × Memory
  appended b p n m =
      let g = grown b (b.size + n) m in
      (record (g.0) { size = b.size + n }, memcpy ((g.0).payload + b.size) p n (g.1))

  pub append-appended :
      (lookup : ℕ → Option Buffer) (b : Buffer) (p n : ℕ) (m : Memory)
      → IsManaged b m
      → HasRoom b (b.size + n) m
      → b.size + n ≤ default_max_size
      → p ≢ 0
      → append (default_platform h) lookup b p n m
        ≡ some (ok, (appended b p n m).0, (appended b p n m).1)
  unfolding append write write_plain put_bytes
  append-appended lookup b p n m v room le nz = ground (arith, reserve-grown b (b.size + n) m v le)

  module _ (law : IsAllocator h) (b : Buffer) (p n : ℕ) (m : Memory) (v : IsManaged b m)
      (room : HasRoom b (b.size + n) m) where
    pub contents-appended :
        IsApart b m p n
        → contents (appended b p n m).0 (appended b p n m).1 ≡ contents b m ++ read m p n
    contents-appended a =
        let g : Buffer × Memory = grown b (b.size + n) m in
        let q : ℕ = (g.0).payload in
        let m' : Memory = memcpy (q + b.size) p n g.1 in
        read-append m' q b.size n
        ∙ ap₂ ◌++◌
            (read-memcpy_apart (q + b.size) p n g.1 q b.size (inl (omega arith))
              ∙ same_size (contents-grown law b (b.size + n) m v room))
            (read-memcpy (q + b.size) p n g.1 ∙ read-grown law b (b.size + n) m v p n room a)
      where
        same_size :
            contents (grown b (b.size + n) m).0 (grown b (b.size + n) m).1 ≡ contents b m
            → read (grown b (b.size + n) m).1 ((grown b (b.size + n) m).0).payload b.size
              ≡ contents b m
        same_size e = ground (arith, e)

    pub appended-IsManaged : IsManaged (appended b p n m).0 (appended b p n m).1
    unfolding memcpy
    appended-IsManaged = ground (arith, grown-IsManaged law b (b.size + n) m v room)

    -- Another range stays apart, and keeps its bytes.
    pub IsApart-appended :
        (q k : ℕ) → IsApart b m q k → IsApart (appended b p n m).0 (appended b p n m).1 q k
    unfolding memcpy
    IsApart-appended q k a i hi =
        ground (arith, IsApart-grown law b (b.size + n) m v q k room a i hi)

    pub read-appended : (q k : ℕ) → IsApart b m q k → read (appended b p n m).1 q k ≡ read m q k
    unfolding memcpy
    read-appended q k a = read_ext m (appended b p n m).1 q q k λ i hi. ground (
      arith,
      byte-grown law b (b.size + n) m v (q + i) room (a i hi).0,
      IsApart-grown law b (b.size + n) m v q k room a i hi,
    )

    -- Appending up to the default limit, from memory outside the buffer, to a managed buffer whose
    -- owner has no allocation method succeeds where the heap has room: the contents are extended by
    -- exactly those bytes, the users and the owner stay, and the buffer stays managed.
    pub append_lem :
        (lookup : ℕ → Option Buffer)
        → b.size + n ≤ default_max_size
        → p ≢ 0
        → IsApart b m p n
        → (b' : Buffer) × (m' : Memory) × (append (default_platform h) lookup b p n m
            ≡ some (ok, b', m'))
          × (contents b' m' ≡ contents b m ++ read m p n)
          × (b'.size ≡ b.size + n)
          × (b'.users ≡ b.users)
          × (b'.owner ≡ b.owner)
          × IsManaged b' m'
    append_lem lookup le nz a = (
      (appended b p n m).0,
      (appended b p n m).1,
      append-appended lookup b p n m v room le nz,
      contents-appended a,
      refl,
      ground arith,
      ground arith,
      appended-IsManaged,
    )
