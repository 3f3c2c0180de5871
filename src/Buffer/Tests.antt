-- ===== src/Buffer/Tests.antt =====
-- The operations on one buffer of buffer.c at concrete inputs: an empty buffer, and a ring of eight
-- bytes at address 1000.
use stm32app.Base.{ℕ, ◌%◌, ◌≤◌, ◌≡◌, refl, inl, inr, Option, none, some, [], ◌∷◌, ◌++◌, arith}
use stm32app.Signal.{ok}
use stm32app.Memory.{Memory, read}
use stm32app.Memory.Arena.{arena, arena-IsAllocator}
use stm32app.Buffer.{
  reserve, put_bytes, Buffer, default_platform, reserve_with_limits, set_size, write, append,
  read_from_ring_buffer, buffer_realloc,
}
use stm32app.Buffer.Growth.{reserve_with_limits_lem, write_overruns}
use stm32app.Buffer.Append.{contents, IsManaged, IsApart, HasRoom, append_lem}
use stm32app.Buffer.Ring.{drain, IsRoomy, Extends, read_from_ring_buffer-Extends}

abbrev bytes : Memory
bytes = record { byte = λ a. a % 256; blocks = (1000, 8) ∷ [] }

abbrev empty : Buffer
empty = record {
  owner = 7;
  payload = 0;
  next = 0;
  size = 0;
  allocated_size = 0;
  offset_from_allocation = 0;
  users = 0;
  options = 0;
}

abbrev no_lookup : ℕ → Option Buffer
no_lookup _ = none

empty-IsManaged : IsManaged empty bytes
empty-IsManaged = record { owned = omega arith; filled = omega arith; placed = inl (refl, refl) }

empty-IsApart : (n : ℕ) → n ≤ 8 → IsApart empty bytes 1000 n
empty-IsApart n le i lt = (inl (omega arith, omega arith, omega arith), inr (omega arith))

arena-IsRoomy : IsRoomy arena
unfolding arena
arena-IsRoomy r p n m le = omega arith

empty-HasRoom : HasRoom arena empty 4 bytes
unfolding buffer_realloc
empty-HasRoom lt = arena-IsRoomy 0 0 4 bytes (omega arith)

append_lem_example :
    (b' : Buffer) × (m' : Memory) × (append (default_platform arena) no_lookup empty 1000 4 bytes
      ≡ some (ok, b', m'))
    × (contents b' m' ≡ contents empty bytes ++ read bytes 1000 4)
    × (b'.size ≡ 4)
    × (b'.users ≡ 0)
    × (b'.owner ≡ 7)
    × IsManaged b' m'
append_lem_example =
    append_lem arena arena-IsAllocator empty 1000 4 bytes empty-IsManaged empty-HasRoom no_lookup
      (omega arith) (omega arith) (empty-IsApart 4 (omega arith))

read_from_ring_buffer-Extends_example :
    Extends empty bytes
      (238 ∷ 239 ∷ 232 ∷ 233 ∷ 234 ∷ [])
      (read_from_ring_buffer (default_platform arena) no_lookup empty 1000 8 6 3 bytes)
unfolding drain
read_from_ring_buffer-Extends_example =
    read_from_ring_buffer-Extends arena arena-IsAllocator arena-IsRoomy no_lookup empty bytes
      empty-IsManaged 1000 8 6 3 (omega arith) (empty-IsApart 8 (omega arith)) (omega arith)
      (omega arith) (omega arith) (omega arith)

reserve_with_limits_lem_example :
    reserve_with_limits (default_platform arena) empty 100 0 0 0 bytes
    ≡ some (set_size (default_platform arena) empty 100 bytes)
reserve_with_limits_lem_example =
    reserve_with_limits_lem (default_platform arena) empty 100 0 0 0 bytes (omega arith)
      (omega arith)

write_overruns_example :
    (reserve (default_platform arena) empty 20000 bytes ≡ some (ok, empty, bytes))
    × (write (default_platform arena) no_lookup empty 0 1000 20000 bytes
        ≡ put_bytes (default_platform arena) empty 0 1000 20000 bytes)
    × (put_bytes (default_platform arena) empty 0 1000 20000 bytes ≡ none)
write_overruns_example =
    write_overruns arena no_lookup empty 0 1000 20000 bytes (omega arith) (omega arith)
      (omega arith) (omega arith) (omega arith) (omega arith)
