-- ===== src/Store/Tests.antt =====
-- Shared and paged buffers at concrete inputs: buffers at 50, 51 and 52, of which 50 belongs to
-- actor 7.
use stm32app.Base.{ℕ, ◌≡◌, refl, none, some, [], ◌∷◌, arith, ◌==◌, if◌then◌else◌}
use stm32app.Memory.Arena.{arena, arena-IsAllocator}
use stm32app.Base.{◌%◌, inl, inr, Option, some}
use stm32app.Signal.{Signal}
use stm32app.Buffer.Append.{IsManaged, IsApart}
use stm32app.Buffer.Ring.{IsRoomy, drain}
use stm32app.Store.Double.{
  Ingests, double_ingest_external_write, double_ingest_external_write-Ingests,
}
use stm32app.Store.Pool.{pool_free, pool_allocate, piece, IsFreePiece, pool_free-allocate}
use stm32app.Buffer.{default_platform}
use stm32app.Store.{Store, System, zero_buffer, pool_dispose, release, destroy}
use stm32app.Store.Users.{counted, use_all, release_all, shared_alive, shared_destroyed}

abbrev system : System
system = record {
  platform = default_platform arena;
  alloc = λ owner s. (60, s);
  dispose = pool_dispose;
}

-- The ring of pages goes from 50 to 51 and back.
abbrev store : Store
store = record {
  memory = record { byte = λ a. 0; blocks = [] };
  buffers = λ p.
      if p == 50
      then record zero_buffer { owner = 7; next = 51 }
      else if p == 51
      then record zero_buffer { owner = 7; next = 50 }
      else zero_buffer;
}

shared_alive_example :
    release_all system 50 (2 ∷ []) (use_all system 50 (1 ∷ 2 ∷ 3 ∷ []) store)
    ≡ some (counted 50 2 store)
shared_alive_example =
    shared_alive system 50 store (omega arith) (1 ∷ 2 ∷ 3 ∷ []) (2 ∷ []) refl (omega arith)
      (omega arith, (omega arith, (omega arith, tt))) (omega arith, tt) (omega arith)

shared_destroyed_example :
    (elim (release_all system 50 (2 ∷ []) (use_all system 50 (1 ∷ 2 ∷ []) store)) [
      | none ↦ none
      | some s' ↦ release system 50 1 s'
    ])
    ≡ destroy system 50 store
shared_destroyed_example =
    shared_destroyed system 50 store (omega arith) (1 ∷ 2 ∷ []) (2 ∷ []) 1 refl (omega arith)
      (omega arith, (omega arith, tt)) (omega arith, tt) (omega arith) refl

-- A pool at 70 of three pieces of four bytes, all in use.
abbrev pool_store : Store
pool_store = record {
  memory = record { byte = λ a. 1; blocks = (2000, 12) ∷ [] };
  buffers = λ p.
      if p == 70 then record zero_buffer { payload = 2000; allocated_size = 12 } else zero_buffer;
}

abbrev no_page : Store → Option (Signal × Store)
no_page s = none

pool_free-allocate_example :
    let s' = pool_free 2004 4 pool_store in
    (p : ℕ) × (pool_allocate no_page 70 4 s' ≡ some (p, s'))
    × IsFreePiece s'.memory (pool_store.buffers 70) 0 4 1 p
unfolding piece
pool_free-allocate_example =
    pool_free-allocate no_page 70 4 1 pool_store (omega arith) (omega arith) (omega arith)
      (omega arith)

-- A ring of eight bytes at 1000 behind the buffer at 81, read up to 6; the buffer at 80 is empty.
abbrev ring_store : Store
ring_store = record {
  memory = record { byte = λ a. a % 256; blocks = (1000, 8) ∷ [] };
  buffers = λ p.
      if p == 80
      then record zero_buffer { owner = 7 }
      else if p == 81
      then record zero_buffer { owner = 7; payload = 1000; size = 6; allocated_size = 8; users = 1 }
      else zero_buffer;
}

arena-IsRoomy : IsRoomy arena
unfolding arena
arena-IsRoomy r p n m le = omega arith

front-IsManaged : IsManaged (ring_store.buffers 80) (ring_store.memory)
front-IsManaged = record { owned = omega arith; filled = omega arith; placed = inl (refl, refl) }

front-IsApart : IsApart (ring_store.buffers 80) (ring_store.memory) 1000 8
front-IsApart i lt = (inl (omega arith, omega arith, omega arith), inr (omega arith))

double_ingest_external_write-Ingests_example :
    Ingests ring_store 81 80 3
      (238 ∷ 239 ∷ 232 ∷ 233 ∷ 234 ∷ [])
      (double_ingest_external_write system 81 80 3 ring_store)
unfolding drain
double_ingest_external_write-Ingests_example =
    double_ingest_external_write-Ingests arena arena-IsAllocator arena-IsRoomy system refl
      ring_store 81 80 3 (omega arith) (omega arith) front-IsManaged (omega arith) front-IsApart
      (omega arith) (omega arith) (omega arith) (omega arith)
