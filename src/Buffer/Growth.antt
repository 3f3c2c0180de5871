-- ===== src/Buffer/Growth.antt =====
-- The size that buffer.c computes for a growing buffer, and what `actor_buffer_reserve` makes of it.
use stm32app.Base.{
  ℕ, zero, suc, ◌+◌, ◌^◌, ◌≤◌, ◌<◌, ◌≡◌, refl, ◌≢◌, ◌∙◌, ◌⊎◌, inl, inr, Option, none, some, arith,
  ltb, ◌==◌, if◌then◌else◌, Bool-cases,
}
use stm32app.Signal.{ok, out_of_memory}
use stm32app.Memory.{Memory, Allocator}
use stm32app.Buffer.{
  Buffer, u32, grow, grow_rounds, start_size, default_max_size, default_platform, reserve,
  reserve_with_limits, allocation_callback, set_size, Platform, write, write_plain, limit_size,
  put_bytes,
}

-- One round, with the next size known.
grow_step :
    (fuel n next size : ℕ)
    → n < size
    → next ≡ u32 (n + n)
    → grow (suc fuel) n size 0 ≡ grow fuel next size 0
unfolding grow
grow_step fuel n next size h e = ground arith

-- What a growth loop leaves: a size that covers the request, by less than one step too much.
abbrev pub Reaches : ℕ → ℕ → ℕ → ℕ → Option ℕ → Type 0
Reaches n size block bound none = ⊥
Reaches n size block bound (some r) = (size ≤ r) × ((r ≡ n) ⊎ (r < bound))

grow-Reaches :
    (fuel n size block : ℕ)
    → 0 < n
    → size ≤ 2 ^ 31
    → block < 2 ^ 31
    → 0 < fuel
    → size < fuel + n
    → Reaches n size block (size + (if block == 0 then size else block)) (grow fuel n size block)
unfolding grow
grow-Reaches zero n size block p s b f g = absurd (omega arith)
grow-Reaches (suc fuel) n size block p s b f g =
    let step : ℕ = if block == 0 then n else block in
    elim (Bool-cases (ltb n size)) [
      | inl more ↦ rw more (
          ground (
            arith,
            grow-Reaches fuel (u32 (n + step)) size block (ground arith) s b (ground arith)
                (ground arith),
          ))
      | inr done ↦ rw done (ground arith)
    ]

-- The limit in force: ACTOR_BUFFER_MAX_SIZE unless the caller gives one.
abbrev pub max_in_force : ℕ → ℕ
max_in_force max_size = if max_size == 0 then default_max_size else max_size

module _ (c : Platform) (b : Buffer) (size initial block max_size : ℕ) (m : Memory) where
  -- A request of up to 2 ^ 31 bytes is refused above the limit, with nothing changed, and is
  -- otherwise allocated as it is: the size that the loop computes has no effect.
  pub reserve_with_limits_lem :
      size ≤ 2 ^ 31
      → block < 2 ^ 31
      → reserve_with_limits c b size initial block max_size m
        ≡ some (
            if ltb (max_in_force max_size) size then (out_of_memory, b, m) else set_size c b size m)
  unfolding reserve_with_limits grow_rounds limit_size start_size
  reserve_with_limits_lem s bl =
      ground (arith, grow-Reaches grow_rounds (start_size b initial) size block)

module _ (h : Allocator) (b : Buffer) (size : ℕ) (m : Memory) where
  -- What `actor_buffer_reserve` does on a request of up to 2 ^ 31 bytes with a managed buffer that
  -- is too small, where its owner has no allocation method: it reports success in any case, and
  -- above the default limit nothing is allocated.
  pub reserve_lem :
      b.allocated_size < size
      → size ≤ 2 ^ 31
      → b.owner ≢ 0
      → let (_, b', m') = set_size (default_platform h) b size m in
        reserve (default_platform h) b size m
        ≡ some (if ltb default_max_size size then (ok, b, m) else (ok, b', m'))
  unfolding reserve allocation_callback
  reserve_lem lt s o = ground (arith, reserve_with_limits_lem (default_platform h) b size 0 0 0 m)

  pub reserve_enough :
      size ≤ b.allocated_size → reserve (default_platform h) b size m ≡ some (ok, b, m)
  unfolding reserve
  reserve_enough le = ground arith

-- `double j n` is `n * 2 ^ j`.
unfoldable pub double : ℕ → ℕ → ℕ
double zero n = n
double (suc j) n = double j (n + n)

le-double : (j n : ℕ) → n ≤ double j n
unfolding double
le-double zero n = omega arith
le-double (suc j) n = omega (arith, le-double j (n + n))

grow_zero : (fuel size : ℕ) → 0 < size → grow fuel 0 size 0 ≡ none
unfolding grow
grow_zero zero size h = refl
grow_zero (suc fuel) size h = ground (arith, grow_zero fuel size)

grow_wraps :
    (j n size fuel : ℕ) → double (suc j) n ≡ 2 ^ 32 → 2 ^ 31 < size → grow fuel n size 0 ≡ none
unfolding double
grow_wraps j n size zero e h = unfold grow in refl
grow_wraps zero n size (suc fuel) e h =
    grow_step fuel n 0 size (omega arith) (omega arith) ∙ grow_zero fuel size (omega arith)
grow_wraps (suc j) n size (suc fuel) e h =
    let small : n + n + (n + n) ≤ 2 ^ 32 = omega (arith, le-double j (n + n + (n + n))) in
    grow_step fuel n (n + n) size (omega arith) (omega arith) ∙ grow_wraps j (n + n) size fuel e h

-- A buffer that grows by doubling and whose size is a power of two, which is where doubling starts
-- from 32 and stays, hangs on any request above 2 ^ 31: the size wraps to 0, which doubles to 0.
pub reserve_with_limits_hangs :
    (c : Platform) (b : Buffer) (size initial max_size : ℕ) (m : Memory) (j : ℕ)
    → double (suc j) (start_size b initial) ≡ 2 ^ 32
    → 2 ^ 31 < size
    → reserve_with_limits c b size initial 0 max_size m ≡ none
unfolding reserve_with_limits start_size
reserve_with_limits_hangs c b size initial max_size m j e h =
    ground (arith, grow_wraps j (start_size b initial) size grow_rounds e h)

-- A write from memory that needs more than the default limit, of up to 2 ^ 31 bytes, to a buffer that
-- is too small and whose owner has no allocation method: `reserve` reports a success and leaves the
-- buffer and memory as they were, so that the write is the copy to a payload that ends before it,
-- which is a fault.
pub write_overruns :
    (h : Allocator) (lookup : ℕ → Option Buffer) (b : Buffer) (position source size : ℕ)
    (m : Memory)
    → default_max_size < position + size
    → position + size ≤ 2 ^ 31
    → b.allocated_size < position + size
    → b.owner ≢ 0
    → source ≢ 0
    → 0 < size
    → (reserve (default_platform h) b (position + size) m ≡ some (ok, b, m))
      × (write (default_platform h) lookup b position source size m
          ≡ put_bytes (default_platform h) b position source size m)
      × (put_bytes (default_platform h) b position source size m ≡ none)
unfolding write write_plain put_bytes
write_overruns h lookup b position source size m big s lt o src pos =
    let refused : reserve (default_platform h) b (position + size) m ≡ some (ok, b, m) =
      ground (arith, reserve_lem h b (position + size) m lt s o) in
    (refused, ground (arith, refused), ground arith)
