-- ===== src/Buffer.antt =====
-- actor_rtos/src/actor/buffer.h and the operations of buffer.c on one buffer: growth, writes, the
-- ring buffer's drain, trimming. A result of `none` is a run that does not come back: a failed
-- `actor_assert` loops for ever, a growth loop that does not end, or a write outside the payload.
pub mod Growth
pub mod Append
pub mod Ring
mod Tests
use stm32app.Base.{
  ℕ, zero, suc, ◌+◌, ◌-◌, ◌*◌, ◌%◌, ◌^◌, Bool, not, ◌&&◌, ◌||◌, Option, none, some, bit_and, bit_or,
  ltb, leb, ◌==◌, if◌then◌else◌,
}
use stm32app.Signal.{Signal, ok, out_of_memory, not_implemented, is_set, is_not_implemented}
use stm32app.Memory.{Memory, Allocator, memcpy}

-- Pointers are addresses; `owner` is an actor's, `next` a buffer's.
pub record Buffer : Type 0 where
  pub owner : ℕ
  pub payload : ℕ
  pub next : ℕ
  pub size : ℕ
  pub allocated_size : ℕ
  pub offset_from_allocation : ℕ
  pub users : ℕ
  pub options : ℕ

abbrev pub unmanaged_flag : ℕ
unmanaged_flag = 1

abbrev pub aligned_flag : ℕ
aligned_flag = 2

abbrev pub dma_flag : ℕ
dma_flag = 4

abbrev pub ext_flag : ℕ
ext_flag = 8

abbrev pub chunked_flag : ℕ
chunked_flag = 16

abbrev pub has_flag : Buffer → ℕ → Bool
has_flag b flag = not (bit_and b.options flag == 0)

-- ACTOR_BUFFER_DYNAMIC_SIZE, the size that marks a pointer to a buffer.
abbrev pub dynamic_size : ℕ
dynamic_size = 2 ^ 32 - 1

abbrev pub u32 : ℕ → ℕ
u32 n = n % 2 ^ 32

abbrev pub u8 : ℕ → ℕ
u8 n = n % 2 ^ 8

abbrev pub Outcome : Type 0
Outcome = Option (Signal × Buffer × Memory)

-- `while (new_size < size) new_size += block_size ? block_size : new_size;` over uint32_t. There
-- are 2 ^ 32 values of `new_size`, so a loop still running after as many rounds never ends.
unfoldable pub grow : ℕ → ℕ → ℕ → ℕ → Option ℕ
grow zero new_size size block_size = none
grow (suc fuel) new_size size block_size =
    let step = if block_size == 0 then new_size else block_size in
    let rest = grow fuel (u32 (new_size + step)) size block_size in
    if ltb new_size size then rest else some new_size

unfoldable pub grow_rounds : ℕ
grow_rounds = 2 ^ 32

abbrev pub initial_size : ℕ
initial_size = 32

abbrev pub default_max_size : ℕ
default_max_size = 1024 * 16

unfoldable pub start_size : Buffer → ℕ → ℕ
start_size b initial =
    if b.allocated_size == 0
    then (if initial == 0 then initial_size else initial)
    else b.allocated_size

-- `if (new_size > max_size)`: the size to use, or nothing where the request is above the limit.
unfoldable pub limit_size : ℕ → ℕ → ℕ → Option ℕ
limit_size new_size size max_size =
    if ltb max_size new_size
    then (if leb size max_size then some max_size else none)
    else some new_size

-- The heap, and the weak symbol `actor_buffer_allocation_callback`, which node.c defines by a
-- method of the owner's class.
pub record Platform : Type 0 where
  pub heap : Allocator
  pub on_allocation : Buffer → ℕ → Memory → Signal × Buffer × Memory

-- The weak definition of the callback, and the platform that uses it.
unfoldable pub allocation_callback : Buffer → ℕ → Memory → Signal × Buffer × Memory
allocation_callback b size m = (not_implemented, b, m)

abbrev pub default_platform : Allocator → Platform
default_platform h = record { heap = h; on_allocation = allocation_callback }

module _ (c : Platform) where
  -- The regions ACTOR_REGION_DMA and ACTOR_REGION_EXT, or none.
  unfoldable pub region_of : Buffer → ℕ
  region_of b = if has_flag b dma_flag then 8 else if has_flag b ext_flag then 4 else 0

  unfoldable pub buffer_realloc : Buffer → ℕ → Memory → ℕ × Memory
  unfolding region_of
  buffer_realloc b size m = c.heap.realloc (region_of b) b.payload size m

  unfoldable pub set_size : Buffer → ℕ → Memory → Signal × Buffer × Memory
  unfolding buffer_realloc
  set_size b size m =
      let (p, m') = buffer_realloc b size m in
      (if p == 0 then out_of_memory else ok, record b { allocated_size = size; payload = p }, m')

  -- The size that was computed is dropped: both ways out call `set_size` with the request itself.
  unfoldable pub reserve_with_limits : Buffer → ℕ → ℕ → ℕ → ℕ → Memory → Outcome
  reserve_with_limits b size initial block_size max_size m =
      let max_size' = if max_size == 0 then default_max_size else max_size in
      elim (grow grow_rounds (start_size b initial) size block_size) [
        | none ↦ none
        | some new_size ↦ elim (limit_size new_size size max_size') [
          | none ↦ some (out_of_memory, b, m)
          | some _ ↦ some (set_size b size m)
        ]
      ]

  -- Returns 0 whatever became of the allocation.
  unfoldable pub reserve : Buffer → ℕ → Memory → Outcome
  reserve b size m =
      if ltb b.allocated_size size
      then (if b.owner == 0
          then none
          else (let (signal, b', m') = c.on_allocation b size m in
              if is_not_implemented signal
              then elim (reserve_with_limits b' size 0 0 0 m') [
                | none ↦ none
                | some (_, b'', m'') ↦ some (ok, b'', m'')
              ]
              else some (ok, b', m')))
      else some (ok, b, m)

  -- The copy at the end of `actor_buffer_write`: a byte outside the payload is a fault.
  unfoldable pub put_bytes : Buffer → ℕ → ℕ → ℕ → Memory → Outcome
  put_bytes b position source size m =
      if source == 0
      then some (ok, b, m)
      else if size == 0 || (not (b.payload == 0) && leb (position + size) b.allocated_size)
      then some
          (ok, record b { size = u32 (b.size + size) }, memcpy (b.payload + position) source size m)
      else none

  unfoldable pub write_plain : Buffer → ℕ → ℕ → ℕ → Memory → Outcome
  write_plain b position source size m = elim (reserve b (u32 (position + size)) m) [
    | none ↦ none
    | some (signal, b', m') ↦
        if is_set signal then some (signal, b', m') else put_bytes b' position source size m'
  ]

  -- `lookup` reads another buffer's struct, where the size says that the data is one.
  unfoldable pub write : (ℕ → Option Buffer) → Buffer → ℕ → ℕ → ℕ → Memory → Outcome
  write lookup b position source size m =
      if not (source == 0) && size == dynamic_size
      then elim (lookup source) [
        | none ↦ none
        | some other ↦ write_plain b position other.payload other.size m
      ]
      else write_plain b position source size m

  unfoldable pub append : (ℕ → Option Buffer) → Buffer → ℕ → ℕ → Memory → Outcome
  append lookup b source size m = write lookup b b.size source size m

  -- Positions and sizes are uint16_t; a difference of two is an int and turns into a uint32_t.
  unfoldable pub read_from_ring_buffer :
      (ℕ → Option Buffer) → Buffer → ℕ → ℕ → ℕ → ℕ → Memory → Outcome
  read_from_ring_buffer lookup b ring ring_size previous position m =
      if ltb previous position
      then append lookup b (ring + previous) (position - previous) m
      else elim (append lookup b (ring + previous) (u32 (2 ^ 32 + ring_size - previous)) m) [
        | none ↦ none
        | some (signal, b', m') ↦
            if not (is_set signal) && ltb 0 position
            then append lookup b' ring position m'
            else some (signal, b', m')
      ]

unfoldable pub trim_left : Buffer → ℕ → Buffer
trim_left b offset = record b {
  payload = u32 (b.payload + offset);
  size = if b.size == 0 then 0 else u32 (2 ^ 32 + b.size - offset);
  offset_from_allocation = u8 (b.offset_from_allocation + offset);
}

unfoldable pub trim_right : Buffer → ℕ → Buffer
trim_right b offset = record b { size = u32 (2 ^ 32 + b.size - offset) }

-- `actor_assert(size); actor_assert(data);`
unfoldable pub set_data : Buffer → ℕ → ℕ → Option Buffer
set_data b source size =
    if size == 0 || source == 0
    then none
    else some (record b { payload = source; allocated_size = size })

-- `actor_buffer_align`: `alignment` is a divisor, so 0 is a fault; the offset is a uint8_t.
unfoldable pub align : Buffer → ℕ → Option Buffer
unfolding trim_left
align b alignment =
    if alignment == 0
    then none
    else (let offset = u8 (alignment - b.payload % alignment) in
        let t = trim_left b offset in
        let t' = record t { allocated_size = u32 (2 ^ 32 + t.allocated_size - offset) } in
        let moved = if ltb 0 offset then t' else b in
        some (record moved { options = bit_or moved.options aligned_flag }))
