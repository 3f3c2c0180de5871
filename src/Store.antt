-- ===== src/Store.antt =====
-- The buffer structs of buffer.c by address: creation, sharing and release, pages, double buffers.
-- `none` is a run that does not come back, as in `Buffer`.
pub mod Users
pub mod Pages
pub mod Double
pub mod Pool
mod Tests
use stm32app.Base.{
  ℕ, zero, suc, ◌+◌, ◌-◌, ◌%◌, ◌^◌, Bool, true, false, not, ◌&&◌, ◌||◌, Option, none, some, bit_or,
  ltb, leb, ◌==◌, if◌then◌else◌,
}
use stm32app.Signal.{Signal, ok, is_set}
use stm32app.Memory.{Memory, memset_zero}
use stm32app.Buffer.{
  Buffer, Platform, Outcome, u8, u32, unmanaged_flag, aligned_flag, chunked_flag, has_flag,
  dynamic_size, set_size, append, set_data, align, read_from_ring_buffer,
}

-- `buffers` reads the `actor_buffer_t` at an address. A slot of the pool that is free is all zero.
pub record Store : Type 0 where
  pub memory : Memory
  pub buffers : ℕ → Buffer

abbrev pub zero_buffer : Buffer
zero_buffer = record {
  owner = 0;
  payload = 0;
  next = 0;
  size = 0;
  allocated_size = 0;
  offset_from_allocation = 0;
  users = 0;
  options = 0;
}

abbrev pub put : ℕ → Buffer → Store → Store
put p b s = record s { buffers = λ q. if q == p then b else s.buffers q }

abbrev pub lookup : Store → ℕ → Option Buffer
lookup s p = some (s.buffers p)

-- The weak symbols `actor_buffer_alloc` and `actor_buffer_free`, and the platform of `Buffer`.
pub record System : Type 0 where
  pub platform : Platform
  pub alloc : ℕ → Store → ℕ × Store
  pub dispose : ℕ → Store → Store

-- `actor_buffer_free` of node.c on a struct in the pool: `memset` to zero.
abbrev pub pool_dispose : ℕ → Store → Store
pool_dispose p s = put p zero_buffer s

-- An operation of `Buffer` on the struct at `p`.
abbrev pub on_buffer : ℕ → (Buffer → Memory → Outcome) → Store → Option (Signal × Store)
on_buffer p f s = elim (f (s.buffers p) s.memory) [
  | none ↦ none
  | some (signal, b, m) ↦ some (signal, put p b (record s { memory = m }))
]

unfoldable pub reference : ℕ → Store → Store
reference p s = let b = s.buffers p in put p (record b { users = u8 (b.users + 1) }) s

unfoldable pub dereference : ℕ → Store → Option Store
dereference p s =
    let b = s.buffers p in
    if ltb 0 b.users then some (put p (record b { users = b.users - 1 }) s) else none

-- The page after `page` in a loop that starts at `first`, NULL at its end.
unfoldable pub get_next_page : ℕ → ℕ → Store → ℕ
get_next_page page first s =
    let next = (s.buffers page).next in if not (next == 0) && not (next == first) then next else 0

unfoldable pub get_last_page_from : ℕ → ℕ → ℕ → Store → Option ℕ
get_last_page_from zero first last s = none
get_last_page_from (suc fuel) first last s =
    let next = (s.buffers last).next in
    let rest = get_last_page_from fuel first next s in
    if not (next == 0) && not (next == first) then rest else some last

-- As many rounds as there are addresses: a walk that is longer goes in a circle.
unfoldable pub page_rounds : ℕ
page_rounds = 2 ^ 32

unfoldable pub get_last_page : ℕ → Store → Option ℕ
get_last_page p s = get_last_page_from page_rounds p p s

unfoldable pub set_next_page : ℕ → ℕ → Store → Store
set_next_page p next s =
    let s' = put next (record (s.buffers next) { next = (s.buffers p).next }) s in
    put p (record (s'.buffers p) { next = next }) s'

module _ (y : System) where
  -- Frees one page: the payload unless the first buffer is unmanaged, then the struct.
  unfoldable pub dispose_page : ℕ → ℕ → Store → Store
  dispose_page first page s =
      let b = s.buffers page in
      let m =
        if has_flag (s.buffers first) unmanaged_flag
        then s.memory
        else y.platform.heap.free (u32 (2 ^ 32 + b.payload - b.offset_from_allocation)) s.memory in
      y.dispose page (record s { memory = m })

  -- The loop reads `page->next` after the page is freed.
  unfoldable pub destroy_from : ℕ → ℕ → ℕ → Store → Option Store
  destroy_from zero first page s = none
  destroy_from (suc fuel) first page s =
      let s' = dispose_page first page s in
      let rest = destroy_from fuel first (get_next_page page first s') s' in
      if page == 0 then some s else rest

  unfoldable pub destroy : ℕ → Store → Option Store
  destroy p s = destroy_from page_rounds p p s

  unfoldable pub release : ℕ → ℕ → Store → Option Store
  release p actor s =
      if p == 0
      then some s
      else elim (if (s.buffers p).owner == actor then some s else dereference p s) [
        | none ↦ none
        | some s' ↦ if (s'.buffers p).users == 0 then destroy p s' else some s'
      ]

  unfoldable pub buffer_use : ℕ → ℕ → Store → Store
  buffer_use p actor s = if (s.buffers p).owner == actor then s else reference p s

  -- The struct as it stands after `actor_buffer_alloc` and its first assignment.
  abbrev pub fresh : ℕ → ℕ → ℕ → Buffer
  fresh p owner options = record zero_buffer {
    owner = owner;
    options = options;
    next = if has_flag (record zero_buffer { options = options }) chunked_flag then p else 0;
  }

  unfoldable pub create_with_options : ℕ → ℕ → ℕ → ℕ → Store → Option (ℕ × Store)
  create_with_options owner source size options s =
      let (p, s') = y.alloc owner s in
      let b = fresh p owner options in
      if p == 0
      then some (0, s')
      else if size == 0
      then some (p, put p b s')
      else if source == 0
      then (let (signal, b', m) = set_size y.platform b size s'.memory in
          let s'' = put p b' (record s' { memory = m }) in
          if is_set signal
          then elim (release p owner s'') [ none ↦ none | some t ↦ some (p, t) ]
          else some (p, s''))
      else elim (set_data (record b { options = bit_or b.options unmanaged_flag }) source size) [
        | none ↦ none
        | some b' ↦ some (p, put p b' s')
      ]

  unfoldable pub target_with_options : ℕ → ℕ → ℕ → ℕ → Store → Option (ℕ × Store)
  target_with_options owner source size options s =
      if size == dynamic_size
      then some (source, reference source s)
      else create_with_options owner source size options s

  unfoldable pub source_with_options : ℕ → ℕ → ℕ → ℕ → Store → Option (ℕ × Store)
  source_with_options owner source size options s =
      if source == 0 || size == 0
      then none
      else elim (target_with_options owner source size options s) [
        | none ↦ none
        | some (p, t) ↦
            if p == 0
            then none
            else some (p, put p (record (t.buffers p) { size = (t.buffers p).allocated_size }) t)
      ]

  unfoldable pub snapshot_with_options : ℕ → ℕ → ℕ → ℕ → Store → Option (ℕ × Store)
  snapshot_with_options owner source size options s =
      elim (target_with_options owner 0 0 options s) [
        | none ↦ none
        | some (p, t) ↦
            if p == 0
            then none
            else elim (on_buffer p (λ b m. append y.platform (lookup t) b source size m) t) [
              | none ↦ none
              | some (signal, t') ↦ some (p, t')
            ]
      ]

  unfoldable pub aligned_with_options : ℕ → ℕ → ℕ → ℕ → Store → Option (ℕ × Store)
  aligned_with_options owner size options alignment s =
      elim (create_with_options owner 0 (u32 (2 ^ 32 + size + alignment - 1))
        (bit_or options aligned_flag) s) [
          | none ↦ none
          | some (p, t) ↦
              if not (p == 0) && ltb 0 alignment
              then elim (align (t.buffers p) alignment) [
                | none ↦ none
                | some b ↦ some (p, put p b t)
              ]
              else some (p, t)
        ]
