-- ===== src/Store/Pool.antt =====
-- The pool of buffer.c that node.c takes the structs of buffers and jobs from: memory that is handed
-- out in pieces, of which the free ones are all zero.
use stm32app.Base.{
  ℕ, zero, suc, ◌+◌, ◌-◌, ◌^◌, ◌≤◌, ◌<◌, ◌≡◌, ◌≢◌, ◌∙◌, refl, ap, inl, inr, Bool, true, false, ◌&&◌,
  Option, none, some, arith, ltb, ◌==◌, if◌then◌else◌, Bool-cases,
}
use stm32app.Signal.{Signal, is_set}
use native.Mathlib.Nat.{add_assoc, add-zero}
use stm32app.Memory.{Memory, memset_zero}
use stm32app.Buffer.{Buffer}
use stm32app.Store.{Store, get_next_page, get_last_page, page_rounds}

-- The inner loop: `n` bytes from `p` on are 0.
unfoldable pub is_clear : Memory → ℕ → ℕ → Bool
is_clear m p zero = true
is_clear m p (suc n) = m.byte p == 0 && is_clear m (p + 1) n

-- The offsets of a page from `offset` on, at most as many as there is fuel: `some 0` is a page
-- without a free piece, as no piece stands at NULL, and `none` a loop that is not over.
unfoldable pub find_in_page : ℕ → Memory → Buffer → ℕ → ℕ → Option ℕ
find_in_page zero m page offset size = none
find_in_page (suc fuel) m page offset size =
    let rest = find_in_page fuel m page (offset + size) size in
    if ltb offset page.allocated_size
    then (if is_clear m (page.payload + offset) size then some (page.payload + offset) else rest)
    else some 0

-- A piece has a size, so that a page has no more pieces than bytes.
unfoldable pub find_from : ℕ → ℕ → ℕ → ℕ → Store → Option ℕ
find_from zero pool page size s = none
find_from (suc fuel) pool page size s =
    let b = s.buffers page in
    let rest = find_from fuel pool (get_next_page page pool s) size s in
    if page == 0 then some 0 else elim (find_in_page (suc b.allocated_size) s.memory b 0 size) [
      | none ↦ none
      | some p ↦ if p == 0 then rest else some p
    ]

-- `append_page` is `actor_buffer_append(pool, NULL, sizeof(actor_buffer_t))`, by which the owner of the
-- pool, src/mothership.c, links a page to it: a pool without a free piece is to grow, and the payload
-- of its last page is handed out.
unfoldable pub pool_allocate :
    (Store → Option (Signal × Store)) → ℕ → ℕ → Store → Option (ℕ × Store)
pool_allocate append_page pool size s = elim (find_from page_rounds pool pool size s) [
  | none ↦ none
  | some p ↦
      if p == 0
      then elim (append_page s) [
        | none ↦ none
        | some (signal, t) ↦ if is_set signal then some (0, t) else elim (get_last_page pool t) [
          | none ↦ none
          | some page ↦ some ((t.buffers page).payload, t)
        ]
      ]
      else some (p, s)
]

unfoldable pub pool_free : ℕ → ℕ → Store → Store
pool_free p size s = record s { memory = memset_zero p size s.memory }

-- The offset of the `j`-th piece from `offset` on.
unfoldable pub piece : ℕ → ℕ → ℕ → ℕ
piece offset size zero = offset
piece offset size (suc j) = piece (offset + size) size j

-- The bytes at `p` are one of the pieces of the page from `offset` on, the `j`-th or one before it,
-- and free.
abbrev pub IsFreePiece : Memory → Buffer → (offset size j p : ℕ) → Type 0
IsFreePiece m page offset size j p =
    (k : ℕ) × (k ≤ j)
    × (p ≡ page.payload + piece offset size k)
    × (p < page.payload + page.allocated_size)
    × ((i : ℕ) → i < size → m.byte (p + i) ≡ 0)

is_clear_lem : (m : Memory) (n p : ℕ) → is_clear m p n ≡ true → (i : ℕ) → i < n → m.byte (p + i) ≡ 0
unfolding is_clear
is_clear_lem m zero p h i lt = absurd (omega arith)
is_clear_lem m (suc n) p h zero lt = ground (arith, ap m.byte (add-zero p))
is_clear_lem m (suc n) p h (suc i) lt =
    ground
      (arith, is_clear_lem m n (p + 1) (ground arith) i (omega arith), ap m.byte (add_assoc p 1 i))

is_clear_of_zero :
    (m : Memory) (n p : ℕ) → ((i : ℕ) → i < n → m.byte (p + i) ≡ 0) → is_clear m p n ≡ true
unfolding is_clear
is_clear_of_zero m zero p h = refl
is_clear_of_zero m (suc n) p h =
    let first : m.byte p ≡ 0 = ap m.byte (omega arith) ∙ h 0 (omega arith) in
    let rest : is_clear m (p + 1) n ≡ true =
      is_clear_of_zero m n (p + 1) (λ i lt. ap m.byte (omega arith) ∙ h (suc i) (omega arith)) in
    ground arith

piece-le : (j offset size : ℕ) → offset ≤ piece offset size j
unfolding piece
piece-le zero offset size = omega arith
piece-le (suc j) offset size = omega (arith, piece-le j (offset + size) size)

-- A page with a free piece gives one, the first from the offset on.
find_in_page-IsFreePiece :
    (fuel : ℕ) (m : Memory) (page : Buffer) (offset size j : ℕ)
    → 0 < size
    → piece offset size j < page.allocated_size
    → is_clear m (page.payload + piece offset size j) size ≡ true
    → page.allocated_size < fuel + offset
    → (p : ℕ) × (find_in_page fuel m page offset size ≡ some p) × IsFreePiece m page offset size j p
unfolding find_in_page piece
find_in_page-IsFreePiece zero m page offset size j pos inside free enough =
    absurd (omega (arith, piece-le j offset size))
find_in_page-IsFreePiece (suc fuel) m page offset size zero pos inside free enough =
    let more : ltb offset page.allocated_size ≡ true = ground arith in
    (
      page.payload + offset,
      rw (more, free) refl,
      (0, omega arith, refl, omega arith, is_clear_lem m size (page.payload + offset) free),
    )
find_in_page-IsFreePiece (suc fuel) m page offset size (suc j) pos inside free enough =
    let le : offset + size ≤ piece (offset + size) size j = piece-le j (offset + size) size in
    let more : ltb offset page.allocated_size ≡ true = ground arith in
    elim (Bool-cases (is_clear m (page.payload + offset) size)) [
      | inl here ↦ (
        page.payload + offset,
        rw (more, here) refl,
        (0, omega arith, refl, omega arith, is_clear_lem m size (page.payload + offset) here),
      )
      | inr full ↦
          let (p, found, (k, le_k, at, within, zeros)) =
            find_in_page-IsFreePiece fuel m page (offset + size) size j pos inside free
              (omega arith) in
          (p, rw (more, full) found, (suc k, omega (arith, le_k), at, within, zeros))
    ]

pool_free-is_clear : (m : Memory) (p size : ℕ) → is_clear (memset_zero p size m) p size ≡ true
unfolding memset_zero
pool_free-is_clear m p size = is_clear_of_zero (memset_zero p size m) size p (λ i lt. ground arith)

find_first :
    (fuel pool size p : ℕ) (s : Store)
    → pool ≢ 0
    → find_in_page (suc (s.buffers pool).allocated_size) s.memory (s.buffers pool) 0 size ≡ some p
    → p ≢ 0
    → find_from (suc fuel) pool pool size s ≡ some p
unfolding find_from
find_first fuel pool size p s nz found some_p =
    let a : (pool == 0) ≡ false = ground arith in
    let b : (p == 0) ≡ false = ground arith in rw (a, found, b) refl

allocate_found :
    (append_page : Store → Option (Signal × Store)) (pool size p : ℕ) (s : Store)
    → find_from page_rounds pool pool size s ≡ some p
    → p ≢ 0
    → pool_allocate append_page pool size s ≡ some (p, s)
unfolding pool_allocate
allocate_found append_page pool size p s found some_p =
    let b : (p == 0) ≡ false = ground arith in rw (found, pool_allocate, b) refl

-- A piece of the pool's first page that is freed is found again: the next allocation needs no page,
-- changes nothing, and takes a piece of the page, a whole number of pieces from its start, whose bytes
-- are all zero: the freed one or one before it.
pub pool_free-allocate :
    (append_page : Store → Option (Signal × Store)) (pool size j : ℕ) (s : Store)
    → pool ≢ 0
    → (s.buffers pool).payload ≢ 0
    → 0 < size
    → piece 0 size j < (s.buffers pool).allocated_size
    → let at = (s.buffers pool).payload + piece 0 size j in
      let s' = pool_free at size s in
      (p : ℕ) × (pool_allocate append_page pool size s' ≡ some (p, s'))
      × IsFreePiece s'.memory (s.buffers pool) 0 size j p
unfolding pool_free
pool_free-allocate append_page pool size j s nz nn pos inside =
    let b : Buffer = s.buffers pool in
    let m : Memory = memset_zero (b.payload + piece 0 size j) size s.memory in
    let (p, found, f) =
      find_in_page-IsFreePiece (suc b.allocated_size) m b 0 size j pos inside
        (pool_free-is_clear s.memory (b.payload + piece 0 size j) size) (omega arith) in
    let (k, _, at, _, _) = f in
    let some_p : p ≢ 0 = omega (arith, at) in
    (
      p,
      allocate_found append_page pool size p _
          (unfold page_rounds in find_first (2 ^ 32 - 1) pool size p _ nz found some_p) some_p,
      f,
    )
