-- ===== src/Buffer/Ring.antt =====
-- `actor_buffer_read_from_ring_buffer`: draining a circular buffer into a growable one.
use stm32app.Base.{
  ℕ, zero, suc, ◌+◌, ◌-◌, ◌%◌, ◌^◌, ◌≤◌, ◌<◌, ◌≡◌, refl, ◌≢◌, ◌∙◌, Option, none, some, sym, ◌⊎◌,
  arith, true, false, ltb, ◌==◌, Bool-cases, inl, inr, if◌then◌else◌, List, [], ◌∷◌, ◌++◌, ap,
}
use mathlib.Core.Path.{subst}
use native.Mathlib.Nat.{add_assoc}
use mathlib.Core.List.{append_assoc, append-nil}
use stm32app.Signal.{ok}
use stm32app.Memory.{Memory, Allocator, IsAllocator, InOther, read}
use stm32app.Buffer.{
  Buffer, Outcome, default_max_size, default_platform, buffer_realloc, append,
  read_from_ring_buffer,
}
use stm32app.Buffer.Append.{
  contents, IsManaged, IsApart, HasRoom, appended, append-appended, contents-appended,
  appended-IsManaged, IsApart-appended, read-appended,
}

-- `n` bytes of the ring from index `i` on, the index going back to 0 at the ring's end.
unfoldable pub drain : Memory → ℕ → ℕ → ℕ → ℕ → List ℕ
drain m ring ring_size i zero = []
drain m ring ring_size i (suc n) =
    m.byte (ring + i) ∷ drain m ring ring_size (if i + 1 == ring_size then 0 else i + 1) n

-- How many bytes lie between two positions; the same position twice stands for a full round.
abbrev pub unread : ℕ → ℕ → ℕ → ℕ
unread ring_size previous position =
    if ltb previous position then position - previous else ring_size - previous + position

module _ (m : Memory) (ring ring_size : ℕ) where
  -- Up to the end the ring reads like plain memory.
  drain-inside : (i n : ℕ) → i + n ≤ ring_size → drain m ring ring_size i n ≡ read m (ring + i) n
  unfolding drain read
  drain-inside i zero h = refl
  drain-inside i (suc zero) h = refl
  drain-inside i (suc (suc n)) h =
      ground (arith, drain-inside (i + 1) (suc n), ap (λ a. read m a (suc n)) (add_assoc ring i 1))

  -- Up to the end and on from the start.
  drain-around :
      (n i k : ℕ)
      → i + suc n ≡ ring_size
      → drain m ring ring_size i (suc n + k)
        ≡ read m (ring + i) (suc n) ++ drain m ring ring_size 0 k
  unfolding drain read
  drain-around zero i k h = let e : 1 + k ≡ suc k = omega arith in rw e (ground arith)
  drain-around (suc n) i k h =
      let e : suc (suc n) + k ≡ suc (suc n + k) = omega arith in
      rw e
        (ground (arith, drain-around n (i + 1) k, ap (λ a. read m a (suc n)) (add_assoc ring i 1)))

-- The heap has room for whatever a buffer may ask of it.
abbrev pub IsRoomy : Allocator → Type 0
IsRoomy h = (r p n : ℕ) (m : Memory) → n ≤ default_max_size → (h.realloc r p n m).0 ≢ 0

-- A part of a range that stands apart does so too.
IsApart-part :
    (b : Buffer) (m : Memory) (p k i n : ℕ) → IsApart b m p k → i + n ≤ k → IsApart b m (p + i) n
IsApart-part b m p k i n a le j hj =
    subst
      (λ q. InOther b.payload q m.blocks × ((q < b.payload) ⊎ (b.payload + b.allocated_size ≤ q)))
      (sym (add_assoc p i j)) (a (i + j) (omega arith))

-- What a drain leaves behind: the buffer holds `more` besides what it held, and is managed.
abbrev pub Extends : Buffer → Memory → List ℕ → Outcome → Type 0
Extends b m more none = ⊥
Extends b m more (some (signal, b', m')) =
    (signal ≡ ok) × (contents b' m' ≡ contents b m ++ more) × IsManaged b' m'

module _ (h : Allocator) (law : IsAllocator h) (roomy : IsRoomy h) (lookup : ℕ → Option Buffer)
    (b : Buffer) (m : Memory) (v : IsManaged b m) where
  room : (n : ℕ) → n ≤ default_max_size → HasRoom h b n m
  unfolding buffer_realloc
  room n le lt = roomy _ b.payload n m le

  append-Extends :
      (p n : ℕ)
      → b.size + n ≤ default_max_size
      → p ≢ 0
      → IsApart b m p n
      → Extends b m (read m p n) (append (default_platform h) lookup b p n m)
  append-Extends p n le nz a =
      rw (append-appended h lookup b p n m v (room (b.size + n) le) le nz) (
        refl,
        contents-appended h law b p n m v (room (b.size + n) le) a,
        appended-IsManaged h law b p n m v (room (b.size + n) le),
      )

Extends-trans :
    (b b' : Buffer) (m m' : Memory) (xs ys zs : List ℕ) (o : Outcome)
    → contents b' m' ≡ contents b m ++ xs
    → xs ++ ys ≡ zs
    → Extends b' m' ys o
    → Extends b m zs o
Extends-trans b b' m m' xs ys zs none e f x = x
Extends-trans b b' m m' xs ys zs (some (signal, b'', m'')) e f x = (
  x.0,
  x.1 ∙ ap (λ l. l ++ ys) e ∙ append_assoc (contents b m) xs ys ∙ ap (λ l. contents b m ++ l) f,
  x.2,
)

module _ (h : Allocator) (law : IsAllocator h) (roomy : IsRoomy h) (lookup : ℕ → Option Buffer)
    (b : Buffer) (m : Memory) (v : IsManaged b m) (ring ring_size previous position : ℕ)
    (nz : ring ≢ 0) (a : IsApart b m ring ring_size) (lt : previous < ring_size)
    (le : position ≤ ring_size) (small : ring_size < 2 ^ 16)
    (fits : b.size + unread ring_size previous position ≤ default_max_size) where
  abbrev Goal : Type 0
  Goal =
      Extends b m (drain m ring ring_size previous (unread ring_size previous position))
        (read_from_ring_buffer (default_platform h) lookup b ring ring_size previous position m)

  straight : ltb previous position ≡ true → Goal
  unfolding read_from_ring_buffer
  straight e =
      rw (e, drain-inside m ring ring_size previous (position - previous) (ground arith))
        (append-Extends h law roomy lookup b m v (ring + previous) (position - previous)
          (ground arith) (omega arith)
          (IsApart-part b m ring ring_size previous (position - previous) a (ground arith)))

  -- The bytes up to the ring's end, and the state once they are appended.
  abbrev tail_size : ℕ
  tail_size = ring_size - previous

  abbrev tail : List ℕ
  tail = read m (ring + previous) tail_size

  abbrev first : Buffer × Memory
  first = appended h b (ring + previous) tail_size m

  pieces : drain m ring ring_size previous (tail_size + position) ≡ tail ++ read m ring position
  pieces =
      let e : tail_size ≡ suc (tail_size - 1) = omega arith in
      rw e (
        drain-around m ring ring_size (tail_size - 1) previous position (omega arith)
        ∙ ap (λ l. read m (ring + previous) (suc (tail_size - 1)) ++ l)
            (drain-inside m ring ring_size 0 position (omega arith)
              ∙ ap (λ p. read m p position) (omega arith)))

  module _ (e : ltb previous position ≡ false) where
    sizes : b.size + tail_size + position ≤ default_max_size
    sizes = ground arith

    tail-IsApart : IsApart b m (ring + previous) tail_size
    tail-IsApart = IsApart-part b m ring ring_size previous tail_size a (omega arith)

    tail_room : HasRoom h b (b.size + tail_size) m
    tail_room = room h law roomy lookup b m v (b.size + tail_size) (omega (arith, sizes))

    front : IsApart b m ring position
    front i hi = a i (omega arith)

    filled : contents first.0 first.1 ≡ contents b m ++ tail
    filled = contents-appended h law b (ring + previous) tail_size m v tail_room tail-IsApart

    managed : IsManaged first.0 first.1
    managed = appended-IsManaged h law b (ring + previous) tail_size m v tail_room

    second : Extends b m (tail ++ read m ring position) (
        if ltb 0 position
        then append (default_platform h) lookup first.0 ring position first.1
        else some (ok, first.0, first.1))
    unfolding read
    second = elim (Bool-cases (ltb 0 position)) [
      | inl more ↦ rw more (
          Extends-trans b first.0 m first.1 tail (read first.1 ring position) _ _ filled
            (ap (λ l. tail ++ l)
              (read-appended h law b (ring + previous) tail_size m v tail_room ring position front))
            (append-Extends h law roomy lookup first.0 first.1 managed ring position
              (omega (arith, sizes)) nz
              (IsApart-appended h law b (ring + previous) tail_size m v tail_room ring position
                front)))
      | inr stop ↦
          let z : position ≡ 0 = ground arith in rw (stop, z, append-nil) (refl, filled, managed)
    ]

    around : Goal
    unfolding read_from_ring_buffer
    around =
        let n : (2 ^ 32 + ring_size - previous) % 2 ^ 32 ≡ tail_size = omega arith in
        rw
          (
            e,
            n,
            append-appended h lookup b (ring + previous) tail_size m v tail_room
                (omega (arith, sizes)) (omega arith),
            pieces,
          )
          second

  -- The drain of a ring of less than 64 KB appends the bytes between the two positions, in the
  -- ring's order and around its end, to a managed buffer, and leaves it managed. The ring lies
  -- outside the buffer, the heap has room, the owner has no allocation method, and the bytes fit
  -- the default limit.
  pub read_from_ring_buffer-Extends :
      Extends b m
        (drain m ring ring_size previous (unread ring_size previous position))
        (read_from_ring_buffer (default_platform h) lookup b ring ring_size previous position m)
  read_from_ring_buffer-Extends = elim (Bool-cases (ltb previous position)) [
    | inl e ↦ straight e
    | inr e ↦ around e
  ]
