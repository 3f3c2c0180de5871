-- ===== src/Storage/Paging.antt =====
-- How the tasks of at24c.c step over pages.
use native.Mathlib.Nat.{mod-lt, mod-le, add-zero, mod-add-div, add-mod_right, mul-mod_right}
use stm32app.Base.{
  ℕ, ◌+◌, ◌-◌, ◌*◌, ◌/◌, ◌%◌, ◌^◌, ◌≤◌, ◌<◌, ◌≡◌, refl, ap, ◌∙◌, some, arith, ◌==◌, if◌then◌else◌,
  true, false, [], ◌∷◌, ◌++◌,
}
use stm32app.Signal.{waiting}
use stm32app.Event.{Event, EventType}
use stm32app.Job.{JobSignal, task_wait, task_loop}
use stm32app.Store.{System}
use stm32app.Bytes.{get_number_of_bytes_intesecting_page}
use stm32app.Bytes.Pages.{get_number_of_bytes_intesecting_page_lem}
use stm32app.Storage.{Eeprom, transfer, move_bytes}

-- What a step asks the bus for: bytes from the counter on, of the buffer and of the chip.
abbrev pub asks : (ℕ → ℕ) → EventType → (buffer address bytes : ℕ) → Eeprom → Event
asks pack type buffer address bytes d = record {
  type = type;
  status = waiting;
  payload = (d.store.buffers buffer).payload + d.job.counter;
  size = bytes;
  argument = pack (address + d.job.counter);
  producer = d.job.actor;
  consumer = d.i2c;
}

-- What a step leaves: the counter is past the bytes, and one event asks the bus for them.
abbrev pub Moves : (ℕ → ℕ) → EventType → (buffer address bytes : ℕ) → Eeprom → Eeprom → Type 0
Moves pack type buffer address bytes d d' =
    (d'.job.counter ≡ d.job.counter + bytes)
    × (d'.published ≡ d.published ++ (asks pack type buffer address bytes d ∷ []))
    × (d'.page_size ≡ d.page_size)

-- The first byte of the next page is the start of a page.
next_page-mod :
    (address page_size : ℕ) → (address - address % page_size + page_size) % page_size ≡ 0
next_page-mod address page_size =
    let whole : address - address % page_size ≡ page_size * (address / page_size) =
      omega (arith, mod-add-div address page_size) in
    rw whole (
      add-mod_right (page_size * (address / page_size)) page_size
      ∙ mul-mod_right page_size (address / page_size))

module _ (y : System) (pack : ℕ → ℕ) (type : EventType) (buffer address size : ℕ) where
  moved : ℕ → Eeprom → JobSignal × Eeprom
  moved bytes d = move_bytes y pack type buffer address size bytes d

  move_bytes_lem :
      (bytes : ℕ) (d : Eeprom)
      → address + d.job.counter < 2 ^ 32
      → d.job.counter + bytes < 2 ^ 32
      → ((moved bytes d).0 ≡ (if d.job.counter + bytes == size then task_wait else task_loop))
        × Moves pack type buffer address bytes d (moved bytes d).1
  unfolding moved move_bytes
  move_bytes_lem bytes d fits small =
      let a : (address + d.job.counter) % 2 ^ 32 ≡ address + d.job.counter = omega arith in
      let b : (d.job.counter + bytes) % 2 ^ 32 ≡ d.job.counter + bytes = omega arith in
      rw (a, b) (refl, (refl, refl, refl))

  transfer-moved :
      (bytes : ℕ) (d : Eeprom)
      → address + d.job.counter < 2 ^ 32
      → get_number_of_bytes_intesecting_page (address + d.job.counter) size d.page_size ≡ some bytes
      → transfer y pack type buffer address size d ≡ some (moved bytes d)
  unfolding transfer moved
  transfer-moved bytes d fits e =
      let a : (address + d.job.counter) % 2 ^ 32 ≡ address + d.job.counter = omega arith in
      rw (a, transfer, e) refl

  step :
      (bytes : ℕ) (d : Eeprom)
      → address + d.job.counter < 2 ^ 32
      → d.job.counter + bytes < 2 ^ 32
      → get_number_of_bytes_intesecting_page (address + d.job.counter) size d.page_size ≡ some bytes
      → (d' : Eeprom) × (transfer y pack type buffer address size d
          ≡ some (if d.job.counter + bytes == size then task_wait else task_loop, d'))
        × Moves pack type buffer address bytes d d'
  step bytes d fits small e =
      let (signal, moves) = move_bytes_lem bytes d fits small in
      (
        (moved bytes d).1,
        transfer-moved bytes d fits e ∙ ap (λ x. some (x, (moved bytes d).1)) signal,
        moves,
      )

  -- A range that ends on its first page is moved in one step: one event asks the bus for all of its
  -- bytes, from the start of the buffer and at the address of the chip, the counter is the size, and
  -- the job waits. Addresses and pages are of 16 bits.
  pub transfer-within :
      (d : Eeprom)
      → d.job.counter ≡ 0
      → 0 < d.page_size
      → d.page_size < 2 ^ 16
      → address < 2 ^ 16
      → address % d.page_size + size ≤ d.page_size
      → (d' : Eeprom) × (transfer y pack type buffer address size d ≡ some (task_wait, d'))
        × Moves pack type buffer address size d d'
  transfer-within d z pos small low inside =
      let e : get_number_of_bytes_intesecting_page (address + d.job.counter) size d.page_size
          ≡ some size =
        rw (z, add-zero)
          (get_number_of_bytes_intesecting_page_lem address size d.page_size pos (omega arith)
              (omega arith)
            ∙ ground arith) in
      let (d', run, moves) = step size d (omega arith) (omega arith) e in
      let done : (d.job.counter + size == size) ≡ true = ground arith in
      (d', run ∙ rw done refl, moves)

  -- A range of at most a page that goes on to a second page: a first step asks the bus for the bytes
  -- up to the page's end, a second one for as many bytes as the whole size again, from where the first
  -- one ended. Neither ends the task, and the counter is past the size by then. Addresses and pages
  -- are of 16 bits.
  pub transfer_overshoots :
      (d : Eeprom)
      → d.job.counter ≡ 0
      → 0 < d.page_size
      → d.page_size < 2 ^ 16
      → address < 2 ^ 16
      → size ≤ d.page_size
      → d.page_size < address % d.page_size + size
      → (d' : Eeprom) × (transfer y pack type buffer address size d ≡ some (task_loop, d'))
        × Moves pack type buffer address (d.page_size - address % d.page_size) d d'
        × ((d'' : Eeprom) × (transfer y pack type buffer address size d' ≡ some (task_loop, d''))
            × Moves pack type buffer address size d' d''
            × (size < d''.job.counter))
  transfer_overshoots d z pos small low page across =
      let lt : address % d.page_size < d.page_size = mod-lt address pos in
      let le : address % d.page_size ≤ address = mod-le address d.page_size in
      let first : ℕ = d.page_size - address % d.page_size in
      let e : get_number_of_bytes_intesecting_page (address + d.job.counter) size d.page_size
          ≡ some first =
        rw (z, add-zero)
          (get_number_of_bytes_intesecting_page_lem address size d.page_size pos (omega arith)
              (omega arith)
            ∙ ground arith) in
      let (d', run, (count, sent, same)) = step first d (omega arith) (omega arith) e in
      let more : (d.job.counter + first == size) ≡ false = ground arith in
      let addr : address + d'.job.counter ≡ address - address % d.page_size + d.page_size =
        omega (arith, count) in
      let start : (address - address % d.page_size + d.page_size) % d.page_size ≡ 0 =
        next_page-mod address d.page_size in
      let e' : get_number_of_bytes_intesecting_page (address + d'.job.counter) size d'.page_size
          ≡ some size =
        rw (addr, same)
          (get_number_of_bytes_intesecting_page_lem (address - address % d.page_size + d.page_size)
              size d.page_size pos (omega arith) (omega arith)
            ∙ ground (arith, start)) in
      let (d'', run', (count', sent', same')) =
        step size d' (omega (arith, count)) (omega (arith, count)) e' in
      let past : (d'.job.counter + size == size) ≡ false = ground (arith, count) in
      (
        d',
        run ∙ rw more refl,
        (count, sent, same),
        (d'', run' ∙ rw past refl, (count', sent', same'), omega (arith, count, count')),
      )
