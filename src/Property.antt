-- ===== src/Property.antt =====
-- actor_node/src/actor/accessors.c: how an actor's properties are written and read. The values of
-- properties are in memory; the object dictionary's entries and a class's methods are arguments.
pub mod Writes
mod Tests
use stm32app.Base.{
  ℕ, ◌+◌, Bool, true, false, ◌&&◌, Option, none, some, List, [], ◌∷◌, ◌==◌, if◌then◌else◌,
}
use stm32app.Memory.{Memory, read, memcpy}

-- `OD_obj_record_t`: where the value of a property is, and its length.
pub record Field : Type 0 where
  pub original : ℕ
  pub length : ℕ

-- `OD_stream_t`, as far as it is filled in.
pub record Stream : Type 0 where
  pub original : ℕ
  pub length : ℕ
  pub sub_index : ℕ
  pub offset : ℕ

-- Of `actor_class_t` and what calls it: a method that is absent is NULL. `change_phase` is
-- `actor_on_phase_change` for the byte of a phase. Results are numbers of `ODR_t`.
pub record PropertyClass : Type 0 where
  pub phase_subindex : ℕ
  pub change_phase : ℕ → Memory → Option Memory
  pub property_write : Option (Stream → ℕ → ℕ → Memory → ℕ × Memory)
  pub property_read : Option (Stream → ℕ → ℕ → Memory → ℕ × Memory)

-- `memcmp(a, b, n) == 0`.
abbrev pub same_bytes : List ℕ → List ℕ → Bool
same_bytes [] [] = true
same_bytes [] (b ∷ bs) = false
same_bytes (a ∷ bytes) [] = false
same_bytes (a ∷ bytes) (b ∷ bs) = (a == b) && same_bytes bytes bs

abbrev pub stream_of : Field → ℕ → Stream
stream_of f index = record {
  original = f.original;
  length = f.length;
  sub_index = index;
  offset = 0;
}

-- The phase is read where the value is, after the copy.
unfoldable pub write_phase : PropertyClass → Field → (value size : ℕ) → Memory → Option (ℕ × Memory)
write_phase c f value size m =
    let m' = memcpy f.original value size m in
    elim (c.change_phase (m'.byte value) m') [ none ↦ none | some m'' ↦ some (0, m'') ]

unfoldable pub write_value :
    PropertyClass → Field → (index value size : ℕ) → Memory → Option (ℕ × Memory)
write_value c f index value size m = elim (c.property_write) [
  | none ↦ some (0, memcpy f.original value size m)
  | some write ↦ some (write (stream_of f index) value size m)
]

-- `fields` are the entries of the actor's record.
unfoldable pub set_property :
    PropertyClass → (ℕ → Field) → (index value size : ℕ) → Memory → Option (ℕ × Memory)
set_property c fields index value size m =
    let f = fields index in
    if same_bytes (read m f.original size) (read m value size)
    then some (0, m)
    else if index == c.phase_subindex
    then write_phase c f value size m
    else write_value c f index value size m

-- `stream` is what the pointer has already; an address or a size of 0 stands for the property's own.
-- A class without the method is a fault.
unfoldable pub compute_property_stream :
    PropertyClass → (ℕ → Field) → (index target size : ℕ) → Stream → Memory → Option (ℕ × Memory)
compute_property_stream c fields index target size stream m =
    let stream' = if stream.original == 0 then stream_of (fields index) index else stream in
    elim (c.property_read) [
      | none ↦ none
      | some get ↦ some (
          get stream' (if target == 0 then stream'.original else target)
            (if size == 0 then stream'.length else size) m)
    ]

-- `stream` is what the stack holds, for the stream is not initialised.
unfoldable pub get_property_pointer :
    PropertyClass → (ℕ → Field) → (index : ℕ) → Stream → Memory → Option (ℕ × Memory)
get_property_pointer c fields index stream m = elim (c.property_read) [
  | none ↦ some ((fields index).original, m)
  | some get ↦ elim (compute_property_stream c fields index 0 0 stream m) [
    | none ↦ none
    | some (result, m') ↦ some ((fields index).original, m')
  ]
]
