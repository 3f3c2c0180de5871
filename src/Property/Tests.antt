-- ===== src/Property/Tests.antt =====
-- Properties at concrete inputs: property 2 has 4 bytes at 100, and the value is at 200.
use stm32app.Base.{ℕ, ◌≢◌, refl, none, some, [], arith}
use stm32app.Memory.{Memory, memcpy}
use stm32app.Property.{Field, PropertyClass, set_property}
use stm32app.Property.Writes.{IsWritten, set_property-IsWritten}

abbrev memory : Memory
memory = record { byte = λ a. a; blocks = [] }

abbrev fields : ℕ → Field
fields index = record { original = 100; length = 4 }

abbrev unwatched : PropertyClass
unwatched = record {
  phase_subindex = 1;
  change_phase = λ phase m. some m;
  property_write = none;
  property_read = none;
}

abbrev property : ℕ
property = 2

is_other : property ≢ 1
is_other = omega arith

set_property-IsWritten_example :
    IsWritten (fields property) 200 4 memory (set_property unwatched fields property 200 4 memory)
set_property-IsWritten_example =
    set_property-IsWritten unwatched fields property 200 4 memory refl is_other

-- Property 1 is the phase, whose change does nothing.
abbrev phase : ℕ
phase = 1

abbrev after_copy : Memory
after_copy = memcpy 100 200 4 memory
