-- ===== src/I2c/Arguments.antt =====
-- The arguments of the bus's events.
use stm32app.Base.{ℕ, ◌^◌, ◌≡◌, ◌<◌, arith}
use stm32app.I2c.{pack_event_argument, slave_address, memory_address}

-- The parts of a packed argument are those that were packed, and it fits the 32 bits of a pointer.
pub pack_event_argument_lem :
    (slave memory : ℕ)
    → slave < 2 ^ 8
    → memory < 2 ^ 16
    → (slave_address (pack_event_argument slave memory) ≡ slave)
      × (memory_address (pack_event_argument slave memory) ≡ memory)
      × (pack_event_argument slave memory < 2 ^ 32)
unfolding pack_event_argument
pack_event_argument_lem slave memory s m =
    (omega (arith, s, m), omega (arith, s, m), omega (arith, s, m))
