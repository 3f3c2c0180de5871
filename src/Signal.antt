-- ===== src/Signal.antt =====
-- `enum actor_signal` and `enum actor_event_status` of actor_rtos/src/actor/event.h.
use stm32app.Base.{ℕ, ◌-◌, ◌^◌, Bool, true, false}

pub data Signal : Type 0 where
  ok pending timer dma_transferring dma_idle rx_complete tx_complete catchup reschedule incoming
        failure timeout dma_error busy not_found unconfigured incomplete corrupted no_response
        out_of_memory invalid_argument not_implemented :
      Signal

-- `if (signal)`: every value but ACTOR_SIGNAL_OK.
abbrev pub is_set : Signal → Bool
is_set ok = false
is_set _ = true

abbrev pub is_not_implemented : Signal → Bool
is_not_implemented not_implemented = true
is_not_implemented _ = false

abbrev pub is_ok : Signal → Bool
is_ok ok = true
is_ok _ = false

abbrev pub is_busy : Signal → Bool
is_busy busy = true
is_busy _ = false

pub data Status : Type 0 where
  waiting received addressed handled deferred finalized : Status

-- A C enum converts to another by its number: WAITING is 0 as is OK, RECEIVED is 1 as is PENDING.
unfoldable pub signal_of_status : Status → Signal
signal_of_status waiting = ok
signal_of_status received = pending
signal_of_status addressed = timer
signal_of_status handled = dma_transferring
signal_of_status deferred = dma_idle
signal_of_status finalized = rx_complete

-- The number of a signal as an unsigned 32-bit one.
abbrev pub signal_value : Signal → ℕ
signal_value ok = 0
signal_value pending = 1
signal_value timer = 2
signal_value dma_transferring = 3
signal_value dma_idle = 4
signal_value rx_complete = 5
signal_value tx_complete = 6
signal_value catchup = 7
signal_value reschedule = 8
signal_value incoming = 9
signal_value failure = 2 ^ 32 - 1
signal_value timeout = 2 ^ 32 - 2
signal_value dma_error = 2 ^ 32 - 3
signal_value busy = 2 ^ 32 - 4
signal_value not_found = 2 ^ 32 - 5
signal_value unconfigured = 2 ^ 32 - 6
signal_value incomplete = 2 ^ 32 - 7
signal_value corrupted = 2 ^ 32 - 8
signal_value no_response = 2 ^ 32 - 9
signal_value out_of_memory = 2 ^ 32 - 10
signal_value invalid_argument = 2 ^ 32 - 11
signal_value not_implemented = 2 ^ 32 - 12
