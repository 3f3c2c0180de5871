-- ===== src/Dma.antt =====
-- actor_cm3/src/actor/lib/dma.c: which actor a stream belongs to, the interrupts of a stream, and the
-- size of bursts. The streams are libopencm3's; their flags and counters are arguments.
pub mod Sources
pub mod Bursts
mod Tests
use stm32app.Base.{
  ℕ, ◌+◌, ◌-◌, ◌*◌, ◌/◌, ◌%◌, ◌^◌, Bool, true, false, not, ◌&&◌, ◌||◌, Option, none, some, ◌==◌,
  if◌then◌else◌,
}
use stm32app.Buffer.{u32}
use stm32app.Bytes.{get_maximum_byte_alignment}

-- DMA_CHANNELS. Streams are numbered from 0 and from 1 on different chips, hence one more.
abbrev pub channels : ℕ
channels = 8

-- `#define DMA_INDEX(unit, index)`, for units from 1 on.
abbrev pub dma_index : ℕ → ℕ → ℕ
dma_index unit index = (unit - 1) * (channels + 1) + index

-- `actors_dma`: the actor of each stream, 0 where there is none.
abbrev pub Streams : Type 0
Streams = ℕ → ℕ

unfoldable pub register_dma : ℕ → ℕ → ℕ → Streams → Streams
register_dma unit index actor s = λ i. if i == dma_index unit index then actor else s i

unfoldable pub unregister_dma : ℕ → ℕ → Streams → Streams
unregister_dma unit index s = λ i. if i == dma_index unit index then 0 else s i

-- Both are bytes.
unfoldable pub pack_source : ℕ → ℕ → ℕ
pack_source unit index = unit + index * 2 ^ 8

unfoldable pub match_source : ℕ → ℕ → ℕ → Bool
match_source source unit index = (unit == source % 2 ^ 8) && (index == source / 2 ^ 8 % 2 ^ 8)

-- `left` is what `dma_get_number_of_data` gives.
unfoldable pub get_buffer_position : ℕ → ℕ → ℕ
get_buffer_position buffer_size left = u32 (buffer_size + (2 ^ 32 - left))

-- The signal of an interrupt, and whether its flags are cleared. `failed` and `moved` are the flags
-- of errors and of transfers; `on_signal` is the method of the stream's actor.
pub data Interrupt : Type 0 where
  dma_error dma_transferring : Interrupt

unfoldable pub notify_dma :
    ℕ → ℕ → Bool → Bool → (ℕ → Interrupt → ℕ → ℕ) → Streams → Option (Option Interrupt × Bool)
notify_dma unit index failed moved on_signal s =
    let actor = s (dma_index unit index) in
    if failed
    then (if actor == 0
        then none
        else some (some dma_error, not (on_signal actor dma_error (pack_source unit index) == 0)))
    else if moved
    then (if actor == 0
        then none
        else some
            (some dma_transferring, on_signal actor dma_transferring (pack_source unit index) == 0))
    else some (none, false)

-- The cases by the width for a threshold of 2, and for the ones without a case.
abbrev pub burst_of_half : (width alignment : ℕ) → ℕ
burst_of_half width alignment =
    if width == 1
    then (if alignment % 8 == 0 then 8 else if alignment % 4 == 0 then 4 else 1)
    else if width == 2 && alignment % 8 == 0
    then 4
    else 1

abbrev pub burst_of_rest : (width alignment : ℕ) → ℕ
burst_of_rest width alignment =
    if width == 1
    then (if alignment % 16 == 0
        then 16
        else if alignment % 8 == 0
        then 8
        else if alignment % 4 == 0
        then 4
        else 1)
    else if width == 2
    then (if alignment % 16 == 0 then 8 else if alignment % 8 == 0 then 4 else 1)
    else if width == 4 && alignment % 16 == 0
    then 4
    else 1

unfoldable pub burst_for : (alignment width fifo_threshold : ℕ) → ℕ
burst_for alignment width fifo_threshold =
    if fifo_threshold == 4 || fifo_threshold == 3
    then (if width == 1 then 4 else 1)
    else if fifo_threshold == 2
    then burst_of_half width alignment
    else burst_of_rest width alignment

-- `slot` is `&data`, the address of the parameter itself.
unfoldable pub get_safe_burst_size : (address slot size width fifo_threshold : ℕ) → Option ℕ
get_safe_burst_size address slot size width fifo_threshold =
    if address / 1024 == u32 (address + size * width) / 1024
    then some (burst_for 16 width fifo_threshold)
    else elim (get_maximum_byte_alignment slot 16) [
      | none ↦ none
      | some alignment ↦ some (burst_for alignment width fifo_threshold)
    ]
