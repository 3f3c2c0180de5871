-- ===== src/Bytes.antt =====
-- actor_env/src/actor/lib/bytes.c: how a range of bytes lies on a page, how far an address is
-- aligned, and the checksum. `none` is a division by 0.
pub mod Pages
pub mod Alignment
pub mod Checksum
mod Tests
use stm32app.Base.{
  ℕ, zero, suc, ◌+◌, ◌-◌, ◌/◌, ◌%◌, ◌^◌, ◌||◌, Option, none, some, List, [], ◌∷◌, bit_and, bit_xor,
  get_elem?, ltb, ◌==◌, if◌then◌else◌,
}
use stm32app.Buffer.{u32}

-- `#define min(a, b) (a > b ? b : a)`.
abbrev pub min_of : ℕ → ℕ → ℕ
min_of a b = if ltb b a then b else a

unfoldable pub get_number_of_bytes_intesecting_page : ℕ → ℕ → ℕ → Option ℕ
get_number_of_bytes_intesecting_page address size page_size =
    if page_size == 0
    then none
    else (let page_start_offset = address % page_size in
        let last_byte_in_range = u32 (address + size) in
        let last_byte_on_page = u32 (address - page_start_offset + page_size) in
        some (u32 (2 ^ 32 + min_of last_byte_on_page last_byte_in_range - address)))

-- `while (limit)`: the limit is halved at each round.
unfoldable pub alignment_from : ℕ → ℕ → ℕ → Option ℕ
alignment_from zero address limit = none
alignment_from (suc fuel) address limit =
    let rest = alignment_from fuel address (limit / 2) in
    if limit == 0 then some 1 else if limit == 1 || address % limit == 0 then some limit else rest

-- The limit is a uint8_t, which is 0 after eight halvings.
unfoldable pub get_maximum_byte_alignment : ℕ → ℕ → Option ℕ
get_maximum_byte_alignment address limit = alignment_from 9 address limit

abbrev pub rtable : List ℕ
rtable =
    0x00000000 ∷ 0x1db71064 ∷ 0x3b6e20c8 ∷ 0x26d930ac ∷ 0x76dc4190 ∷ 0x6b6b51f4 ∷ 0x4db26158
    ∷ 0x5005713c ∷ 0xedb88320 ∷ 0xf00f9344 ∷ 0xd6d6a3e8 ∷ 0xcb61b38c ∷ 0x9b64c2b0 ∷ 0x86d3d2d4
    ∷ 0xa00ae278 ∷ 0xbdbdf21c ∷ []

-- The table has an entry for each value of four bits.
abbrev pub entry : ℕ → ℕ
entry i = elim (get_elem? rtable i) [ none ↦ 0 | some v ↦ v ]

-- Half a byte: `crc = (crc >> 4) ^ rtable[(crc ^ bits) & 0xf]`.
unfoldable pub crc_step : ℕ → ℕ → ℕ
crc_step crc bits = bit_xor (crc / 16) (entry (bit_and (bit_xor crc bits) 15))

unfoldable pub lfs_crc : ℕ → List ℕ → ℕ
lfs_crc crc [] = crc
lfs_crc crc (byte ∷ bytes) = lfs_crc (crc_step (crc_step crc byte) (byte / 16)) bytes
