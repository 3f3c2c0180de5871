-- ===== src/Bytes/Pages.antt =====
-- The part of a range that lies on the page of its first byte.
use native.Mathlib.Nat.{mod-lt, mod-le}
use stm32app.Base.{ℕ, ◌+◌, ◌-◌, ◌%◌, ◌^◌, ◌<◌, ◌≡◌, some, arith, leb, if◌then◌else◌}
use stm32app.Bytes.{get_number_of_bytes_intesecting_page}

-- Where neither the range nor its page passes the end of a 32-bit address space, the number is the
-- whole range if it ends on its first page, and otherwise what is left of that page.
pub get_number_of_bytes_intesecting_page_lem :
    (address size page_size : ℕ)
    → 0 < page_size
    → address + size < 2 ^ 32
    → address + page_size < 2 ^ 32
    → get_number_of_bytes_intesecting_page address size page_size
      ≡ some (
          if leb (address % page_size + size) page_size
          then size
          else page_size - address % page_size)
unfolding get_number_of_bytes_intesecting_page
get_number_of_bytes_intesecting_page_lem address size page_size pos range page =
    ground (arith, mod-lt address pos, mod-le address page_size)
