-- ===== src/Bytes/Checksum.antt =====
-- The checksum over parts.
use stm32app.Base.{ℕ, ◌≡◌, refl, List, [], ◌∷◌, ◌++◌}
use stm32app.Bytes.{lfs_crc}

-- The checksum of some bytes that continues from that of the bytes before them is that of both
-- together.
pub lfs_crc-append :
    (xs : List ℕ) (crc : ℕ) (ys : List ℕ) → lfs_crc (lfs_crc crc xs) ys ≡ lfs_crc crc (xs ++ ys)
unfolding lfs_crc
lfs_crc-append [] crc ys = refl
lfs_crc-append (x ∷ xs) crc ys = lfs_crc-append xs _ ys
