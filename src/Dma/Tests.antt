-- ===== src/Dma/Tests.antt =====
-- Streams and bursts at concrete inputs: the parameter at 4096, the data at 1021.
use stm32app.Base.{ℕ, ◌≡◌, ◌↔◌, refl, inl, true, some, arith}
use stm32app.Dma.{get_safe_burst_size, match_source, pack_source}
use stm32app.Dma.Sources.{match_source-pack_source}
use stm32app.Dma.Bursts.{Crosses, Divides, get_safe_burst_size_lem}

abbrev two : ℕ
two = 2

abbrev five : ℕ
five = 5

match_source-pack_source_example :
    (match_source (pack_source 2 5) 2 5 ≡ true) ↔ ((two ≡ 2) × (five ≡ 5))
match_source-pack_source_example = match_source-pack_source 2 5 2 5 (omega arith) (omega arith)

get_safe_burst_size_lem_example :
    (n : ℕ) × (get_safe_burst_size 1021 4096 16 1 0 ≡ some n)
    × Divides 1 4096 n
    × ((address' : ℕ) → Crosses address' 16 1 → get_safe_burst_size address' 4096 16 1 0 ≡ some n)
get_safe_burst_size_lem_example =
    get_safe_burst_size_lem 1021 4096 16 1 0 (inl refl) (omega arith) (omega arith) (omega arith)
