-- ===== src/Dma/Sources.antt =====
-- A stream packed into the argument of a signal, and the actor of a stream.
use stm32app.Base.{
  ℕ, ◌+◌, ◌*◌, ◌/◌, ◌%◌, ◌^◌, ◌≡◌, ◌≢◌, ◌<◌, ◌≤◌, ◌↔◌, ◌⊎◌, refl, true, false, ◌==◌, arith,
}
use stm32app.Dma.{
  Streams, channels, dma_index, register_dma, unregister_dma, pack_source, match_source,
}

-- A packed stream matches the stream that was packed and no other.
pub match_source-pack_source :
    (unit index u i : ℕ)
    → unit < 256
    → index < 256
    → (match_source (pack_source unit index) u i ≡ true) ↔ ((u ≡ unit) × (i ≡ index))
unfolding match_source pack_source
match_source-pack_source unit index u i hu hi =
    let low : (unit + index * 2 ^ 8) % 2 ^ 8 ≡ unit = omega (arith, hu, hi) in
    let high : (unit + index * 2 ^ 8) / 2 ^ 8 % 2 ^ 8 ≡ index = omega (arith, hu, hi) in
    rw (low, high) (ground arith)

dma_index-inj :
    (unit index u i : ℕ)
    → 1 ≤ unit
    → 1 ≤ u
    → index ≤ channels
    → i ≤ channels
    → dma_index unit index ≡ dma_index u i
    → (unit ≡ u) × (index ≡ i)
dma_index-inj unit index u i p q lt lt' e = (omega (arith, e), omega (arith, e))

-- A stream that is registered is its actor's, one that is unregistered nobody's, and every other
-- stream is as before, for the units and streams that the chip has.
pub register_dma_lem :
    (unit index actor u i : ℕ) (s : Streams)
    → 1 ≤ unit
    → 1 ≤ u
    → index ≤ channels
    → i ≤ channels
    → (register_dma unit index actor s (dma_index unit index) ≡ actor)
      × (unregister_dma unit index s (dma_index unit index) ≡ 0)
      × (((u ≢ unit) ⊎ (i ≢ index))
          → (register_dma unit index actor s (dma_index u i) ≡ s (dma_index u i))
            × (unregister_dma unit index s (dma_index u i) ≡ s (dma_index u i)))
unfolding register_dma unregister_dma
register_dma_lem unit index actor u i s p q lt lt' = (ground arith, ground arith, other)
  where
    differs : ((u ≢ unit) ⊎ (i ≢ index)) → (dma_index u i == dma_index unit index) ≡ false
    differs h = ground (arith, dma_index-inj u i unit index q p lt' lt, h)

    other :
        ((u ≢ unit) ⊎ (i ≢ index))
        → (register_dma unit index actor s (dma_index u i) ≡ s (dma_index u i))
          × (unregister_dma unit index s (dma_index u i) ≡ s (dma_index u i))
    other h = rw (differs h) (refl, refl)
