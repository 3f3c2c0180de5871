-- ===== src/Memory/Arena.antt =====
-- A heap that never reuses an address: it meets what is assumed of the heap.
use stm32app.Base.{ℕ, suc, ◌+◌, ◌<◌, inl, inr, List, [], ◌∷◌, arith, ltb, ◌==◌, if◌then◌else◌}
use stm32app.Memory.{Memory, Allocator, IsAllocator, InOther, memcpy}

-- The first address above every block.
top : List (ℕ × ℕ) → ℕ
top [] = 0
top ((q, n) ∷ bs) = let t = top bs in if ltb t (q + n) then q + n else t

remove : ℕ → List (ℕ × ℕ) → List (ℕ × ℕ)
remove p [] = []
remove p ((q, n) ∷ bs) = if q == p then bs else (q, n) ∷ remove p bs

take_block : ℕ → ℕ → Memory → Memory
take_block p n m = record m { blocks = (suc (top m.blocks), n) ∷ remove p m.blocks }

unfoldable pub arena : Allocator
unfolding take_block top remove memcpy
arena = record {
  realloc = λ r p n m. (suc (top m.blocks), memcpy (suc (top m.blocks)) p n (take_block p n m));
  free = λ p m. record m { blocks = remove p m.blocks };
}

lt-top : (p a : ℕ) (bs : List (ℕ × ℕ)) → InOther p a bs → a < top bs
unfolding top
lt-top p a [] h = absurd h
lt-top p a ((q, n) ∷ bs) (inl h) = ground arith
lt-top p a ((q, n) ∷ bs) (inr h) = ground (arith, lt-top p a bs h)

InOther-mono : (p p' a : ℕ) (bs : List (ℕ × ℕ)) → InOther p a bs → a < p' → InOther p' a bs
InOther-mono p p' a [] h lt = h
InOther-mono p p' a ((q, n) ∷ bs) (inl h) lt = inl (omega arith)
InOther-mono p p' a ((q, n) ∷ bs) (inr h) lt = inr (InOther-mono p p' a bs h lt)

InOther-remove :
    (p p' a : ℕ) (bs : List (ℕ × ℕ)) → InOther p a bs → a < p' → InOther p' a (remove p bs)
unfolding remove
InOther-remove p p' a [] h lt = h
InOther-remove p p' a ((q, n) ∷ bs) h lt =
    ground (arith, InOther-remove p p' a bs, InOther-mono p p' a bs)

pub arena-IsAllocator : IsAllocator arena
unfolding arena
arena-IsAllocator = record {
  moves = λ r p n m k i nz b hk hn. ground arith;
  holds = λ r p n m nz. inl (omega arith);
  keeps = λ r p n m a nz o. (
    ground (arith, lt-top p a m.blocks o),
    inr (InOther-remove p _ a m.blocks o (ground (arith, lt-top p a m.blocks o))),
  );
  apart = λ r p n m a nz o. ground (arith, lt-top p a m.blocks o);
}
