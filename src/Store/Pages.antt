-- ===== src/Store/Pages.antt =====
-- Buffers that grow by pages: a ring of structs linked by `next`.
use stm32app.Base.{ℕ, zero, suc, ◌-◌, ◌^◌, ◌<◌, ◌≡◌, ◌≢◌, some, List, [], ◌∷◌, arith, length, All}
use stm32app.Buffer.{Buffer}
use stm32app.Store.{
  Store, System, put, zero_buffer, pool_dispose, get_next_page, get_last_page_from, get_last_page,
  page_rounds, set_next_page, dispose_page, destroy_from, destroy,
}

-- `last` is reached from `p` by `next`, over pages that are not `first`.
abbrev pub Links : Store → ℕ → ℕ → List ℕ → Type 0
Links s first p [] = (s.buffers p).next ≡ first
Links s first p (q ∷ qs) = ((s.buffers p).next ≡ q) × (q ≢ 0) × (q ≢ first) × Links s first q qs

abbrev pub last_of : ℕ → List ℕ → ℕ
last_of p [] = p
last_of p (q ∷ qs) = last_of q qs

last-Links :
    (s : Store) (first p fuel : ℕ) (pages : List ℕ)
    → Links s first p pages
    → length pages < fuel
    → get_last_page_from fuel first p s ≡ some (last_of p pages)
unfolding get_last_page_from
last-Links s first p zero pages l lt = absurd (omega arith)
last-Links s first p (suc fuel) [] l lt = ground arith
last-Links s first p (suc fuel) (q ∷ qs) l lt =
    ground (arith, last-Links s first q fuel qs l.3 (omega arith))

-- The last page of a chunked buffer is the end of its ring of pages, whatever its length below 2 ^
-- 32.
pub get_last_page_lem :
    (s : Store) (p : ℕ) (pages : List ℕ)
    → Links s p p pages
    → length pages < 2 ^ 32
    → get_last_page p s ≡ some (last_of p pages)
unfolding get_last_page page_rounds
get_last_page_lem s p pages l lt = last-Links s p p (2 ^ 32) pages l lt

-- A struct that is no page of the ring does not matter to it.
pub Links-put :
    (s : Store) (first p q : ℕ) (b : Buffer) (pages : List ℕ)
    → p ≢ q
    → All (λ r. r ≢ q) pages
    → Links s first p pages
    → Links (put q b s) first p pages
Links-put s first p q b [] ne a l = ground arith
Links-put s first p q b (r ∷ rs) ne a l =
    (ground arith, l.1, l.2, Links-put s first r q b rs a.0 a.1 l.3)

All-ne_first :
    (s : Store) (first p : ℕ) (pages : List ℕ) → Links s first p pages → All (λ r. r ≢ first) pages
All-ne_first s first p [] l = tt
All-ne_first s first p (q ∷ qs) l = (l.2, All-ne_first s first q qs l.3)

-- A new page that is not NULL and not in a ring of pages goes in behind the first, and the ring
-- closes over the others as before.
pub set_next_page-Links :
    (s : Store) (first new : ℕ) (pages : List ℕ)
    → Links s first first pages
    → new ≢ 0
    → new ≢ first
    → All (λ r. r ≢ new) pages
    → Links (set_next_page first new s) first first (new ∷ pages)
unfolding set_next_page
set_next_page-Links s first new [] l nz nf a = ground arith
set_next_page-Links s first new (q ∷ qs) l nz nf a = (
  ground arith,
  nz,
  nf,
  (
    ground arith,
    l.1,
    l.2,
    Links-put inner first q first _ qs l.2 (All-ne_first s first q qs l.3)
        (Links-put s first q new _ qs a.0 a.1 l.3),
  ),
)
  where
    inner : Store
    inner = put new (record (s.buffers new) { next = (s.buffers first).next }) s

module _ (y : System) where
  -- The system whose structs come from node.c's pool.
  abbrev pub pooled : System
  pooled = record y { dispose = pool_dispose }

  destroy_pooled :
      (fuel p : ℕ) (s : Store)
      → p ≢ 0
      → destroy_from pooled (suc (suc fuel)) p p s ≡ some (dispose_page pooled p p s)
  unfolding destroy_from dispose_page get_next_page
  destroy_pooled fuel p s nz = ground arith

  -- With structs from the pool, destroying a buffer frees its first page and stops, whatever pages
  -- are linked to it: the free clears the link that the loop reads next. Every other struct stays.
  pub destroy_first_page :
      (p : ℕ) (s : Store)
      → p ≢ 0
      → (destroy pooled p s ≡ some (dispose_page pooled p p s))
        × ((dispose_page pooled p p s).buffers p ≡ zero_buffer)
        × ((q : ℕ) → q ≢ p → (dispose_page pooled p p s).buffers q ≡ s.buffers q)
  unfolding destroy page_rounds dispose_page
  destroy_first_page p s nz =
      (destroy_pooled (2 ^ 32 - 2) p s nz, ground arith, λ q ne. ground arith)
