-- ===== src/Mothership/Growth.antt =====
-- A pool that has no free piece grows by a page at the end of its ring.
use native.Mathlib.Decide.{ℕ_discrete}
use stm32app.Base.{
  ℕ, ◌+◌, ◌*◌, ◌^◌, ◌<◌, ◌≡◌, ◌≢◌, refl, sym, ap, ◌∙◌, inl, inr, true, false, Bool-cases, some,
  List, [], ◌∷◌, ◌++◌, ◌⊎◌, arith, length, length-append, All, ◌==◌, if◌then◌else◌,
}
use stm32app.Signal.{Signal, ok, out_of_memory, is_set}
use stm32app.Memory.{Memory}
use stm32app.Buffer.{Buffer, Platform, buffer_realloc, set_size}
use stm32app.Store.{Store, System, zero_buffer, put, get_last_page, set_next_page}
use stm32app.Store.Pages.{Links, last_of, Links-put, get_last_page_lem}
use stm32app.Mothership.{buffer_malloc, next_page, fill_with, fill_page, add_page}

last_of-next :
    (s : Store) (first p : ℕ) (pages : List ℕ)
    → Links s first p pages
    → (s.buffers (last_of p pages)).next ≡ first
last_of-next s first p [] l = l
last_of-next s first p (q ∷ qs) l = last_of-next s first q qs l.3

-- Only the links matter.
Links-ext :
    (s t : Store) (first p : ℕ) (pages : List ℕ)
    → ((q : ℕ) → (t.buffers q).next ≡ (s.buffers q).next)
    → Links s first p pages
    → Links t first p pages
Links-ext s t first p [] same l = same p ∙ l
Links-ext s t first p (q ∷ qs) same l = (same p ∙ l.0, l.1, l.2, Links-ext s t first q qs same l.3)

module _ (s : Store) (first last new : ℕ) where
  abbrev linked : Store
  linked = set_next_page last new s

  linked_last : (linked.buffers last).next ≡ new
  unfolding set_next_page
  linked_last = ground arith

  linked_new : last ≢ new → (linked.buffers new).next ≡ (s.buffers last).next
  unfolding set_next_page
  linked_new ne = ground arith

  linked_other : (q : ℕ) → q ≢ last → q ≢ new → (linked.buffers q).next ≡ (s.buffers q).next
  unfolding set_next_page
  linked_other q ne ne' = ground arith

  -- A page linked behind the last one is the new end of the ring.
  Links-linked :
      new ≢ 0
      → new ≢ first
      → (s.buffers last).next ≡ first
      → (p : ℕ) (pages : List ℕ) → last_of p pages ≡ last
      → p ≢ new
      → All (λ r. r ≢ new) pages
      → Links s first p pages
      → Links linked first p (pages ++ (new ∷ []))
  Links-linked nz nf end p [] e ne a l =
      (rw e linked_last, nz, nf, linked_new (λ x. ne (e ∙ x)) ∙ end)
  Links-linked nz nf end p (q ∷ qs) e ne a l =
      let inner : p ≢ last = λ x. l.2 (sym l.0 ∙ (ap (λ z. (s.buffers z).next) x ∙ end)) in
      (linked_other p inner ne ∙ l.0, l.1, l.2, Links-linked nz nf end q qs e a.0 a.1 l.3)

length_snoc : (pages : List ℕ) (new : ℕ) → length (pages ++ (new ∷ [])) ≡ length pages + 1
length_snoc pages new = length-append pages (new ∷ [])

last_of-snoc : (p : ℕ) (pages : List ℕ) (new : ℕ) → last_of p (pages ++ (new ∷ [])) ≡ new
last_of-snoc p [] new = refl
last_of-snoc p (q ∷ qs) new = last_of-snoc q qs new

-- What `actor_buffer_set_size` gives for a buffer.
abbrev IsSized : Buffer → ℕ → Signal × Buffer × Memory → Type 0
IsSized b size (signal, b', m) =
    (b'.next ≡ b.next)
    × (b'.allocated_size ≡ size)
    × (((signal ≡ ok) × (b'.payload ≢ 0)) ⊎ ((signal ≡ out_of_memory) × (b'.payload ≡ 0)))

set_size-IsSized :
    (c : Platform) (b : Buffer) (size : ℕ) (m : Memory) → IsSized b size (set_size c b size m)
unfolding set_size
set_size-IsSized c b size m = elim (Bool-cases ((buffer_realloc c b size m).0 == 0)) [
  | inl null ↦ rw null (refl, refl, inr (refl, ground (arith, null)))
  | inr given ↦ rw given (refl, refl, inl (refl, ground (arith, given)))
]

module _ (y : System) (malloc : Store → ℕ × Store) (actor : ℕ) where
  -- Memory for a page as long as asked for, all of it in use; or none, and the signal says so.
  abbrev pub IsFilled : ℕ → ℕ → Signal × Store → Type 0
  IsFilled page size (signal, t) =
      ((signal ≡ ok)
        × ((t.buffers page).allocated_size ≡ size)
        × ((t.buffers page).size ≡ size)
        × ((t.buffers page).payload ≢ 0))
      ⊎ ((signal ≡ out_of_memory) × ((t.buffers page).payload ≡ 0))

  fill_with-next :
      (page size : ℕ) (o : Signal × Buffer × Memory) (s : Store) (q : ℕ)
      → IsSized (s.buffers page) size o
      → ((fill_with y malloc actor page o s).1.buffers q).next ≡ (s.buffers q).next
  unfolding fill_with
  fill_with-next page size (signal, b, m) s q (same, _, _) = elim (Bool-cases (is_set signal)) [
    | inl e ↦ rw e (moved b same)
    | inr e ↦ rw e (moved (record b { size = b.allocated_size }) same)
  ]
    where
      moved :
          (c : Buffer)
          → c.next ≡ (s.buffers page).next
          → (if q == page then c else s.buffers q).next ≡ (s.buffers q).next
      moved c e = elim (ℕ_discrete q page) [
        | yes same_page ↦ let own : (page == page) ≡ true = ground arith in rw (same_page, own) e
        | no other ↦ let apart : (q == page) ≡ false = ground (arith, other) in rw apart refl
      ]

  fill_with-IsFilled :
      (page size : ℕ) (o : Signal × Buffer × Memory) (s : Store)
      → IsSized (s.buffers page) size o
      → IsFilled page size (fill_with y malloc actor page o s)
  unfolding fill_with
  fill_with-IsFilled page size (signal, b, m) s (_, long, inl (e, given)) =
      let own : (page == page) ≡ true = ground arith in rw (e, own) (inl (refl, long, long, given))
  fill_with-IsFilled page size (signal, b, m) s (_, long, inr (e, null)) =
      let own : (page == page) ≡ true = ground arith in rw (e, own) (inr (refl, null))

  fill_page-IsFilled :
      (page size : ℕ) (s : Store) → IsFilled page size (fill_page y malloc actor page size s)
  unfolding fill_page
  fill_page-IsFilled page size s =
      fill_with-IsFilled page size (set_size y.platform (s.buffers page) size s.memory) s
        (set_size-IsSized y.platform (s.buffers page) size s.memory)

  -- A new page behind the last of a pool's ring, once its struct is there.
  linked-Links :
      (pool new size : ℕ) (pages : List ℕ) (t : Store)
      → new ≢ 0
      → pool ≢ new
      → All (λ r. r ≢ new) pages
      → Links t pool pool pages
      → Links
          (fill_page y malloc actor new size (set_next_page (last_of pool pages) new t)).1
          pool
          pool
          (pages ++ (new ∷ []))
  unfolding fill_page
  linked-Links pool new size pages t nz ne a l =
      let last = last_of pool pages in
      let s : Store = set_next_page last new t in
      Links-ext s (fill_page y malloc actor new size s).1 pool pool (pages ++ (new ∷ []))
        (λ q.
          fill_with-next new size _ s q (set_size-IsSized y.platform (s.buffers new) size s.memory))
        (Links-linked t pool last new nz (λ e. ne (sym e)) (last_of-next t pool pool pages l) pool
          pages refl ne a l)

  -- What the new struct of a page is.
  abbrev pub with_struct : ℕ → Store → Store
  with_struct new t = put new (record zero_buffer { next = new; owner = actor }) t

  next_page_new :
      (pool new : ℕ) (s t : Store)
      → (s.buffers pool).allocated_size ≢ 0
      → malloc s ≡ (new, t)
      → new ≢ 0
      → next_page y malloc actor pool s ≡ some (new, with_struct new t)
  unfolding next_page buffer_malloc
  next_page_new pool new s t used given nz =
      let used' : ((s.buffers pool).allocated_size == 0) ≡ false = ground (arith, used) in
      let nz' : (new == 0) ≡ false = ground (arith, nz) in rw (used', given, nz') refl

  add_page_runs :
      (pool item new : ℕ) (pages : List ℕ) (s t : Store)
      → length pages + 1 < 2 ^ 32
      → (s.buffers pool).allocated_size ≢ 0
      → malloc s ≡ (new, t)
      → new ≢ 0
      → Links (with_struct new t) pool pool pages
      → add_page y malloc actor pool pool item s
        ≡ some (
            fill_page y malloc actor new
              (10 * item)
              (set_next_page (last_of pool pages) new (with_struct new t)))
  unfolding add_page
  add_page_runs pool item new pages s t short used given nz ring =
      rw
        (
          next_page_new pool new s t used given nz,
          add_page,
          get_last_page_lem (with_struct new t) pool pages ring (omega (arith, short)),
        )
        refl

  -- A pool that has memory already grows by one page of ten items, which comes last in its ring, so
  -- that it is the page that the pool hands out from next, or the growth reports that there is no
  -- memory for it. The struct of the page is new to the ring, and not NULL.
  pub add_page_lem :
      (pool item new : ℕ) (pages : List ℕ) (s t : Store)
      → Links s pool pool pages
      → length pages + 1 < 2 ^ 32
      → (s.buffers pool).allocated_size ≢ 0
      → malloc s ≡ (new, t)
      → ((q : ℕ) → (t.buffers q).next ≡ (s.buffers q).next)
      → new ≢ 0
      → pool ≢ new
      → All (λ r. r ≢ new) pages
      → (signal : Signal) × (t' : Store) × (add_page y malloc actor pool pool item s
          ≡ some (signal, t'))
        × Links t' pool pool (pages ++ (new ∷ []))
        × (get_last_page pool t' ≡ some new)
        × IsFilled new (10 * item) (signal, t')
  add_page_lem pool item new pages s t l short used given kept nz ne a =
      let u = with_struct new t in
      let ring =
        Links-put t pool pool new (record zero_buffer { next = new; owner = actor }) pages ne a
          (Links-ext s t pool pool pages kept l) in
      let grown =
        fill_page y malloc actor new (10 * item) (set_next_page (last_of pool pages) new u) in
      let ring' = linked-Links pool new (10 * item) pages u nz ne a ring in
      (
        grown.0,
        grown.1,
        add_page_runs pool item new pages s t short used given nz ring,
        ring',
        get_last_page_lem grown.1 pool (pages ++ (new ∷ [])) ring'
              (rw (length_snoc pages new) short)
            ∙ ap some (last_of-snoc pool pages new),
        fill_page-IsFilled new (10 * item) (set_next_page (last_of pool pages) new u),
      )
