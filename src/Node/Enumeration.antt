-- ===== src/Node/Enumeration.antt =====
-- The two passes over the object dictionary: one that counts, one that fills the array.
use stm32app.Base.{
  ℕ, zero, suc, ◌+◌, ◌≡◌, refl, inl, inr, ap, ◌∙◌, Bool, true, false, not, ◌||◌, Bool-cases, Option,
  Option-cases, List, [], ◌∷◌, ◌++◌, leb, arith,
}
use stm32app.Node.{
  Entry, Pass, empty_pass, report, admit, enumerate_from, type_enumerate, enumerate_actors,
}

-- `n` positions from `i` on.
abbrev pub range : ℕ → ℕ → List ℕ
range i zero = []
range i (suc n) = i ∷ range (suc i) n

range-snoc : (n i : ℕ) → range i n ++ ((i + n) ∷ []) ≡ range i (suc n)
range-snoc zero i = ap (λ k. k ∷ []) (omega arith)
range-snoc (suc n) i =
    let e : i + suc n ≡ suc i + n = omega arith in rw e (ap (λ r. i ∷ r) (range-snoc n (suc i)))

range-append : (n m i : ℕ) → range i n ++ range (i + n) m ≡ range i (n + m)
range-append zero m i =
    let e : i + 0 ≡ i = omega arith in let e' : 0 + m ≡ m = omega arith in rw (e, e') refl
range-append (suc n) m i =
    let e : i + suc n ≡ suc i + n = omega arith in
    let e' : suc n + m ≡ suc (n + m) = omega arith in
    rw (e, e') (ap (λ r. i ∷ r) (range-append n m (suc i)))

abbrev pub positions : List (ℕ × (ℕ × ℕ)) → List ℕ
positions [] = []
positions ((p, _) ∷ ws) = p ∷ positions ws

positions-append :
    (xs ys : List (ℕ × (ℕ × ℕ))) → positions (xs ++ ys) ≡ positions xs ++ positions ys
positions-append [] ys = refl
positions-append ((p, _) ∷ xs) ys = ap (λ r. p ∷ r) (positions-append xs ys)

module _ (od_find : ℕ → Option Entry) (type offset : ℕ) where
  -- What a pass that fills the array keeps.
  abbrev IsFilled : Pass → Type 0
  IsFilled p = positions p.written ≡ range offset p.count

  admit-IsFilled :
      (has_node : Bool) (seq : ℕ) (p : Pass)
      → IsFilled p
      → IsFilled (admit has_node true od_find type offset seq p)
  admit-IsFilled has_node seq p h =
      positions-append p.written _
      ∙ (ap (λ r. r ++ ((offset + p.count) ∷ [])) h ∙ range-snoc p.count offset)

  report-IsFilled :
      (has_node : Bool) (e : Entry) (p : Pass)
      → IsFilled p
      → IsFilled (report has_node true od_find type offset e p)
  report-IsFilled has_node e p h = ground (arith, h)

  report-count :
      (has_node has_destination : Bool) (e : Entry) (p : Pass)
      → (report has_node has_destination od_find type offset e p).count ≡ p.count
  report-count has_node has_destination e p = ground arith

  enumerate-IsFilled :
      (has_node : Bool) (rounds seq : ℕ) (p : Pass)
      → IsFilled p
      → IsFilled (enumerate_from has_node true od_find type offset rounds seq p)
  unfolding enumerate_from
  enumerate-IsFilled has_node zero seq p h = h
  enumerate-IsFilled has_node (suc rounds) seq p h = elim (Option-cases (od_find (type + seq))) [
    | inl missing ↦ elim (Bool-cases (leb 19 seq)) [
      | inl over ↦ rw (missing, enumerate_from, over) h
      | inr early ↦
          rw (missing, enumerate_from, early) (enumerate-IsFilled has_node rounds (suc seq) p h)
    ]
    | inr (e, found) ↦ elim (Bool-cases (not e.is_enabled || not e.is_valid)) [
      | inl refused ↦
          rw (found, enumerate_from, refused)
            (enumerate-IsFilled has_node rounds (suc seq) _ (report-IsFilled has_node e p h))
      | inr fine ↦
          rw (found, enumerate_from, fine)
            (enumerate-IsFilled has_node rounds (suc seq) _ (admit-IsFilled has_node seq p h))
    ]
  ]

  -- Every pass counts alike.
  enumerate-count :
      (a b a' b' : Bool) (offset' rounds seq : ℕ) (p q : Pass)
      → p.count ≡ q.count
      → (enumerate_from a b od_find type offset rounds seq p).count
        ≡ (enumerate_from a' b' od_find type offset' rounds seq q).count
  unfolding enumerate_from
  enumerate-count a b a' b' offset' zero seq p q h = h
  enumerate-count a b a' b' offset' (suc rounds) seq p q h =
      elim (Option-cases (od_find (type + seq))) [
        | inl missing ↦ elim (Bool-cases (leb 19 seq)) [
          | inl over ↦ rw (missing, enumerate_from, over) h
          | inr early ↦
              rw (missing, enumerate_from, early)
                (enumerate-count a b a' b' offset' rounds (suc seq) p q h)
        ]
        | inr (e, found) ↦ elim (Bool-cases (not e.is_enabled || not e.is_valid)) [
          | inl refused ↦
              rw (found, enumerate_from, refused)
                (enumerate-count a b a' b' offset' rounds (suc seq) _ _ (ground (arith, h)))
          | inr fine ↦
              rw (found, enumerate_from, fine)
                (enumerate-count a b a' b' offset' rounds (suc seq) _ _ (ap suc h))
        ]
      ]

module _ (od_find : ℕ → Option Entry) where
  type-count :
      (a b a' b' : Bool) (type offset offset' : ℕ)
      → (type_enumerate a b od_find type offset).count
        ≡ (type_enumerate a' b' od_find type offset').count
  unfolding type_enumerate
  type-count a b a' b' type offset offset' =
      enumerate-count od_find type offset a b a' b' offset' 128 0 empty_pass empty_pass refl

  type-IsFilled :
      (has_node : Bool) (type offset : ℕ)
      → positions (type_enumerate has_node true od_find type offset).written
        ≡ range offset (type_enumerate has_node true od_find type offset).count
  unfolding type_enumerate
  type-IsFilled has_node type offset =
      enumerate-IsFilled od_find type offset has_node 128 0 empty_pass refl

  actors-count :
      (a b a' b' : Bool) (types : List ℕ) (count count' : ℕ)
      → count ≡ count'
      → (enumerate_actors a b od_find types count).0
        ≡ (enumerate_actors a' b' od_find types count').0
  unfolding enumerate_actors
  actors-count a b a' b' [] count count' h = h
  actors-count a b a' b' (type ∷ types) count count' h =
      actors-count a b a' b' types _ _ (omega (arith, h, type-count a b a' b' type count count'))

  actors-positions :
      (has_node : Bool) (types : List ℕ) (count : ℕ)
      → (n : ℕ) × ((enumerate_actors has_node true od_find types count).0 ≡ count + n)
        × (positions (enumerate_actors has_node true od_find types count).1 ≡ range count n)
  unfolding enumerate_actors
  actors-positions has_node [] count = (0, omega arith, refl)
  actors-positions has_node (type ∷ types) count =
      let k = (type_enumerate has_node true od_find type count).count in
      let (n, total, rest) = actors-positions has_node types (count + k) in
      (
        k + n,
        omega (arith, total),
        positions-append (type_enumerate has_node true od_find type count).written _
            ∙ (rw (type-IsFilled has_node type count, rest) (range-append k n count)),
      )

  -- The pass that fills the array of actors writes as many as the pass that sized it has counted, one
  -- at each position from 0 on: the array is filled exactly, whatever entries the dictionary has and
  -- whichever of them are refused.
  pub enumerate_actors_lem :
      (types : List ℕ)
      → let count = (enumerate_actors false false od_find types 0).0 in
        let (total, written) = enumerate_actors true true od_find types 0 in
        (total ≡ count) × (positions written ≡ range 0 count)
  enumerate_actors_lem types =
      let (n, total, filled) = actors-positions true types 0 in
      let same = actors-count true true false false types 0 0 refl in
      let e : n ≡ (enumerate_actors false false od_find types 0).0 = omega (arith, total, same) in
      (same, filled ∙ ap (range 0) e)
