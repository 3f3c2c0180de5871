-- ===== src/Node.antt =====
-- actor_node/src/actor/node.c: the actors of a node in their array, which a position stands for, and
-- what the node does for threads, jobs and buffers. The object dictionary is a parameter.
pub mod Lookup
pub mod Enumeration
pub mod Workers
mod Tests
use stm32app.Base.{
  ℕ, zero, suc, ◌+◌, ◌%◌, Bool, true, false, not, ◌&&◌, ◌||◌, Option, none, some, List, [], ◌∷◌,
  ◌++◌, length, leb, ◌==◌, if◌then◌else◌,
}
use stm32app.Thread.{Worker}

-- The parts of an actor that node.c reads. `on_worker_assignment` is the method of the class, absent
-- where it is NULL; it gives the address of a callback, or NULL, for the address of a thread.
pub record NodeActor : Type 0 where
  pub seq : ℕ
  pub type : ℕ
  pub on_worker_assignment : Option (ℕ → ℕ)

-- `#define actor_index(actor)`.
abbrev pub actor_index : NodeActor → ℕ
actor_index a = a.seq + a.type

-- The position of the first actor that passes, counted from `i`.
unfoldable pub first_from : (NodeActor → Bool) → ℕ → List NodeActor → Option ℕ
first_from test i [] = none
first_from test i (a ∷ others) =
    let rest = first_from test (suc i) others in if test a then some i else rest

unfoldable pub find : List NodeActor → ℕ → Option ℕ
find actors index = first_from (λ a. actor_index a == index) 0 actors

unfoldable pub find_by_type : List NodeActor → ℕ → Option ℕ
find_by_type actors type = first_from (λ a. a.type == type) 0 actors

-- No test of the bound.
abbrev pub find_by_number : ℕ → ℕ
find_by_number number = number

-- The position comes back as a uint8_t.
unfoldable pub find_number_from : ℕ → ℕ → List NodeActor → ℕ
find_number_from p i [] = 255
find_number_from p i (a ∷ others) =
    let rest = find_number_from p (suc i) others in if i == p then i % 256 else rest

unfoldable pub find_number : List NodeActor → ℕ → ℕ
find_number actors p = find_number_from p 0 actors

-- An entry of the object dictionary that `OD_find` gives: its phase property, and whether the class
-- finds the properties valid.
pub record Entry : Type 0 where
  pub index : ℕ
  pub is_enabled : Bool
  pub is_valid : Bool

-- What a pass over the entries of a class has counted, the actors it has initialized, with their
-- positions in the array, and the entries it has reported as inconsistent.
pub record Pass : Type 0 where
  pub count : ℕ
  pub written : List (ℕ × (ℕ × ℕ))
  pub reported : List ℕ

abbrev pub empty_pass : Pass
empty_pass = record { count = 0; written = []; reported = [] }

-- `has_node` and `has_destination` say which pointers are not NULL.
module _ (has_node has_destination : Bool) (od_find : ℕ → Option Entry) (type offset : ℕ) where
  abbrev pub report : Entry → Pass → Pass
  report e p = if has_node then record p { reported = p.reported ++ (e.index ∷ []) } else p

  -- The actor goes to `destination[offset + count - 1]`, after the count.
  abbrev pub admit : ℕ → Pass → Pass
  admit seq p = record p {
    count = suc p.count;
    written =
        if has_destination then p.written ++ ((offset + p.count, (type, seq)) ∷ []) else p.written;
  }

  -- The rounds left, of 128.
  unfoldable pub enumerate_from : ℕ → ℕ → Pass → Pass
  enumerate_from zero seq p = p
  enumerate_from (suc rounds) seq p = elim (od_find (type + seq)) [
    | none ↦ if leb 19 seq then p else enumerate_from rounds (suc seq) p
    | some e ↦
        enumerate_from rounds (suc seq)
          (if not e.is_enabled || not e.is_valid then report e p else admit seq p)
  ]

  unfoldable pub type_enumerate : Pass
  type_enumerate = enumerate_from 128 0 empty_pass

-- `actor_mothership_enumerate_actors`: the classes one after another.
unfoldable pub enumerate_actors :
    Bool → Bool → (ℕ → Option Entry) → List ℕ → ℕ → ℕ × List (ℕ × (ℕ × ℕ))
enumerate_actors has_node has_destination od_find [] count = (count, [])
enumerate_actors has_node has_destination od_find (type ∷ types) count =
    let p = type_enumerate has_node has_destination od_find type count in
    let (total, written) =
      enumerate_actors has_node has_destination od_find types (count + p.count) in
    (total, p.written ++ written)

-- The callback that an actor gives for a thread, NULL or not.
abbrev pub nonzero : ℕ → Option ℕ
nonzero zero = none
nonzero (suc n) = some (suc n)

abbrev pub callback_of : ℕ → NodeActor → Option ℕ
callback_of thread a = elim (a.on_worker_assignment) [ none ↦ none | some f ↦ nonzero (f thread) ]

-- `actor_thread_iterate_workers`: the count, and the workers written to the array where there is
-- one. `address` is that of the actor at a position.
unfoldable pub iterate_workers : (ℕ → ℕ) → ℕ → Bool → ℕ → List NodeActor → ℕ × List Worker
iterate_workers address thread has_destination i [] = (0, [])
iterate_workers address thread has_destination i (a ∷ others) =
    let (count, workers) = iterate_workers address thread has_destination (suc i) others in
    elim (callback_of thread a) [
      | none ↦ (count, workers)
      | some callback ↦
          let w : Worker = record {
            last_time = 0;
            next_time = 0;
            thread = thread;
            actor = address i;
            catchup = 0;
            callback = callback;
          } in
          (suc count, if has_destination then w ∷ workers else workers)
    ]

-- `actor_thread_get_catchup_thread`.
abbrev pub get_catchup_thread : (input catchup thread : ℕ) → ℕ
get_catchup_thread input catchup thread = if thread == input then catchup else thread
