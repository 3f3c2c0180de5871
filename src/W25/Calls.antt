-- ===== src/W25/Calls.antt =====
-- Calls of a handler one after another, as the events that come in bring them about.
use stm32app.Base.{
  ℕ, zero, suc, ◌≡◌, refl, inl, inr, Option, none, some, Option-cases, none-ne_some, some-inj, ap,
  List, [], ◌∷◌, ◌++◌,
}
use stm32app.Event.{Event}
use stm32app.Job.{JobSignal}
use stm32app.W25.{Flash, FlashHandler, Transfer, Outgoing, command, memory, call_once}

abbrev pub with_incoming : Event → Flash → Flash
with_incoming e f = record f { job = record (f.job) { incoming_event = e } }

-- A call for each event; the signals that the calls return are the loop's.
unfoldable pub calls : (ℕ → ℕ) → FlashHandler → List Event → Flash → Option Flash
calls m h [] f = some f
calls m h (e ∷ es) f = elim (call_once m h (with_incoming e f)) [
  | none ↦ none
  | some (signal, g) ↦ calls m h es g
]

-- What every call keeps, calls keep.
pub calls_inv :
    (m : ℕ → ℕ) (h : FlashHandler) (P : Flash → Type 0)
    → ((e : Event) (f g : Flash) (signal : JobSignal)
        → P f
        → call_once m h (with_incoming e f) ≡ some (signal, g)
        → P g)
    → (es : List Event) (f g : Flash) → P f
    → calls m h es f ≡ some g
    → P g
unfolding calls
calls_inv m h P keep [] f g p e = rw (← some-inj f g e) p
calls_inv m h P keep (e ∷ es) f g p run = elim (Option-cases (call_once m h (with_incoming e f))) [
  | inl stuck ↦ absurd (none-ne_some g (rw (stuck, calls) at run))
  | inr ((signal, f'), one) ↦
      calls_inv m h P keep es f' g (keep e f f' signal p one) (rw (one, calls) at run)
]

-- The transfer is a command, not the data of an event.
abbrev pub IsCommand : Transfer → Type 0
IsCommand t = IsLiteral t.write_data
  where
    IsLiteral : Outgoing → Type 0
    IsLiteral (command bytes) = Unit
    IsLiteral (memory p) = ⊥

-- The same transfer, `n` times.
abbrev pub copies : ℕ → Transfer → List Transfer
copies zero t = []
copies (suc n) t = t ∷ copies n t

-- Events one after another, with a call that goes through first.
pub calls_cons :
    (m : ℕ → ℕ) (h : FlashHandler) (e : Event) (es : List Event) (f g : Flash) (signal : JobSignal)
    → call_once m h (with_incoming e f) ≡ some (signal, g)
    → calls m h (e ∷ es) f ≡ calls m h es g
unfolding calls
calls_cons m h e es f g signal one = rw (one, calls) refl

pub calls_nil : (m : ℕ → ℕ) (h : FlashHandler) (f : Flash) → calls m h [] f ≡ some f
unfolding calls
calls_nil m h f = refl

pub calls_append :
    (m : ℕ → ℕ) (h : FlashHandler) (es ds : List Event) (f g : Flash)
    → calls m h es f ≡ some g
    → calls m h (es ++ ds) f ≡ calls m h ds g
unfolding calls
calls_append m h [] ds f g run = ap (calls m h ds) (some-inj f g run)
calls_append m h (e ∷ es) ds f g run = elim (Option-cases (call_once m h (with_incoming e f))) [
  | inl stuck ↦ absurd (none-ne_some g (rw (stuck, calls) at run))
  | inr ((signal, f'), one) ↦ rw (one, calls) (calls_append m h es ds f' g (rw (one, calls) at run))
]
