-- ===== src/Collaboration/EventLog/Laws.antt =====
-- Well-formed event logs, of packages/collaboration/src/event-log.ts.
use unifold.Prelude.{
  ℕ, suc, ◌+◌, ◌-◌, ◌≤◌, ◌≡◌, refl, subst, ◌⊎◌, inl, inr, true, false, some, List, [], ◌∷◌, ◌++◌,
  arith, ltb, Bool-cases, length, length-append,
}
use unifold.Collaboration.Types.{Event}
use unifold.Collaboration.EventLog.{EventInput, EventLog, new, event_of, shift, append}

-- The sequences of the events are `first`, `first + 1` and so on.
abbrev pub Numbered : ℕ → List Event → Type 0
Numbered first [] = Unit {0}
Numbered first (e ∷ es) = (e.sequence ≡ first) × Numbered (suc first) es

-- How many events the log has let go.
abbrev pub dropped : EventLog → ℕ
dropped log = log.latest_sequence - length log.events

pub record IsValid (log : EventLog) : Type 0 where
  pub has_room : 10 ≤ log.capacity
  pub bounded : length log.events ≤ log.capacity
  pub counted : length log.events ≤ log.latest_sequence
  pub numbered : Numbered (suc (dropped log)) log.events

Numbered-append :
    (n : ℕ) (es : List Event) (e : Event)
    → Numbered n es
    → e.sequence ≡ n + length es
    → Numbered n (es ++ e ∷ [])
Numbered-append n [] e h k = omega arith
Numbered-append n (x ∷ es) e h k = (h.0, Numbered-append (suc n) es e h.1 (omega arith))

Numbered-shift :
    (n : ℕ) (es : List Event) → Numbered n es → Numbered (suc n) (shift es) ⊎ (length es ≡ 0)
unfolding shift
Numbered-shift n [] h = inr refl
Numbered-shift n (x ∷ es) h = inl h.1

length-shift : (es : List Event) → length (shift es) ≡ length es - 1
unfolding shift
length-shift [] = refl
length-shift (x ∷ es) = omega arith

-- A new log is valid and empty, and its capacity is in range.
pub new-IsValid : (capacity : ℕ) (log : EventLog) → new capacity ≡ some log → IsValid log
unfolding new
new-IsValid capacity log h = ground arith

unfoldable pub grown : EventInput → EventLog → List Event
grown input log = log.events ++ event_of input (suc log.latest_sequence) ∷ []

module _ (input : EventInput) (log : EventLog) (v : IsValid log) where
  open v use {has_room, bounded, counted, numbered}

  length-grown : length (grown input log) ≡ length log.events + 1
  unfolding grown
  length-grown = length-append log.events _

  Numbered-grown : Numbered (suc (dropped log)) (grown input log)
  unfolding grown event_of
  Numbered-grown = Numbered-append _ log.events _ numbered (omega arith)

  append-keep_lem : ltb log.capacity (length (grown input log)) ≡ false → IsValid (append input log)
  unfolding append grown
  append-keep_lem h =
      rw (h, append)
        (record {
          has_room = has_room;
          bounded = ground (arith, length-grown);
          counted = omega (arith, length-grown);
          numbered =
              subst (λ n. Numbered n (grown input log)) (omega (arith, length-grown))
                Numbered-grown;
        })

  append-shift_lem : ltb log.capacity (length (grown input log)) ≡ true → IsValid (append input log)
  unfolding append grown
  append-shift_lem h =
      rw (h, append)
        (record {
          has_room = has_room;
          bounded = omega (arith, length-grown, length-shift (grown input log));
          counted = omega (arith, length-grown, length-shift (grown input log));
          numbered = elim (Numbered-shift _ (grown input log) Numbered-grown) [
            | inl n ↦
                subst (λ m. Numbered m (shift (grown input log)))
                  (ground (arith, length-grown, length-shift (grown input log))) n
            | inr z ↦ absurd (omega (arith, length-grown))
          ];
        })

  -- Appending to a valid log leaves a valid log: within its capacity, which is at least 10, and with
  -- its events numbered without a hole up to the latest.
  pub append-IsValid : IsValid (append input log)
  append-IsValid = elim (Bool-cases (ltb log.capacity (length (grown input log)))) [
    | inl h ↦ append-shift_lem h
    | inr h ↦ append-keep_lem h
  ]
