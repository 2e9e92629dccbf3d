-- ===== src/Collaboration/EventLog/Resume.antt =====
-- What `resume` of packages/collaboration/src/event-log.ts answers, against the history of all events.
use unifold.Prelude.{
  ℕ, suc, ◌+◌, ◌-◌, ◌≤◌, ◌<◌, ◌≡◌, refl, sym, ap, ◌∙◌, subst, inl, inr, true, false, ◌&&◌, some,
  List, [], ◌∷◌, ◌++◌, append-nil, append_assoc, arith, ltb, if◌then◌else◌, ltb→lt, Bool-cases,
  ◌==◌, nat_eq, length, keep, length-append, keep-append, Text, text_eq,
}
use unifold.Collaboration.Types.{Event, Status}
use unifold.Collaboration.EventLog.{
  EventInput, EventLog, new, event_of, shift, append, oldest_of, gap, resume,
}
use unifold.Collaboration.EventLog.Laws.{
  Numbered, dropped, IsValid, grown, new-IsValid, append-IsValid,
}

-- Every event ever appended, the `n` first ones left out of the numbering.
abbrev pub history : ℕ → List EventInput → List Event
history n [] = []
history n (i ∷ is) = event_of i (suc n) ∷ history (suc n) is

abbrev pub append_all : List EventInput → EventLog → EventLog
append_all [] log = log
append_all (i ∷ is) log = append_all is (append i log)

pub append_all-IsValid :
    (is : List EventInput) (log : EventLog) → IsValid log → IsValid (append_all is log)
append_all-IsValid [] log v = v
append_all-IsValid (i ∷ is) log v = append_all-IsValid is (append i log) (append-IsValid i log v)

-- What was let go, then what is held: a split of `es`.
pub record IsSplit (gone : List Event) (log : EventLog) (es : List Event) : Type 0 where
  pub parts : es ≡ gone ++ log.events
  pub counts : length gone + length log.events ≡ log.latest_sequence

first : List Event → List Event
first [] = []
first (e ∷ es) = e ∷ []

first-shift : (es : List Event) → es ≡ first es ++ shift es
unfolding first shift
first-shift [] = refl
first-shift (e ∷ es) = refl

length-first : (es : List Event) → length (first es) + length (shift es) ≡ length es
unfolding first shift
length-first [] = omega arith
length-first (e ∷ es) = omega arith

module _ (input : EventInput) (log : EventLog) (gone es : List Event)
    (s : IsSplit gone log es) where
  open s use {parts, counts}

  grown_split : es ++ event_of input (suc log.latest_sequence) ∷ [] ≡ gone ++ grown input log
  unfolding grown
  grown_split = rw parts (append_assoc gone log.events _)

  IsSplit-shift :
      ltb log.capacity (length (grown input log)) ≡ true
      → IsSplit
          (gone ++ first (grown input log))
          (append input log)
          (es ++ event_of input (suc log.latest_sequence) ∷ [])
  unfolding append grown
  IsSplit-shift h =
      rw (h, append)
        (record {
          parts =
              grown_split
              ∙ ap (◌++◌ gone) (first-shift (grown input log))
              ∙ sym (append_assoc gone (first (grown input log)) (shift (grown input log)));
          counts = omega (
            arith,
            length-append gone (first (grown input log)),
            length-first (grown input log),
            length-append log.events (event_of input (suc log.latest_sequence) ∷ []),
          );
        })

  IsSplit-keep :
      ltb log.capacity (length (grown input log)) ≡ false
      → IsSplit gone (append input log) (es ++ event_of input (suc log.latest_sequence) ∷ [])
  unfolding append grown
  IsSplit-keep h =
      rw (h, append)
        (record {
          parts = grown_split;
          counts =
              omega
                (arith, length-append log.events (event_of input (suc log.latest_sequence) ∷ []));
        })

  append-IsSplit :
      (more : List Event) × IsSplit more
        (append input log)
        (es ++ event_of input (suc log.latest_sequence) ∷ [])
  append-IsSplit = elim (Bool-cases (ltb log.capacity (length (grown input log)))) [
    | inl h ↦ (gone ++ first (grown input log), IsSplit-shift h)
    | inr h ↦ (gone, IsSplit-keep h)
  ]

append_all-IsSplit :
    (is : List EventInput) (log : EventLog) (gone es : List Event)
    → IsSplit gone log es
    → (more : List Event) × IsSplit more (append_all is log) (es ++ history log.latest_sequence is)
unfolding append
append_all-IsSplit [] log gone es s = (gone, rw append-nil s)
append_all-IsSplit (i ∷ is) log gone es s =
    let (more, t) = append-IsSplit i log gone es s in
    let (final, u) =
      append_all-IsSplit is (append i log) more (es ++ event_of i (suc log.latest_sequence) ∷ [])
        t in
    (
      final,
      rw
          (append_assoc es (event_of i (suc log.latest_sequence) ∷ [])
            (history (suc log.latest_sequence) is))
          at u,
    )

-- The events of one tenant after a sequence.
abbrev pub after : Text → ℕ → List Event → List Event
after tenant_id n = keep (λ (e : Event). e.tenant_id == tenant_id && ltb n e.sequence)

after-low :
    (tenant_id : Text) (n m : ℕ) (es : List Event)
    → Numbered m es
    → m + length es ≤ suc n
    → after tenant_id n es ≡ []
after-low tenant_id n m [] h k = refl
after-low tenant_id n m (e ∷ es) h k = ground (arith, after-low tenant_id n (suc m) es h.1)

Numbered-history : (n : ℕ) (is : List EventInput) → Numbered (suc n) (history n is)
unfolding event_of
Numbered-history n [] = tt
Numbered-history n (i ∷ is) = (refl, Numbered-history (suc n) is)

Numbered-left : (n : ℕ) (xs ys : List Event) → Numbered n (xs ++ ys) → Numbered n xs
Numbered-left n [] ys h = tt
Numbered-left n (x ∷ xs) ys h = (h.0, Numbered-left (suc n) xs ys h.1)

oldest_of-Numbered :
    (latest : ℕ) (es : List Event)
    → Numbered (suc (latest - length es)) es
    → oldest_of es latest ≡ suc (latest - length es)
unfolding oldest_of
oldest_of-Numbered latest [] h = omega arith
oldest_of-Numbered latest (e ∷ es) h = h.0

module _ (tenant_id : Text) (n : ℕ) (log : EventLog) (v : IsValid log) where
  resume-gap :
      n < dropped log → resume tenant_id n log ≡ gap (suc (dropped log)) log.latest_sequence
  unfolding resume
  resume-gap h = ground (arith, oldest_of-Numbered log.latest_sequence log.events v.numbered)

  resume_held :
      dropped log ≤ n
      → resume tenant_id n log ≡ record {
        conflicts = [];
        diagnostics = [];
        status = Status.accepted;
        value = some (record {
          latest_sequence = log.latest_sequence;
          messages = after tenant_id n log.events;
          oldest_available_sequence = suc (dropped log);
        });
      }
  unfolding resume
  resume_held h = ground (arith, oldest_of-Numbered log.latest_sequence log.events v.numbered)

length-history : (n : ℕ) (is : List EventInput) → length (history n is) ≡ length is
length-history n [] = refl
length-history n (i ∷ is) = omega (arith, length-history (suc n) is)

-- A log that began empty is a split of its history.
abbrev pub IsStart : EventLog → Type 0
IsStart log = (log.events ≡ []) × (log.latest_sequence ≡ 0)

new-IsStart : (capacity : ℕ) (log : EventLog) → new capacity ≡ some log → IsStart log
unfolding new
new-IsStart capacity log h = ground arith

IsSplit-start :
    (is : List EventInput) (log : EventLog)
    → IsStart log
    → (gone : List Event) × IsSplit gone (append_all is log) (history 0 is)
IsSplit-start is log (none_held, zero_latest) =
    subst (λ n. (gone : List Event) × IsSplit gone (append_all is log) (history n is)) zero_latest
      (append_all-IsSplit is log [] [] (record { parts = sym none_held; counts = ground arith }))

after-gone :
    (tenant_id : Text) (n : ℕ) (log : EventLog) (gone es : List Event)
    → IsSplit gone log es
    → Numbered 1 es
    → dropped log ≤ n
    → after tenant_id n es ≡ after tenant_id n log.events
after-gone tenant_id n log gone es s numbered h = rw (
  s.parts,
  keep-append _ gone log.events,
  after-low tenant_id n 1 gone
      (Numbered-left 1 gone log.events (subst (Numbered 1) s.parts numbered))
      (omega (arith, s.counts)),
)

-- A reader of a log that started empty is told of a gap exactly when an event after its sequence
-- has been dropped, and otherwise gets all events of its tenant after it that were ever appended.
pub resume-history :
    (capacity : ℕ) (log : EventLog) (is : List EventInput) (tenant_id : Text) (n : ℕ)
    → new capacity ≡ some log
    → let end = append_all is log in
      resume tenant_id n end ≡ (
        if ltb n (dropped end) then gap (suc (dropped end)) (length is) else record {
          conflicts = [];
          diagnostics = [];
          status = Status.accepted;
          value = some (record {
            latest_sequence = length is;
            messages = after tenant_id n (history 0 is);
            oldest_available_sequence = suc (dropped end);
          });
        })
resume-history capacity log is tenant_id n h =
    let end = append_all is log in
    let (gone, s) = IsSplit-start is log (new-IsStart capacity log h) in
    let v = append_all-IsValid is log (new-IsValid capacity log h) in
    let latest : end.latest_sequence ≡ length is =
      omega
        (arith, s.counts, ap length s.parts, length-append gone end.events, length-history 0 is) in
    elim (Bool-cases (ltb n (dropped end))) [
      | inl low ↦ rw low (
          resume-gap tenant_id n end v (ltb→lt n (dropped end) low)
          ∙ ap (gap (suc (dropped end))) latest)
      | inr high ↦ rw high (
          resume_held tenant_id n end v (ground arith)
          ∙ rw (
            latest,
            after-gone tenant_id n end gone (history 0 is) s (Numbered-history 0 is) (ground arith),
          ))
    ]
