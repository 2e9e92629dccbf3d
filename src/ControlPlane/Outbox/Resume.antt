-- ===== src/ControlPlane/Outbox/Resume.antt =====
-- The messages that `resume` of packages/control-plane/src/reference-outbox.ts hands out.
use unifold.Prelude.{
  Member, Member-append, Bool, ap, ◌∙◌, ℕ, suc, ◌+◌, ◌≤◌, ◌<◌, ◌≡◌, refl, sym, subst, ◌⊎◌, inl, inr,
  List, [], ◌∷◌, ◌++◌, arith, ltb, ltb→lt, Bool-cases, length, keep, length-append,
}
use unifold.ControlPlane.Outbox.{
  OutboxMessage, Message, Outbox, new_outbox, publish, message_of, shift, resume, Resumed, batch,
  oldest_available, is_realtime_gap,
}

-- The sequences run from the first number up to the one before the last.
abbrev pub Run : ℕ → List Message → ℕ → Type 0
Run first [] next = first ≡ next
Run first (m ∷ ms) next = (m.sequence ≡ first) × Run (suc first) ms next

Run-append :
    (first next : ℕ) (ms : List Message) (m : Message)
    → Run first ms next
    → m.sequence ≡ next
    → Run first (ms ++ m ∷ []) (suc next)
Run-append first next [] m r e = (omega arith, omega arith)
Run-append first next (x ∷ xs) m r e = (r.0, Run-append (suc first) next xs m r.1 e)

Run-shift :
    (first next : ℕ) (ms : List Message)
    → Run first ms next
    → 1 < length ms
    → Run (suc first) (shift ms) next × (0 < length (shift ms))
unfolding shift
Run-shift first next [] r h = absurd (omega arith)
Run-shift first next (x ∷ xs) r h = (r.1, omega arith)

-- The outbox keeps at least one message once one is published, and those it keeps are the newest.
pub record IsNewest (o : Outbox) (first : ℕ) : Type 0 where
  pub keeps : 0 < o.retention
  pub filled : 0 < length o.messages
  pub in_order : Run first o.messages o.next_sequence

-- Publishing keeps the newest messages, if the outbox has some or nothing was published before.
publish-IsNewest :
    (value : OutboxMessage) (o : Outbox) (first : ℕ)
    → 0 < o.retention
    → Run first o.messages o.next_sequence
    → (next : ℕ) × IsNewest (publish value o) next
unfolding publish message_of
publish-IsNewest value o first kept r =
    let grown = o.messages ++ message_of value o.next_sequence ∷ [] in
    let longer : length grown ≡ length o.messages + 1 = length-append o.messages _ in
    let more : Run first grown (suc o.next_sequence) =
      Run-append first o.next_sequence o.messages (message_of value o.next_sequence) r refl in
    elim (Bool-cases (ltb o.retention (length grown))) [
      | inl t ↦
          let above = ltb→lt _ _ t in
          let (rest, some_left) = Run-shift first (suc o.next_sequence) grown more (omega arith) in
          (
            suc first,
            rw (publish, t) (record { keeps = kept; filled = some_left; in_order = rest }),
          )
      | inr f ↦
          (first, rw (publish, f) (record { keeps = kept; filled = omega arith; in_order = more }))
    ]

abbrev pub publish_all : List OutboxMessage → Outbox → Outbox
publish_all [] o = o
publish_all (v ∷ vs) o = publish_all vs (publish v o)

all-IsNewest :
    (values : List OutboxMessage) (o : Outbox) (first : ℕ)
    → IsNewest o first
    → (next : ℕ) × IsNewest (publish_all values o) next
all-IsNewest [] o first n = (first, n)
all-IsNewest (v ∷ vs) o first n =
    let (next, m) = publish-IsNewest v o first n.keeps n.in_order in
    all-IsNewest vs (publish v o) next m

-- A message with the sequence is in the list.
abbrev pub IsDelivered : ℕ → List Message → Type 0
IsDelivered k [] = ⊥
IsDelivered k (m ∷ ms) = (m.sequence ≡ k) ⊎ IsDelivered k ms

Run-IsDelivered :
    (first next k : ℕ) (ms : List Message)
    → Run first ms next
    → first ≤ k
    → k < next
    → IsDelivered k ms
Run-IsDelivered first next k [] r low high = absurd (omega arith)
Run-IsDelivered first next k (m ∷ ms) r low high = elim (Bool-cases (ltb first k)) [
  | inl t ↦ inr (Run-IsDelivered (suc first) next k ms r.1 (ltb→lt _ _ t) high)
  | inr f ↦ inl (ground arith)
]

keep-IsDelivered :
    (n k : ℕ) (ms : List Message)
    → n < k
    → IsDelivered k ms
    → IsDelivered k (keep (λ (m : Message). ltb n m.sequence) ms)
keep-IsDelivered n k [] h d = absurd d
keep-IsDelivered n k (m ∷ ms) h d = elim (Bool-cases (ltb n m.sequence)) [
  | inl t ↦ rw t (elim d [ inl e ↦ inl e | inr r ↦ inr (keep-IsDelivered n k ms h r) ])
  | inr f ↦ elim d [ inl e ↦ absurd (ground arith) | inr r ↦ rw f (keep-IsDelivered n k ms h r) ]
]

oldest_lem :
    (first next : ℕ) (ms : List Message) → Run first ms next → oldest_available ms next ≡ first
unfolding oldest_available
oldest_lem first next [] r = sym r
oldest_lem first next (m ∷ ms) r = r.0

next_all :
    (values : List OutboxMessage) (o : Outbox)
    → (publish_all values o).next_sequence ≡ o.next_sequence + length values
unfolding publish message_of
next_all [] o = omega arith
next_all (v ∷ vs) o = omega (arith, next_all vs (publish v o))

batch-injective :
    (l o l' o' : ℕ) (ms ms' : List Message)
    → ◌≡◌ {A = Resumed} (batch l ms o) (batch l' ms' o')
    → ms ≡ ms'
batch-injective l o l' o' ms ms' h = cc

resume_lem :
    (o : Outbox) (first n latest oldest k : ℕ) (ms : List Message)
    → IsNewest o first
    → resume n o ≡ batch latest ms oldest
    → n < k
    → k < o.next_sequence
    → IsDelivered k ms
unfolding resume is_realtime_gap
resume_lem o first n latest oldest k ms v e after high =
    let start = oldest_lem first o.next_sequence o.messages v.in_order in
    let kept = keep (λ (m : Message). ltb n m.sequence) o.messages in
    elim (Bool-cases
      (is_realtime_gap (length o.messages) n (oldest_available o.messages o.next_sequence))) [
        | inl t ↦ let bad = rw t at e in cc
        | inr f ↦
            let same : kept ≡ ms = batch-injective _ _ _ _ kept ms (rw f at e) in
            let full = v.filled in
            let low : first ≤ k = ground (arith, start) in
            subst (IsDelivered k) same (
              keep-IsDelivered n k o.messages after
                (Run-IsDelivered first o.next_sequence k o.messages v.in_order low high))
      ]

-- The messages that the publications make, numbered from the sequence on.
abbrev pub sent : ℕ → List OutboxMessage → List Message
sent sequence [] = []
sent sequence (v ∷ vs) =
    record {
      correlation_id = v.correlation_id;
      occurred_at = v.occurred_at;
      payload = v.payload;
      sequence = sequence;
      tenant_id = v.tenant_id;
      type = v.type;
    }
    ∷ sent (suc sequence) vs

sent-at :
    (first : ℕ) (values : List OutboxMessage) (m : Message)
    → Member m (sent first values)
    → (first ≤ m.sequence) × (m.sequence < first + length values)
sent-at first [] m h = absurd h
sent-at first (v ∷ vs) m (inl e) =
    let number : first ≡ m.sequence = ap (λ (x : Message). x.sequence) e in
    (omega arith, omega arith)
sent-at first (v ∷ vs) m (inr h) =
    let (low, high) = sent-at (suc first) vs m h in (omega arith, omega arith)

-- A sequence is that of one message.
sent-injective :
    (first : ℕ) (values : List OutboxMessage) (m n : Message)
    → Member m (sent first values)
    → Member n (sent first values)
    → m.sequence ≡ n.sequence
    → m ≡ n
sent-injective first [] m n h k e = absurd h
sent-injective first (v ∷ vs) m n (inl h) (inl k) e = sym h ∙ k
sent-injective first (v ∷ vs) m n (inl h) (inr k) e =
    let number : first ≡ m.sequence = ap (λ (x : Message). x.sequence) h in
    absurd (omega (arith, (sent-at (suc first) vs n k).0))
sent-injective first (v ∷ vs) m n (inr h) (inl k) e =
    let number : first ≡ n.sequence = ap (λ (x : Message). x.sequence) k in
    absurd (omega (arith, (sent-at (suc first) vs m h).0))
sent-injective first (v ∷ vs) m n (inr h) (inr k) e = sent-injective (suc first) vs m n h k e

shift-Member : (m : Message) (ms : List Message) → Member m (shift ms) → Member m ms
unfolding shift
shift-Member m [] h = h
shift-Member m (x ∷ xs) h = inr h

publish-Member :
    (v : OutboxMessage) (o : Outbox) (m : Message)
    → Member m (publish v o).messages
    → Member m o.messages ⊎ Member m (sent o.next_sequence (v ∷ []))
unfolding publish message_of
publish-Member v o m h =
    let grown = o.messages ++ message_of v o.next_sequence ∷ [] in
    (Member-append m o.messages (message_of v o.next_sequence ∷ [])).0
      (elim (Bool-cases (ltb o.retention (length grown))) [
        | inl t ↦ shift-Member m grown (rw t at h)
        | inr f ↦ rw f at h
      ])

-- What the outbox keeps was there or was published.
kept-Member :
    (values : List OutboxMessage) (o : Outbox) (m : Message)
    → Member m (publish_all values o).messages
    → Member m o.messages ⊎ Member m (sent o.next_sequence values)
unfolding publish
kept-Member [] o m h = inl h
kept-Member (v ∷ vs) o m h = elim (kept-Member vs (publish v o) m h) [
  | inr k ↦ inr (inr k)
  | inl k ↦ elim (publish-Member v o m k) [
    | inl n ↦ inl n
    | inr (inl e) ↦ inr (inl e)
    | inr (inr bad) ↦ absurd bad
  ]
]

keep-Member :
    (p : Message → Bool) (m : Message) (ms : List Message) → Member m (keep p ms) → Member m ms
keep-Member p m [] h = h
keep-Member p m (x ∷ xs) h = elim (Bool-cases (p x)) [
  | inl t ↦ elim (rw t at h) [ inl e ↦ inl e | inr k ↦ inr (keep-Member p m xs k) ]
  | inr f ↦ inr (keep-Member p m xs (rw f at h))
]

batch-Member :
    (o : Outbox) (n latest oldest : ℕ) (ms : List Message) (m : Message)
    → resume n o ≡ batch latest ms oldest
    → Member m ms
    → Member m o.messages
unfolding resume
batch-Member o n latest oldest ms m e h =
    let kept = keep (λ (x : Message). ltb n x.sequence) o.messages in
    elim (Bool-cases
      (is_realtime_gap (length o.messages) n (oldest_available o.messages o.next_sequence))) [
        | inl t ↦ let bad = rw t at e in cc
        | inr f ↦
            let same : kept ≡ ms = batch-injective _ _ _ _ kept ms (rw f at e) in
            keep-Member (λ (x : Message). ltb n x.sequence) m o.messages
              (subst (λ l. Member m l) (sym same) h)
      ]

found :
    (k : ℕ) (ms : List Message) → IsDelivered k ms → (m : Message) × Member m ms × (m.sequence ≡ k)
found k [] h = absurd h
found k (m ∷ ms) (inl e) = (m, inl refl, e)
found k (m ∷ ms) (inr h) = let (n, at, e) = found k ms h in (n, inr at, e)

number_lem :
    (retention : ℕ) (value : OutboxMessage) (values : List OutboxMessage) (n latest oldest k : ℕ)
    (ms : List Message)
    → 0 < retention
    → resume n (publish_all (value ∷ values) (new_outbox retention)) ≡ batch latest ms oldest
    → n < k
    → k ≤ length (value ∷ values)
    → IsDelivered k ms
unfolding new_outbox
number_lem retention value values n latest oldest k ms kept e after high =
    let (first, one) = publish-IsNewest value (new_outbox retention) 1 kept refl in
    let (start, all_kept) = all-IsNewest values (publish value (new_outbox retention)) first one in
    resume_lem (publish_all (value ∷ values) (new_outbox retention)) start n latest oldest k ms
      all_kept e after (omega (arith, next_all (value ∷ values) (new_outbox retention)))

-- A reader of an outbox that keeps messages, which it resumes after a sequence and which is not told
-- of a gap, gets every message published after that sequence, as it was published.
pub resume-IsDelivered :
    (retention : ℕ) (value : OutboxMessage) (values : List OutboxMessage) (n latest oldest : ℕ)
    (ms : List Message) (m : Message)
    → 0 < retention
    → resume n (publish_all (value ∷ values) (new_outbox retention)) ≡ batch latest ms oldest
    → Member m (sent 1 (value ∷ values))
    → n < m.sequence
    → Member m ms
unfolding new_outbox
resume-IsDelivered retention value values n latest oldest ms m kept e there after =
    let o = publish_all (value ∷ values) (new_outbox retention) in
    let high = (sent-at 1 (value ∷ values) m there).1 in
    let (x, at, number) = found m.sequence ms (
      number_lem retention value values n latest oldest m.sequence ms kept e after (omega arith)) in
    let published : Member x (sent 1 (value ∷ values)) =
      elim (kept-Member (value ∷ values) (new_outbox retention) x
        (batch-Member o n latest oldest ms x e at)) [ inl bad ↦ absurd bad | inr k ↦ k ] in
    subst (λ y. Member y ms) (sent-injective 1 (value ∷ values) x m published there number) at
