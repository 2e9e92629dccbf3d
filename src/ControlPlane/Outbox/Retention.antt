-- ===== src/ControlPlane/Outbox/Retention.antt =====
-- The calls of packages/control-plane/src/reference-outbox.ts, and what stays to be delivered.
use unifold.Prelude.{
  leb, ◌&&◌, ◌≤◌, Text, ℕ, suc, ◌≡◌, refl, sym, ap, ◌∙◌, subst, ◌⊎◌, inl, inr, true, Option, none,
  some, List, [], ◌∷◌, arith, Bool-cases, Option-cases, ◌==◌, nat_eq, ==_iff, All, All-map, text_eq,
  Map, get, put, delete, get-put, get-delete, Member,
}
use unifold.ControlPlane.Outbox.{
  OutboxMessage, Message, Delivery, Outbox, LeaseCommand, AcknowledgeCommand, ReleaseCommand,
  publish, message_of, can_lease, acquired, acquire_all, chosen, lease, valid_mutation,
  owns_current_lease, in_time, acknowledge_one, freed, release_one, same_owner, count_steps,
  acknowledge, release,
}
use unifold.ControlPlane.Outbox.Laws.{
  IsValid, Held, Keyed-put, Below-put, Below-suc, get-Below, Good-acquire_all, Good-count,
  Good-acknowledge_one, Good-release_one,
}
use unifold.ControlPlane.Outbox.Leases.{chosen-Free, lease_lem, leased}

-- A call of the outbox; one that throws leaves it as it was.
pub data Call : Type 0 where
  publishing : OutboxMessage → Call
  leasing : LeaseCommand → Call
  acknowledging : AcknowledgeCommand → Call
  releasing : ReleaseCommand → Call

abbrev outbox_after {ℓ} : {A : Type ℓ} → Outbox → Option (A × Outbox) → Outbox
outbox_after o none = o
outbox_after o (some r) = r.1

abbrev pub run : Call → Outbox → Outbox
run (publishing value) o = publish value o
run (leasing command) o = outbox_after o (lease command o)
run (acknowledging command) o = outbox_after o (acknowledge command o)
run (releasing command) o = outbox_after o (release command o)

publish-IsValid : (value : OutboxMessage) (o : Outbox) → IsValid o → IsValid (publish value o)
unfolding publish message_of
publish-IsValid value o v = record {
  keyed = Keyed-put o.next_sequence _ o.deliveries refl v.keyed;
  below =
      Below-put (suc o.next_sequence) o.next_sequence _ o.deliveries (omega arith)
        (Below-suc o.next_sequence o.deliveries v.below);
}

leased-IsValid : (command : LeaseCommand) (o : Outbox) → IsValid o → IsValid (leased command o).1
leased-IsValid command o v =
    let good =
      Good-acquire_all command o.next_sequence (chosen command o) o.deliveries
        (All-map
          (λ d free. get-Below o.next_sequence d.message.sequence d o.deliveries v.below free.1)
          (chosen command o) (chosen-Free command o v))
        (v.keyed, v.below) in
    record { keyed = good.0; below = good.1 }

-- Every call, whether it is accepted or not, leaves a valid outbox valid: one delivery for each
-- sequence, which is its message's and below the next one.
pub run-IsValid : (call : Call) (o : Outbox) → IsValid o → IsValid (run call o)
unfolding acknowledge release
run-IsValid (publishing value) o v = publish-IsValid value o v
run-IsValid (leasing command) o v = elim (Option-cases (lease command o)) [
  | inl e ↦ rw e v
  | inr (r, e) ↦ rw (e, ← lease_lem command o r e) (leased-IsValid command o v)
]
run-IsValid (acknowledging command) o v =
    let good =
      Good-count (acknowledge_one command) o.next_sequence command.sequences o.deliveries
        (Good-acknowledge_one command o.next_sequence) (v.keyed, v.below) in
    elim (Bool-cases (valid_mutation command.tenant_id command.worker_id command.sequences)) [
      | inl t ↦ rw t (record { keyed = good.0; below = good.1 })
      | inr f ↦ rw f v
    ]
run-IsValid (releasing command) o v =
    let good =
      Good-count (release_one command) o.next_sequence command.sequences o.deliveries
        (Good-release_one command o.next_sequence) (v.keyed, v.below) in
    elim (Bool-cases (valid_mutation command.tenant_id command.worker_id command.sequences)) [
      | inl t ↦ rw t (record { keyed = good.0; below = good.1 })
      | inr f ↦ rw f v
    ]

-- The message is to be delivered under its sequence.
abbrev pub IsPending : ℕ → Message → Map ℕ Delivery → Type 0
IsPending k message m = (d : Delivery) × (get k m ≡ some d) × (d.message ≡ message)

some-injective : (x y : Delivery) → some x ≡ some y → x ≡ y
some-injective x y h = cc

IsPending-put :
    (k j : ℕ) (message : Message) (x : Delivery) (m : Map ℕ Delivery)
    → ((j ≡ k) → x.message ≡ message)
    → IsPending k message m
    → IsPending k message (put j x m)
IsPending-put k j message x m same (d, e, h) = elim (Bool-cases (j == k)) [
  | inl t ↦ (x, get-put j k x m ∙ rw t refl, same ((==_iff j k).0 t))
  | inr f ↦ (d, get-put j k x m ∙ rw f e, h)
]

IsPending-acquire_all :
    (command : LeaseCommand) (k : ℕ) (d : Delivery) (m₀ : Map ℕ Delivery) (items : List Delivery)
    (m : Map ℕ Delivery)
    → get k m₀ ≡ some d
    → All (λ item. (can_lease command item ≡ true) × Held m₀ item) items
    → IsPending k d.message m
    → IsPending k d.message (acquire_all command items m)
unfolding acquire_all acquired
IsPending-acquire_all command k d m₀ [] m at h p = p
IsPending-acquire_all command k d m₀ (item ∷ items) m at h p =
    IsPending-acquire_all command k d m₀ items (put item.message.sequence (acquired command item) m)
      at h.1
      (IsPending-put k item.message.sequence d.message (acquired command item) m
        (λ here. same here h.0.1) p)
  where
    same : item.message.sequence ≡ k → Held m₀ item → item.message ≡ d.message
    same here held =
        ap (λ (x : Delivery). x.message)
          (some-injective _ _ (sym (subst (λ i. get i m₀ ≡ some item) here held) ∙ at))

-- The worker has leased the delivery, and the lease ends no earlier than the time.
abbrev pub HoldsLease : Delivery → Text → ℕ → Type 0
HoldsLease d worker_id at =
    (d.lease_owner ≡ some worker_id)
    × (lease_until : ℕ) × (d.lease_until ≡ some lease_until)
    × (at ≤ lease_until)

owns-HoldsLease :
    (d : Delivery) (worker_id : Text) (at : ℕ)
    → owns_current_lease (some d) worker_id at ≡ true
    → HoldsLease d worker_id at
unfolding owns_current_lease same_owner in_time
owns-HoldsLease d worker_id at h = elim (Option-cases d.lease_until) [
  | inl e ↦ let bad = rw (e, owns_current_lease, in_time) at h in cc
  | inr (lease_until, e) ↦ elim (Option-cases d.lease_owner) [
    | inl f ↦ let bad = rw (e, f, owns_current_lease, in_time, same_owner) at h in ground arith
    | inr (owner, f) ↦
        let both : (leb at lease_until && (owner == worker_id)) ≡ true =
          rw (e, f, owns_current_lease, in_time, same_owner) at h in
        let same : owner ≡ worker_id = (==_iff owner worker_id).0 (ground arith) in
        (f ∙ ap some same, lease_until, e, ground arith)
  ]
]

-- The call acknowledges the delivery, and its worker holds a lease at that time.
abbrev pub Acknowledges : ℕ → Delivery → Call → Type 0
Acknowledges k d (publishing value) = ⊥
Acknowledges k d (leasing command) = ⊥
Acknowledges k d (acknowledging command) =
    Member k command.sequences × HoldsLease d command.worker_id command.acknowledged_at
Acknowledges k d (releasing command) = ⊥

acknowledge_lem :
    (command : AcknowledgeCommand) (k : ℕ) (d : Delivery) (sequences : List ℕ) (m : Map ℕ Delivery)
    → get k m ≡ some d
    → IsPending k d.message (count_steps (acknowledge_one command) sequences m).1
      ⊎ (Member k sequences
          × (owns_current_lease (some d) command.worker_id command.acknowledged_at ≡ true))
unfolding count_steps acknowledge_one
acknowledge_lem command k d [] m at = inl (d, at, refl)
acknowledge_lem command k d (j ∷ js) m at =
    elim (Bool-cases (owns_current_lease (get j m) command.worker_id command.acknowledged_at)) [
      | inr f ↦ elim (acknowledge_lem command k d js m at) [
        | inl p ↦ inl (rw f p)
        | inr (there, owns) ↦ inr (inr there, owns)
      ]
      | inl t ↦ elim (Bool-cases (j == k)) [
        | inl here ↦ let same = (==_iff j k).0 here in inr (inl same, rw (same, at) at t)
        | inr apart ↦
            elim (acknowledge_lem command k d js (delete j m) (get-delete j k m ∙ rw apart at)) [
              | inl p ↦ inl (rw t p)
              | inr (there, owns) ↦ inr (inr there, owns)
            ]
      ]
    ]

release_lem :
    (command : ReleaseCommand) (k : ℕ) (message : Message) (sequences : List ℕ) (m : Map ℕ Delivery)
    → IsPending k message m
    → IsPending k message (count_steps (release_one command) sequences m).1
unfolding count_steps release_one freed
release_lem command k message [] m p = p
release_lem command k message (j ∷ js) m p = elim (Option-cases (get j m)) [
  | inl e ↦ rw (e, release_one) (release_lem command k message js m p)
  | inr (x, e) ↦ elim (Bool-cases (same_owner x.lease_owner command.worker_id)) [
    | inr f ↦ rw (e, release_one, f) (release_lem command k message js m p)
    | inl t ↦
        rw (e, release_one, t)
          (release_lem command k message js (put j (freed command x) m) (
            IsPending-put k j message (freed command x) m
              (λ here.
                ap (λ (y : Delivery). y.message)
                  (some-injective _ _ (sym e ∙ subst (λ i. get i m ≡ some p.0) (sym here) p.1))
                ∙ p.2)
              p))
  ]
]

-- A call on a valid outbox leaves every delivery to be made with its message, unless the call is an
-- acknowledgement of it by the worker that has leased it, no later than the end of the lease. That
-- end itself counts, although another worker can already lease the delivery then.
pub run-IsPending :
    (call : Call) (o : Outbox) (k : ℕ) (d : Delivery)
    → IsValid o
    → get k o.deliveries ≡ some d
    → IsPending k d.message (run call o).deliveries ⊎ Acknowledges k d call
unfolding publish acknowledge release
run-IsPending (publishing value) o k d v at = inl (
    IsPending-put k o.next_sequence d.message _ o.deliveries
      (λ here. absurd (omega (arith, get-Below o.next_sequence k d o.deliveries v.below at)))
      (d, at, refl))
run-IsPending (leasing command) o k d v at = elim (Option-cases (lease command o)) [
  | inl e ↦ inl (rw e (d, at, refl))
  | inr (r, e) ↦ inl (
      rw (e, ← lease_lem command o r e)
        (IsPending-acquire_all command k d o.deliveries (chosen command o) o.deliveries at
          (chosen-Free command o v) (d, at, refl)))
]
run-IsPending (acknowledging command) o k d v at =
    elim (Bool-cases (valid_mutation command.tenant_id command.worker_id command.sequences)) [
      | inl t ↦ elim (acknowledge_lem command k d command.sequences o.deliveries at) [
        | inl p ↦ inl (rw t p)
        | inr (there, owns) ↦
            inr (there, owns-HoldsLease d command.worker_id command.acknowledged_at owns)
      ]
      | inr f ↦ inl (rw f (d, at, refl))
    ]
run-IsPending (releasing command) o k d v at =
    elim (Bool-cases (valid_mutation command.tenant_id command.worker_id command.sequences)) [
      | inl t ↦
          inl (rw t (release_lem command k d.message command.sequences o.deliveries (d, at, refl)))
      | inr f ↦ inl (rw f (d, at, refl))
    ]
