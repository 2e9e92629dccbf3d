-- ===== src/ControlPlane/Outbox/Laws.antt =====
-- Valid outboxes, of packages/control-plane/src/reference-outbox.ts.
use unifold.Prelude.{
  ℕ, suc, ◌<◌, ◌≡◌, refl, sym, subst, inl, inr, Bool, none, some, List, [], ◌∷◌, arith, Bool-cases,
  Option-cases, nat_eq, ==_iff, All, All-map, text_eq, Map, get, put, delete, get-put, get-delete,
  get-first,
}
use unifold.ControlPlane.Outbox.{
  Delivery, Outbox, LeaseCommand, AcknowledgeCommand, ReleaseCommand, acquired, values, acquire_all,
  owns_current_lease, acknowledge_one, freed, release_one, same_owner, count_steps,
}

-- A map of deliveries with one entry for each key, which is its message's sequence.
abbrev pub Keyed : Map ℕ Delivery → Type 0
Keyed [] = Unit {0}
Keyed ((k, d) ∷ rest) = (d.message.sequence ≡ k) × (get k rest ≡ none) × Keyed rest

pub Keyed-put :
    (k : ℕ) (d : Delivery) (m : Map ℕ Delivery)
    → d.message.sequence ≡ k
    → Keyed m
    → Keyed (put k d m)
unfolding get put
Keyed-put k d [] e h = (e, refl, tt)
Keyed-put k d ((j, x) ∷ m) e h =
    ground (arith, Keyed-put k d m e h.2, get-put k j d m, ==_iff j k, ==_iff k j)

Keyed-delete : (k : ℕ) (m : Map ℕ Delivery) → Keyed m → Keyed (delete k m)
unfolding get delete
Keyed-delete k [] h = tt
Keyed-delete k ((j, x) ∷ m) h = ground (arith, Keyed-delete k m h.2, get-delete k j m, ==_iff k j)

pub Keyed-get :
    (k : ℕ) (d : Delivery) (m : Map ℕ Delivery)
    → Keyed m
    → get k m ≡ some d
    → d.message.sequence ≡ k
unfolding get
Keyed-get k d [] h e = cc
Keyed-get k d ((j, x) ∷ m) h e = ground (arith, ==_iff j k, Keyed-get k d m h.2)

-- Every value of a keyed map is what the map holds at its message's sequence.
abbrev pub Held : Map ℕ Delivery → Delivery → Type 0
Held m d = get d.message.sequence m ≡ some d

Held-cons :
    (j : ℕ) (x : Delivery) (m : Map ℕ Delivery) (d : Delivery)
    → get j m ≡ none
    → Held m d
    → Held ((j, x) ∷ m) d
unfolding get
Held-cons j x m d free h = ground (arith, ==_iff j d.message.sequence)

pub values-Held : (m : Map ℕ Delivery) → Keyed m → All (Held m) (values m)
unfolding values
values-Held [] h = tt
values-Held ((j, x) ∷ m) h = (
  subst (λ i. get i ((j, x) ∷ m) ≡ some x) (sym h.0) (get-first j x m),
  All-map (λ d held. Held-cons j x m d h.1 held) (values m) (values-Held m h.2),
)

-- All keys are below the number.
abbrev pub Below : ℕ → Map ℕ Delivery → Type 0
Below n m = All (λ (e : ℕ × Delivery). e.0 < n) m

pub Below-put :
    (n k : ℕ) (d : Delivery) (m : Map ℕ Delivery) → k < n → Below n m → Below n (put k d m)
unfolding put
Below-put n k d [] h b = (h, tt)
Below-put n k d ((j, x) ∷ m) h b = ground (arith, Below-put n k d m h b.1)

pub Below-delete : (n k : ℕ) (m : Map ℕ Delivery) → Below n m → Below n (delete k m)
unfolding delete
Below-delete n k [] b = tt
Below-delete n k ((j, x) ∷ m) b = ground (arith, Below-delete n k m b.1)

pub Below-suc : (n : ℕ) (m : Map ℕ Delivery) → Below n m → Below (suc n) m
Below-suc n m b = All-map (λ (e : ℕ × Delivery) h. omega arith) m b

pub get-Below : (n k : ℕ) (d : Delivery) (m : Map ℕ Delivery) → Below n m → get k m ≡ some d → k < n
unfolding get
get-Below n k d [] b e = cc
get-Below n k d ((j, x) ∷ m) b e = ground (arith, ==_iff j k, get-Below n k d m b.1)

pub record IsValid (outbox : Outbox) : Type 0 where
  pub keyed : Keyed outbox.deliveries
  pub below : Below outbox.next_sequence outbox.deliveries

-- A map that is keyed and below `n`.
abbrev Good : ℕ → Map ℕ Delivery → Type 0
Good n m = Keyed m × Below n m

pub Good-acquire_all :
    (command : LeaseCommand) (n : ℕ) (items : List Delivery) (m : Map ℕ Delivery)
    → All (λ d. d.message.sequence < n) items
    → Good n m
    → Good n (acquire_all command items m)
unfolding acquire_all acquired
Good-acquire_all command n [] m h g = g
Good-acquire_all command n (d ∷ ds) m h g =
    Good-acquire_all command n ds (put d.message.sequence (acquired command d) m) h.1 (
      Keyed-put d.message.sequence (acquired command d) m refl g.0,
      Below-put n d.message.sequence (acquired command d) m h.0 g.1,
    )

pub Good-count :
    (step : ℕ → Map ℕ Delivery → Bool × Map ℕ Delivery) (n : ℕ) (sequences : List ℕ)
    (m : Map ℕ Delivery)
    → ((k : ℕ) (t : Map ℕ Delivery) → Good n t → Good n (step k t).1)
    → Good n m
    → Good n (count_steps step sequences m).1
unfolding count_steps
Good-count step n [] m h g = g
Good-count step n (k ∷ ks) m h g = Good-count step n ks (step k m).1 h (h k m g)

pub Good-acknowledge_one :
    (command : AcknowledgeCommand) (n k : ℕ) (m : Map ℕ Delivery)
    → Good n m
    → Good n (acknowledge_one command k m).1
unfolding acknowledge_one
Good-acknowledge_one command n k m g =
    elim (Bool-cases (owns_current_lease (get k m) command.worker_id command.acknowledged_at)) [
      | inl t ↦ rw t (Keyed-delete k m g.0, Below-delete n k m g.1)
      | inr f ↦ rw f g
    ]

pub Good-release_one :
    (command : ReleaseCommand) (n k : ℕ) (m : Map ℕ Delivery)
    → Good n m
    → Good n (release_one command k m).1
unfolding release_one freed
Good-release_one command n k m g = elim (Option-cases (get k m)) [
  | inl e ↦ rw (e, release_one) g
  | inr (d, e) ↦ elim (Bool-cases (same_owner d.lease_owner command.worker_id)) [
    | inl t ↦
        rw (e, release_one, t)
          (
            Keyed-put k (freed command d) m (Keyed-get k d m g.0 e) g.0,
            Below-put n k (freed command d) m (get-Below n k d m g.1 e) g.1,
          )
    | inr f ↦ rw (e, release_one, f) g
  ]
]
