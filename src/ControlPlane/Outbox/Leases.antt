-- ===== src/ControlPlane/Outbox/Leases.antt =====
-- Leases, of packages/control-plane/src/reference-outbox.ts.
use unifold.Prelude.{
  ℕ, zero, suc, ◌≤◌, ◌<◌, ◌≡◌, refl, ap, ◌∙◌, subst, ◌≢◌, inl, inr, true, false, some, List, [],
  ◌∷◌, map, arith, Bool-cases, ◌==◌, nat_eq, ==_iff, length, take, keep, All, All-map, text_eq, Map,
  get, put, get-put, get-put_self,
}
use unifold.ControlPlane.Outbox.{
  Delivery, Outbox, Entry, LeaseCommand, can_lease, acquired, entry_of, values, acquire_all,
  bounded_limit, chosen, lease, valid_lease, lease_over,
}
use unifold.ControlPlane.Outbox.Laws.{IsValid, Held, values-Held}

All-take {ℓ κ} : {A : Type ℓ} (P : A → Type κ) (n : ℕ) (xs : List A) → All P xs → All P (take n xs)
All-take P zero xs h = tt
All-take P (suc n) [] h = tt
All-take P (suc n) (x ∷ xs) h = (h.0, All-take P n xs h.1)

length-take {ℓ} : {A : Type ℓ} (n : ℕ) (xs : List A) → length (take n xs) ≤ n
length-take zero xs = omega arith
length-take (suc n) [] = omega arith
length-take (suc n) (x ∷ xs) = omega (arith, length-take n xs)

length-map {ℓ κ} :
    {A : Type ℓ} {B : Type κ} (f : A → B) (xs : List A) → length (map f xs) ≡ length xs
length-map f [] = refl
length-map f (x ∷ xs) = ap suc (length-map f xs)

All-of_map {ℓ κ} :
    {A B : Type ℓ} (P : B → Type κ) (f : A → B) (xs : List A)
    → All (λ x. P (f x)) xs
    → All P (map f xs)
All-of_map P f [] h = tt
All-of_map P f (x ∷ xs) h = (h.0, All-of_map P f xs h.1)

module _ (command : LeaseCommand) where
  abbrev Free : Map ℕ Delivery → Delivery → Type 0
  Free m d = (can_lease command d ≡ true) × Held m d

  keep-Free :
      (m : Map ℕ Delivery) (ds : List Delivery)
      → All (Held m) ds
      → All (Free m) (keep (can_lease command) ds)
  keep-Free m [] h = tt
  keep-Free m (d ∷ ds) h = ground (arith, keep-Free m ds h.1)

  pub chosen-Free :
      (outbox : Outbox) → IsValid outbox → All (Free outbox.deliveries) (chosen command outbox)
  unfolding chosen
  chosen-Free outbox v = All-take _ (bounded_limit command.limit) _ (
      keep-Free outbox.deliveries (values outbox.deliveries)
        (values-Held outbox.deliveries v.keyed))

  module _ (m₀ : Map ℕ Delivery) (k : ℕ) (d : Delivery) (at : get k m₀ ≡ some d) where
    same_item : (item : Delivery) → Held m₀ item → item.message.sequence ≡ k → item ≡ d
    same_item item h e = ground (arith, at, rw e at h)

    -- What is not free is not touched.
    keeps_lem :
        (items : List Delivery) (m : Map ℕ Delivery)
        → can_lease command d ≡ false
        → All (Free m₀) items
        → get k m ≡ some d
        → get k (acquire_all command items m) ≡ some d
    unfolding acquire_all
    keeps_lem [] m taken h e = e
    keeps_lem (item ∷ items) m taken h e = elim (Bool-cases (item.message.sequence == k)) [
      | inl t ↦
          let same = same_item item h.0.1 ((==_iff item.message.sequence k).0 t) in
          let free = h.0.0 in cc
      | inr f ↦
          keeps_lem items (put item.message.sequence (acquired command item) m) taken h.1
            (get-put item.message.sequence k _ m ∙ rw f e)
    ]

    -- What has been acquired stays so.
    stays_lem :
        (items : List Delivery) (m : Map ℕ Delivery)
        → All (Free m₀) items
        → get k m ≡ some (acquired command d)
        → get k (acquire_all command items m) ≡ some (acquired command d)
    unfolding acquire_all
    stays_lem [] m h e = e
    stays_lem (item ∷ items) m h e =
        stays_lem items (put item.message.sequence (acquired command item) m) h.1 (
          get-put item.message.sequence k _ m ∙ (elim (Bool-cases (item.message.sequence == k)) [
            | inl t ↦ rw t (
                ap (λ (x : Delivery). some (acquired command x))
                  (same_item item h.0.1 ((==_iff item.message.sequence k).0 t)))
            | inr f ↦ rw f e
          ]))

  All-acquired :
      (m₀ : Map ℕ Delivery) (items : List Delivery) (m : Map ℕ Delivery)
      → All (Free m₀) items
      → All
          (λ item.
            get item.message.sequence (acquire_all command items m) ≡ some (acquired command item))
          items
  unfolding acquire_all
  All-acquired m₀ [] m h = tt
  All-acquired m₀ (item ∷ items) m h =
      let m' = put item.message.sequence (acquired command item) m in
      (
        stays_lem m₀ item.message.sequence item h.0.1 items m' h.1
            (get-put_self item.message.sequence (acquired command item) m),
        All-acquired m₀ items m' h.1,
      )

  abbrev pub leased : Outbox → List Entry × Outbox
  leased outbox = (
    map (λ item. entry_of (acquired command item)) (chosen command outbox),
    record outbox { deliveries = acquire_all command (chosen command outbox) outbox.deliveries },
  )

  pub lease_lem :
      (outbox : Outbox) (r : List Entry × Outbox)
      → lease command outbox ≡ some r
      → leased outbox ≡ r
  unfolding lease
  lease_lem outbox r e = elim (Bool-cases (valid_lease command)) [
    | inl t ↦ let good = rw t at e in cc
    | inr f ↦ let bad = rw f at e in cc
  ]

  limit_lem : (n : ℕ) → bounded_limit n ≤ n
  unfolding bounded_limit
  limit_lem n = ground arith

  -- The entry's message is leased to the worker, with the attempts that the entry says.
  pub record IsLeased (after : Outbox) (e : Entry) : Type 0 where
    pub delivery : Delivery
    pub held : get e.message.sequence after.deliveries ≡ some delivery
    pub owner : delivery.lease_owner ≡ some command.worker_id
    pub until : delivery.lease_until ≡ some command.lease_until
    pub attempts : delivery.attempts ≡ e.attempts
    pub message : delivery.message ≡ e.message

  chosen_lem : (outbox : Outbox) → length (chosen command outbox) ≤ bounded_limit command.limit
  unfolding chosen
  chosen_lem outbox =
      length-take (bounded_limit command.limit)
        (keep (can_lease command) (values outbox.deliveries))

  leased-IsLeased :
      (outbox : Outbox)
      → IsValid outbox
      → (length (leased outbox).0 ≤ command.limit)
        × All (IsLeased (leased outbox).1) (leased outbox).0
  unfolding entry_of acquired
  leased-IsLeased outbox v = (
    omega (
      arith,
      length-map (λ item. entry_of (acquired command item)) (chosen command outbox),
      limit_lem command.limit,
      chosen_lem outbox,
    ),
    All-of_map _ (λ item. entry_of (acquired command item)) (chosen command outbox)
        (All-map
          (λ item e. record {
            delivery = acquired command item;
            held = e;
            owner = refl;
            until = refl;
            attempts = refl;
            message = refl;
          })
          (chosen command outbox)
          (All-acquired outbox.deliveries (chosen command outbox) outbox.deliveries
            (chosen-Free outbox v))),
  )

  -- A lease that succeeds on a valid outbox hands out at most as many entries as the worker asked
  -- for, and afterwards each of their messages is leased to the worker until the time it named, with
  -- the number of attempts that the entry says.
  pub lease-IsLeased :
      (outbox after : Outbox) (entries : List Entry)
      → IsValid outbox
      → lease command outbox ≡ some (entries, after)
      → (length entries ≤ command.limit) × All (IsLeased after) entries
  lease-IsLeased outbox after entries v e =
      subst (λ (r : List Entry × Outbox). (length r.0 ≤ command.limit) × All (IsLeased r.1) r.0)
        (lease_lem outbox (entries, after) e) (leased-IsLeased outbox v)

  not_given :
      (outbox : Outbox) (k : ℕ) (d : Delivery) (items : List Delivery)
      → get k outbox.deliveries ≡ some d
      → can_lease command d ≡ false
      → All (Free outbox.deliveries) items
      → All
          (λ (e : Entry). e.message.sequence ≢ k)
          (map (λ item. entry_of (acquired command item)) items)
  unfolding entry_of acquired
  not_given outbox k d items at taken h =
      All-of_map _ (λ item. entry_of (acquired command item)) items
        (All-map
          (λ item free here.
            let same = same_item outbox.deliveries k d at item free.1 here in
            let able = free.0 in cc)
          items h)

  taken_lem :
      (d : Delivery) (until : ℕ)
      → d.lease_until ≡ some until
      → command.leased_at < until
      → can_lease command d ≡ false
  unfolding can_lease lease_over
  taken_lem d until e h = rw e (ground arith)

  -- A delivery whose lease has not run out is not handed out, and a lease leaves it as it is.
  pub lease-keeps-leased :
      (outbox after : Outbox) (entries : List Entry) (k until : ℕ) (d : Delivery)
      → IsValid outbox
      → lease command outbox ≡ some (entries, after)
      → get k outbox.deliveries ≡ some d
      → d.lease_until ≡ some until
      → command.leased_at < until
      → (get k after.deliveries ≡ some d) × All (λ (e : Entry). e.message.sequence ≢ k) entries
  lease-keeps-leased outbox after entries k until d v e at u h =
      let taken = taken_lem d until u h in
      subst
        (λ (r : List Entry × Outbox).
          (get k r.1.deliveries ≡ some d) × All (λ (e : Entry). e.message.sequence ≢ k) r.0)
        (lease_lem outbox (entries, after) e)
        (
          keeps_lem outbox.deliveries k d at (chosen command outbox) outbox.deliveries taken
              (chosen-Free outbox v) at,
          not_given outbox k d (chosen command outbox) at taken (chosen-Free outbox v),
        )
