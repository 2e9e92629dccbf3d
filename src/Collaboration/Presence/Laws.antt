-- ===== src/Collaboration/Presence/Laws.antt =====
-- Updates and snapshots of packages/collaboration/src/presence.ts.
use unifold.Prelude.{
  ℕ, ◌+◌, ◌<◌, ◌≡◌, ap, ◌∙◌, ◌⊎◌, inl, inr, Bool, true, ◌&&◌, some, List, [], ◌∷◌, arith,
  Bool-cases, ◌==◌, nat_eq, ==_iff, length, keep, All, Text, text_eq, Map, get, put, get-put_self,
}
use unifold.Collaboration.Types.{ActorContext, Presence}
use unifold.Collaboration.Requests.{PresenceRequest}
use unifold.Collaboration.Presence.{presence_key, sweep, update, values, snapshot}

abbrev pub AllLive : ℕ → Map Text Presence → Type 0
AllLive now_ms entries = All (λ p. now_ms < p.expires_at) (values entries)

sweep-AllLive : (now_ms : ℕ) (entries : Map Text Presence) → AllLive now_ms (sweep now_ms entries).0
unfolding sweep values
sweep-AllLive now_ms [] = tt
sweep-AllLive now_ms ((k, p) ∷ rest) = ground (arith, sweep-AllLive now_ms rest)

-- The entries that are left, and the number removed, make up what was there.
sweep_count :
    (now_ms : ℕ) (entries : Map Text Presence)
    → length (sweep now_ms entries).0 + (sweep now_ms entries).1 ≡ length entries
unfolding sweep
sweep_count now_ms [] = omega arith
sweep_count now_ms ((k, p) ∷ rest) = ground (arith, sweep_count now_ms rest)

values-put-All :
    (k : Text) (q : Presence) (entries : Map Text Presence) (n : ℕ)
    → n < q.expires_at
    → AllLive n entries
    → AllLive n (put k q entries)
unfolding values put
values-put-All k q [] n h a = (h, tt)
values-put-All k q ((j, p) ∷ rest) n h a = ground (arith, values-put-All k q rest n h a.1)

module _ (request : PresenceRequest) (actor : ActorContext) (now_ms : ℕ)
    (entries : Map Text Presence) where
  -- After an update with a positive life every entry is live, and the actor's own is the new one.
  pub update-AllLive :
      0 < request.expires_in_ms
      → let (presence, after) = update request actor now_ms entries in
        AllLive now_ms after
        × (get (presence_key actor.tenant_id request.branch_id actor.actor_id) after
            ≡ some presence)
  unfolding update
  update-AllLive h =
      let left = (sweep now_ms entries).0 in
      (
        values-put-All _ _ left now_ms (omega arith) (sweep-AllLive now_ms entries),
        get-put_self (presence_key actor.tenant_id request.branch_id actor.actor_id) _ left,
      )

get-sweep :
    (now_ms : ℕ) (k : Text) (p : Presence) (entries : Map Text Presence)
    → get k entries ≡ some p
    → now_ms < p.expires_at
    → get k (sweep now_ms entries).0 ≡ some p
unfolding get sweep
get-sweep now_ms k p [] e h = cc
get-sweep now_ms k p ((j, q) ∷ rest) e h = ground (arith, get-sweep now_ms k p rest)

abbrev pub Holds : Presence → List Presence → Type 0
Holds p [] = ⊥
Holds p (q ∷ qs) = (q ≡ p) ⊎ Holds p qs

values-get :
    (k : Text) (p : Presence) (entries : Map Text Presence)
    → get k entries ≡ some p
    → Holds p (values entries)
unfolding values get
values-get k p [] e = cc
values-get k p ((j, q) ∷ rest) e = elim (Bool-cases (j == k)) [
  | inl t ↦ inl (some-inj (rw t at e))
  | inr f ↦ inr (values-get k p rest (rw f at e))
]
  where
    some-inj : some q ≡ some p → q ≡ p
    some-inj h = cc

Holds-keep :
    (f : Presence → Bool) (p : Presence) (qs : List Presence)
    → Holds p qs
    → f p ≡ true
    → Holds p (keep f qs)
Holds-keep f p [] m h = absurd m
Holds-keep f p (q ∷ qs) (inl e) h = rw (ap f e ∙ h) (inl e)
Holds-keep f p (q ∷ qs) (inr m) h = elim (Bool-cases (f q)) [
  | inl t ↦ rw t (inr (Holds-keep f p qs m h))
  | inr g ↦ rw g (Holds-keep f p qs m h)
]

-- A presence that a reader of the branch may see at the time.
pub record IsVisible (tenant_id branch_id : Text) (now_ms : ℕ) (p : Presence) : Type 0 where
  pub live : now_ms < p.expires_at
  pub of_tenant : p.tenant_id ≡ tenant_id
  pub on_branch : p.branch_id ≡ branch_id

kept-IsVisible :
    (tenant_id branch_id : Text) (now_ms : ℕ) (ps : List Presence)
    → All (λ p. now_ms < p.expires_at) ps
    → All
        (IsVisible tenant_id branch_id now_ms)
        (keep (λ (p : Presence). p.tenant_id == tenant_id && p.branch_id == branch_id) ps)
kept-IsVisible tenant_id branch_id now_ms [] h = tt
kept-IsVisible tenant_id branch_id now_ms (p ∷ ps) h = ground (
  arith,
  kept-IsVisible tenant_id branch_id now_ms ps h.1,
  ==_iff p.tenant_id tenant_id,
  ==_iff p.branch_id branch_id,
)

module _ (tenant_id branch_id : Text) (now_ms : ℕ) (entries : Map Text Presence) where
  -- A snapshot holds only presences that are live, of the tenant and on the branch.
  pub snapshot-IsVisible :
      All (IsVisible tenant_id branch_id now_ms) (snapshot tenant_id branch_id now_ms entries).0
  unfolding snapshot
  snapshot-IsVisible =
      kept-IsVisible tenant_id branch_id now_ms (values (sweep now_ms entries).0)
        (sweep-AllLive now_ms entries)

  -- A snapshot holds each recorded presence that is live, of the tenant and on the branch.
  pub snapshot-Holds :
      (k : Text) (p : Presence)
      → get k entries ≡ some p
      → IsVisible tenant_id branch_id now_ms p
      → Holds p (snapshot tenant_id branch_id now_ms entries).0
  unfolding snapshot
  snapshot-Holds k p e v =
      let left = (sweep now_ms entries).0 in
      Holds-keep _ p (values left) (values-get k p left (get-sweep now_ms k p entries e v.live)) (
        ground (
          arith,
          ==_iff p.tenant_id tenant_id,
          ==_iff p.branch_id branch_id,
          v.of_tenant,
          v.on_branch,
        ))
