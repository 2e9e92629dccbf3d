-- ===== src/Collaboration/Service/Replay.antt =====
-- Repeated calls of `idempotent` of packages/collaboration/src/reference.ts.
use unifold.Prelude.{
  ◌≡◌, ap, ◌∙◌, ◌≢◌, Bool, none, some, if◌then◌else◌, nat_eq, ==_refl, ==_ne, Text, text_eq, get,
  get-put_self,
}
use unifold.Collaboration.Types.{ActorContext}
use unifold.Collaboration.Requests.{Env, Request}
use unifold.Collaboration.Support.{replayed}
use unifold.Collaboration.State.{State, IdempotencyEntry, idempotency_key, idempotency_conflict}
use unifold.Collaboration.Proposals.{Outcome}
use unifold.Collaboration.Service.{idempotent, record_idempotency, replay_idempotency, operation_of}

module _ (env : Env) (request : Request) (actor : ActorContext) (key fingerprint : Text)
    (run : State → Outcome) (s : State) where
  -- What the first call leaves and returns.
  abbrev pub first : Outcome
  first = idempotent env request actor key run s

  first_lem :
      env.canonicalize request ≡ some fingerprint
      → get (idempotency_key actor (operation_of request) key) s.idempotency ≡ none
      → first
        ≡ record_idempotency (idempotency_key actor (operation_of request) key) fingerprint (run s)
  unfolding idempotent
  first_lem e free = rw (e, free, idempotent)

  recorded :
      env.canonicalize request ≡ some fingerprint
      → get (idempotency_key actor (operation_of request) key) s.idempotency ≡ none
      → get (idempotency_key actor (operation_of request) key) first.1.idempotency
        ≡ some (record { fingerprint = fingerprint; result = first.0 })
  unfolding record_idempotency
  recorded e free =
      rw (first_lem e free)
        (get-put_self (idempotency_key actor (operation_of request) key) _ (run s).1.idempotency)

  -- A call that finds an entry is answered from it.
  found_entry :
      (other : Text) (t : State) (entry : IdempotencyEntry)
      → env.canonicalize request ≡ some other
      → get (idempotency_key actor (operation_of request) key) t.idempotency ≡ some entry
      → idempotent env request actor key run t ≡ (replay_idempotency entry other, t)
  unfolding idempotent
  found_entry other t entry e h = rw (e, h, idempotent)

  -- The same request, sent again by the same actor after it was first run, changes nothing and gets
  -- the first result marked as replayed.
  pub idempotent-idempotent :
      env.canonicalize request ≡ some fingerprint
      → get (idempotency_key actor (operation_of request) key) s.idempotency ≡ none
      → idempotent env request actor key run first.1 ≡ (replayed first.0, first.1)
  unfolding replay_idempotency
  idempotent-idempotent e free =
      found_entry fingerprint first.1 _ e (recorded e free)
      ∙ ap (λ (b : Bool). (if b then replayed first.0 else idempotency_conflict, first.1))
          (==_refl fingerprint)

-- After a request was first run, another request of the same actor with the same operation and key is
-- refused on the state that this left, and changes nothing.
pub idempotent-conflict :
    (env : Env) (request again : Request) (actor : ActorContext) (key fingerprint other : Text)
    (run rerun : State → Outcome) (s : State)
    → env.canonicalize request ≡ some fingerprint
    → get (idempotency_key actor (operation_of request) key) s.idempotency ≡ none
    → operation_of again ≡ operation_of request
    → env.canonicalize again ≡ some other
    → fingerprint ≢ other
    → let after = (idempotent env request actor key run s).1 in
      idempotent env again actor key rerun after ≡ (idempotency_conflict, after)
unfolding replay_idempotency
idempotent-conflict env request again actor key fingerprint other run rerun s e free same f
      differs =
    let after = first env request actor key fingerprint run s in
    found_entry env again actor key fingerprint rerun s other after.1
      (record { fingerprint = fingerprint; result = after.0 }) f
      (rw same (recorded env request actor key fingerprint run s e free))
    ∙ ap (λ (b : Bool). (if b then replayed after.0 else idempotency_conflict, after.1))
        (==_ne fingerprint other differs)
