-- ===== src/Collaboration/Moves/Service.antt =====
-- The moves that calls of `execute` and `createBranch` of packages/collaboration/src/reference.ts make in the ledger.
use unifold.Prelude.{
  ◌≡◌, refl, sym, ◌∙◌, subst, inl, inr, Option, none, some, List, [], ◌∷◌, arith, Bool-cases,
  Option-cases, nat_eq, Text, text, text_eq, get, put, get-put_cases, get-single, get-first,
}
use unifold.Collaboration.Types.{ActorContext, Branch, BranchPolicy, Revision, Diagnostic}
use unifold.Collaboration.Requests.{
  Env, Options, Request, propose, approve, comment, publish, undo, presence,
}
use unifold.Collaboration.EventLog.{EventLog}
use unifold.Collaboration.State.{
  State, create_branch, new_state, with_policy, with_diagnostics, with_log, initial_state,
  initial_revision, Identity, revision_name, stamp, idempotency_key,
}
use unifold.Collaboration.Support.{normalize_branch_policy}
use unifold.Collaboration.State.Ledger.{ledger, Moves, stay, IsValid}
use unifold.Collaboration.State.Preserve.{Moves-IsValid, Moves-keep}
use unifold.Collaboration.Proposals.{Outcome, submit_proposal}
use unifold.Collaboration.Reviews.{comment_on_proposal}
use unifold.Collaboration.Revisions.{undo_revision, update_collaboration_presence}
use unifold.Collaboration.Service.{
  Incoming, well_formed, malformed, authorized, dispatch, execute, idempotent, operation_of,
}
use unifold.Collaboration.Moves.{submit_proposal-Moves}
use unifold.Collaboration.Moves.Reviews.{approve_proposal-Moves, ledger-comment_on_proposal}
use unifold.Collaboration.Moves.Revisions.{
  publish_revision-Moves, undo_revision-Moves, ledger-update_collaboration_presence,
}

-- A call of the service that may change its state.
pub data ServiceCall : Type 0 where
  executing : Incoming → ActorContext → ServiceCall
  branching : Text → Text → Option BranchPolicy → ServiceCall

module _ (env : Env) where
  still : (s s' : State) → ledger s' ≡ ledger s → Moves (ledger s) (ledger s')
  still s s' e = rw e stay

  idempotent-Moves :
      (request : Request) (actor : ActorContext) (key : Text) (run : State → Outcome) (s : State)
      → Moves (ledger s) (ledger (run s).1)
      → Moves (ledger s) (ledger (idempotent env request actor key run s).1)
  unfolding idempotent
  idempotent-Moves request actor key run s m = elim (Option-cases (env.canonicalize request)) [
    | inl e ↦ rw (e, idempotent) stay
    | inr (f, e) ↦
        elim (Option-cases (get (idempotency_key actor (operation_of request) key) s.idempotency)) [
          | inl h ↦ rw (e, h, idempotent) m
          | inr (entry, h) ↦ rw (e, h, idempotent) stay
        ]
  ]

  dispatch-Moves :
      (request : Request) (actor : ActorContext) (s : State)
      → IsValid (ledger s)
      → Moves (ledger s) (ledger (dispatch env request actor s).1)
  unfolding dispatch
  dispatch-Moves (propose r) actor s v =
      idempotent-Moves (propose r) actor r.idempotency_key (submit_proposal env r actor) s
        (submit_proposal-Moves env r actor s)
  dispatch-Moves (approve r) actor s v = approve_proposal-Moves env r actor s
  dispatch-Moves (comment r) actor s v =
      still s (comment_on_proposal env r actor s).1 (ledger-comment_on_proposal env r actor s)
  dispatch-Moves (publish r) actor s v = publish_revision-Moves env r actor s
  dispatch-Moves (undo r) actor s v =
      idempotent-Moves (undo r) actor r.idempotency_key (undo_revision env r actor) s
        (undo_revision-Moves env r actor s v)
  dispatch-Moves (presence r) actor s v =
      still s (update_collaboration_presence env r actor s).1
        (ledger-update_collaboration_presence env r actor s)

  -- Whatever comes in, the ledger of a valid state takes allowed moves only.
  pub execute-Moves :
      (incoming : Incoming) (actor : ActorContext) (s : State)
      → IsValid (ledger s)
      → Moves (ledger s) (ledger (execute env incoming actor s).1)
  unfolding execute
  execute-Moves (malformed paths) actor s v = stay
  execute-Moves (well_formed request) actor s v = elim (Bool-cases (authorized request actor s)) [
    | inl e ↦ rw e (dispatch-Moves request actor s v)
    | inr e ↦ rw e stay
  ]

  -- The branch that createBranch stores.
  abbrev new_branch : Text → Text → BranchPolicy → Branch
  new_branch branch_id from_revision policy = record {
    branch_id = branch_id;
    head_revision = from_revision;
    policy = policy;
    published_revision = none;
  }

  abbrev branched : Text → Text → BranchPolicy → State → State
  branched branch_id from_revision policy s = record s {
    branches = put branch_id (new_branch branch_id from_revision policy) s.branches;
  }

  branched-IsValid :
      (branch_id from_revision : Text) (policy : BranchPolicy) (r : Revision) (s : State)
      → get from_revision s.revisions ≡ some r
      → IsValid (ledger s)
      → IsValid (ledger (branched branch_id from_revision policy s))
  branched-IsValid branch_id from_revision policy r s at v = record {
    heads = λ id b e. elim (get-put_cases branch_id id _ b s.branches e) [
      | inl (same, val) ↦ (r, rw (← val) at)
      | inr (other, old) ↦ v.heads id b old
    ];
    stored = v.stored;
    pending = v.pending;
    distinct = v.distinct;
  }

  create_branch-keeps :
      (branch_id from_revision : Text) (policy : Option BranchPolicy) (s s' : State)
      → create_branch branch_id from_revision policy s ≡ some s'
      → IsValid (ledger s)
      → IsValid (ledger s') × (s'.revisions ≡ s.revisions)
  unfolding create_branch
  create_branch-keeps branch_id from_revision policy s s' e v =
      elim (Option-cases (get branch_id s.branches)) [
        | inr (b, f) ↦ let thrown = rw (f, create_branch) at e in cc
        | inl f ↦ elim (Option-cases (get from_revision s.revisions)) [
          | inl g ↦ let thrown = rw (f, create_branch, g) at e in cc
          | inr (r, g) ↦ elim (Option-cases (normalize_branch_policy policy)) [
            | inl h ↦ let thrown = rw (f, create_branch, g, h) at e in cc
            | inr (p, h) ↦
                let made : create_branch branch_id from_revision policy s
                    ≡ some (branched branch_id from_revision p s) =
                  rw (f, create_branch, g, h) refl in
                let same : branched branch_id from_revision p s ≡ s' =
                  some-injective (sym made ∙ e) in
                subst (λ (t : State). IsValid (ledger t) × (t.revisions ≡ s.revisions)) same
                  (branched-IsValid branch_id from_revision p r s g v, refl)
          ]
        ]
      ]
    where
      some-injective : {x y : State} → some x ≡ some y → x ≡ y
      some-injective k = cc

  -- The state after a call. One that throws leaves the state as it was.
  abbrev pub after_call : ServiceCall → State → State
  after_call (executing incoming actor) s = (execute env incoming actor s).1
  after_call (branching branch_id from_revision policy) s =
      elim (create_branch branch_id from_revision policy s) [ none ↦ s | some s' ↦ s' ]

  after_call-keeps :
      (call : ServiceCall) (s : State)
      → IsValid (ledger s)
      → IsValid (ledger (after_call call s))
        × ((id : Text) (r : Revision)
            → get id s.revisions ≡ some r
            → get id (after_call call s).revisions ≡ some r)
  after_call-keeps (executing incoming actor) s v =
      let ms = execute-Moves incoming actor s v in
      (Moves-IsValid ms v, λ id r e. Moves-keep ms v id r e)
  after_call-keeps (branching branch_id from_revision policy) s v =
      elim (Option-cases (create_branch branch_id from_revision policy s)) [
        | inl e ↦ rw (e, after_call) (v, λ id r h. h)
        | inr (s', e) ↦
            let (w, same) = create_branch-keeps branch_id from_revision policy s s' e v in
            rw (e, after_call) (w, λ id r h. rw same h)
      ]

  -- The state after a series of calls.
  abbrev pub serve : List ServiceCall → State → State
  serve [] s = s
  serve (call ∷ rest) s = serve rest (after_call call s)

  serve-keeps :
      (calls : List ServiceCall) (s : State)
      → IsValid (ledger s)
      → IsValid (ledger (serve calls s))
        × ((id : Text) (r : Revision)
            → get id s.revisions ≡ some r
            → get id (serve calls s).revisions ≡ some r)
  serve-keeps [] s v = (v, λ id r e. e)
  serve-keeps (call ∷ rest) s v =
      let (w, first) = after_call-keeps call s v in
      let (x, kept) = serve-keeps rest (after_call call s) w in
      (x, λ id r e. kept id r (first id r e))

  -- From a valid state, no series of calls of `execute` and `createBranch`, accepted or not, changes
  -- or drops a stored revision.
  pub serve-keeps-revision :
      (calls : List ServiceCall) (s : State) (id : Text) (r : Revision)
      → IsValid (ledger s)
      → get id s.revisions ≡ some r
      → get id (serve calls s).revisions ≡ some r
  serve-keeps-revision calls s id r v e = (serve-keeps calls s v).1 id r e

  initial-IsValid :
      (options : Options) (log : EventLog) (policy : BranchPolicy)
      → IsValid (ledger (initial_state env options log policy))
  unfolding initial_state
  initial-IsValid options log policy = record {
    heads = λ id b e.
        let (same, val) = get-single (text "main") id _ b e in
        let identity : Identity = record { revision = revision_name 1; sequence = 1 } in
        let r =
          initial_revision env options.tenant_id (stamp (revision_name 1) options.initial_document)
            identity (env.clock 0) in
        (
          r,
          subst (λ (x : Branch). get x.head_revision ((revision_name 1, r) ∷ []) ≡ some r) val
              (get-first (revision_name 1) r []),
        );
    stored = λ id r e.
        let (same, val) = get-single (revision_name 1) id _ r e in
        record {
          name = rw (← val) same;
          named = rw (← val, ← same) refl;
          made = rw (← val) (omega arith);
          parent = λ p h. let missing = rw (← val) at h in cc;
        };
    pending = λ id c e. unfold get in cc;
    distinct = λ i j c d e f g. unfold get in cc;
  }

  with_policy-IsValid :
      (options : Options) (log : EventLog) (policy : Option BranchPolicy) (s : State)
      → with_policy env options log policy ≡ some s
      → IsValid (ledger s)
  unfolding with_policy
  with_policy-IsValid options log none s e = cc
  with_policy-IsValid options log (some policy) s e =
      subst (λ (o : Option State). elim o [ none ↦ Unit {0} | some t ↦ IsValid (ledger t) ]) e
        (initial-IsValid options log policy)

  with_diagnostics-IsValid :
      (options : Options) (log : EventLog) (ds : List Diagnostic) (s : State)
      → with_diagnostics env options log ds ≡ some s
      → IsValid (ledger s)
  unfolding with_diagnostics
  with_diagnostics-IsValid options log [] s e = with_policy-IsValid options log _ s e
  with_diagnostics-IsValid options log (d ∷ ds) s e = cc

  with_log-IsValid :
      (options : Options) (log : Option EventLog) (s : State)
      → with_log env options log ≡ some s
      → IsValid (ledger s)
  unfolding with_log
  with_log-IsValid options none s e = cc
  with_log-IsValid options (some log) s e = with_diagnostics-IsValid options log _ s e

  -- What the constructor returns is valid.
  pub new_state-IsValid :
      (options : Options) (s : State) → new_state env options ≡ some s → IsValid (ledger s)
  unfolding new_state
  new_state-IsValid options s e = with_log-IsValid options _ s e

  -- After any series of calls of `execute` and `createBranch` to a new service the ledger is valid:
  -- each branch, the first and those created, has a stored head, revisions are named by their number,
  -- parents are stored and older, and waiting candidates are distinct and not yet stored.
  pub serve-IsValid :
      (options : Options) (s : State) (calls : List ServiceCall)
      → new_state env options ≡ some s
      → IsValid (ledger (serve calls s))
  serve-IsValid options s calls e = (serve-keeps calls s (new_state-IsValid options s e)).0
