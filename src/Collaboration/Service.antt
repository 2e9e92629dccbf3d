-- ===== src/Collaboration/Service.antt =====
-- packages/collaboration/src/reference.ts: the service dispatches a request of an authorized actor,
-- and answers a repeated submission or undo from its record.
mod Replay
mod Tests
use unifold.Prelude.{
  ℕ, Bool, true, false, not, ◌&&◌, Option, none, some, List, [], map, if◌then◌else◌, ◌==◌, nat_eq,
  any, Text, text, text_eq, get, put,
}
use unifold.Collaboration.Types.{
  ActorContext, Capability, Diagnostic, ErrorCode, Result, Status, Presence, Revision,
  CollaborationResult, EventBatch,
}
use unifold.Collaboration.Requests.{
  Env, Request, SubmitRequest, UndoRequest, propose, approve, comment, publish, undo, presence,
}
use unifold.Collaboration.Support.{denied, diagnostic, invalid, replayed}
use unifold.Collaboration.EventLog
use unifold.Collaboration.Presence
use unifold.Collaboration.State.{
  State, IdempotencyEntry, now, idempotency_key, idempotency_conflict,
}
use unifold.Collaboration.Proposals.{Outcome, submit_proposal}
use unifold.Collaboration.Reviews.{approve_proposal, comment_on_proposal}
use unifold.Collaboration.Revisions.{publish_revision, undo_revision, update_collaboration_presence}

-- The capability that an operation asks for.
abbrev pub capability_of : Request → Capability
capability_of (approve r) = Capability.approve
capability_of (comment r) = Capability.comment
capability_of (presence r) = Capability.presence
capability_of (propose r) = Capability.propose
capability_of (publish r) = Capability.publish
capability_of (undo r) = Capability.undo

abbrev pub operation_of : Request → Text
operation_of (approve r) = text "proposal.approve"
operation_of (comment r) = text "proposal.comment"
operation_of (presence r) = text "presence.update"
operation_of (propose r) = text "proposal.submit"
operation_of (publish r) = text "revision.publish"
operation_of (undo r) = text "revision.undo"

pub same_capability : Capability → Capability → Bool
same_capability Capability.approve Capability.approve = true
same_capability Capability.comment Capability.comment = true
same_capability Capability.presence Capability.presence = true
same_capability Capability.propose Capability.propose = true
same_capability Capability.publish Capability.publish = true
same_capability Capability.undo Capability.undo = true
same_capability _ _ = false

unfoldable pub authorized : Request → ActorContext → State → Bool
unfolding same_capability
authorized request actor s =
    actor.tenant_id == s.tenant_id
    && any (same_capability (capability_of request)) actor.capabilities

-- What `isCollaborationRequest` makes of an unknown value: a request, or the names of the checks
-- that failed.
pub data Incoming : Type 0 where
  well_formed : Request → Incoming
  malformed : List Text → Incoming

invalid_request : List Text → Result
unfolding diagnostic
invalid_request paths = record {
  conflicts = [];
  diagnostics =
      map
        (λ path.
          diagnostic ErrorCode.invalid_request (text "collaboration.request.invalid") (some path))
        paths;
  status = Status.invalid;
  value = none;
}

unfoldable pub record_idempotency : Text → Text → Outcome → Outcome
record_idempotency cache_key fingerprint (result, s) = (
  result,
  record s {
    idempotency =
        put cache_key (record { fingerprint = fingerprint; result = result }) s.idempotency;
  },
)

unfoldable pub replay_idempotency : IdempotencyEntry → Text → Result
replay_idempotency existing fingerprint =
    if existing.fingerprint == fingerprint then replayed existing.result else idempotency_conflict

module _ (env : Env) where
  -- `run` stands for the state and result of running the operation.
  unfoldable pub idempotent : Request → ActorContext → Text → (State → Outcome) → State → Outcome
  unfolding record_idempotency replay_idempotency
  idempotent request actor key run s =
      let cache_key = idempotency_key actor (operation_of request) key in
      elim (env.canonicalize request) [
        | none ↦ (invalid ErrorCode.invalid_request (text "collaboration.request.invalid") none, s)
        | some fingerprint ↦ elim (get cache_key s.idempotency) [
          | none ↦ record_idempotency cache_key fingerprint (run s)
          | some existing ↦ (replay_idempotency existing fingerprint, s)
        ]
      ]

  unfoldable pub dispatch : Request → ActorContext → State → Outcome
  unfolding idempotent
  dispatch (propose r) actor s =
      idempotent (propose r) actor r.idempotency_key (submit_proposal env r actor) s
  dispatch (approve r) actor s = approve_proposal env r actor s
  dispatch (comment r) actor s = comment_on_proposal env r actor s
  dispatch (publish r) actor s = publish_revision env r actor s
  dispatch (undo r) actor s =
      idempotent (undo r) actor r.idempotency_key (undo_revision env r actor) s
  dispatch (presence r) actor s = update_collaboration_presence env r actor s

  unfoldable pub execute : Incoming → ActorContext → State → Outcome
  unfolding invalid_request
  execute (malformed paths) actor s = (invalid_request paths, s)
  execute (well_formed request) actor s =
      if not (authorized request actor s)
      then (denied ErrorCode.capability_denied, s)
      else dispatch request actor s

  -- `presence`, which sweeps at the present time.
  unfoldable pub presence_of_branch : Text → Text → State → List Presence × State
  presence_of_branch tenant_id branch_id s =
      let (now_ms, s₁) = now env s in
      let (seen, entries) = Presence.snapshot tenant_id branch_id now_ms s₁.presence in
      (seen, record s₁ { presence = entries })

-- `head`
unfoldable pub head : Text → State → Option Revision
head branch_id s = elim (get branch_id s.branches) [
  | none ↦ none
  | some branch ↦ get branch.head_revision s.revisions
]

unfoldable pub resume_events : Text → ℕ → State → CollaborationResult EventBatch
resume_events tenant_id after_sequence s = EventLog.resume tenant_id after_sequence s.events
