-- ===== src/Collaboration/State.antt =====
-- packages/collaboration/src/reference-state.ts: the state of the reference service. The objects
-- that the source mutates through a map, branches and proposals, are updated at their key. Reading
-- the clock is a step of the state.
use unifold.Prelude.{
  ℕ, zero, suc, Option, none, some, List, [], ◌∷◌, ◌++◌, if◌then◌else◌, ◌==◌, nat_eq, Text, text,
  text_eq, Map, get, put, print, pad_zeros,
}
use unifold.Contracts.Json.{JsonObject, JsonValue, string, set_field}
use unifold.Collaboration.Types.{
  ActorContext, ActorType, Branch, BranchPolicy, Diagnostic, EventType, Presence, Proposal,
  Revision, Result, ErrorCode, Status,
}
use unifold.Collaboration.Requests.{Env, Options}
use unifold.Collaboration.EventLog
use unifold.Collaboration.EventLog.{EventLog, capacity_or_default}
use unifold.Collaboration.Support.{invalid, normalize_branch_policy}
pub mod Ledger
pub mod Preserve
pub mod Walk

pub record Candidate : Type 0 where
  pub actor : ActorContext
  pub branch_id : Text
  pub changed_paths : List Text
  pub correlation_id : Text
  pub document : JsonObject
  pub parent_revision : Text
  pub removed_paths : List Text
  pub revision : Text
  pub sequence : ℕ

pub record IdempotencyEntry : Type 0 where
  pub fingerprint : Text
  pub result : Result

pub record State : Type 0 where
  pub branches : Map Text Branch
  pub candidates : Map Text Candidate
  pub events : EventLog
  pub idempotency : Map Text IdempotencyEntry
  pub presence : Map Text Presence
  pub proposals : Map Text Proposal
  pub readings : ℕ
  pub revision_sequence : ℕ
  pub revisions : Map Text Revision
  pub tenant_id : Text

pub record Identity : Type 0 where
  pub revision : Text
  pub sequence : ℕ

unfoldable pub revision_name : ℕ → Text
revision_name sequence = text "revision-" ++ pad_zeros 12 (print sequence)

unfoldable pub next_revision_identity : State → Identity × State
next_revision_identity s =
    let sequence = suc s.revision_sequence in
    (
      record { revision = revision_name sequence; sequence = sequence },
      record s { revision_sequence = sequence },
    )

-- `{ ...document, revision }`
abbrev pub stamp : Text → JsonObject → JsonObject
stamp revision = set_field (text "revision") (string revision)

abbrev pub set_head : Text → Branch → Branch
set_head revision branch = record branch { head_revision = revision }

module _ (env : Env) where
  unfoldable pub now : State → ℕ × State
  now s = (env.clock s.readings, record s { readings = suc s.readings })

  -- `emitCollaborationEvent` of proposal-operations.ts.
  unfoldable pub emit_event : EventType → ActorContext → Text → Text → JsonObject → State → State
  unfolding now
  emit_event type actor branch_id correlation_id payload s =
      let (occurred_at, s') = now s in
      record s' {
        events =
            EventLog.append
              (record {
                actor = actor;
                branch_id = some branch_id;
                correlation_id = correlation_id;
                occurred_at = occurred_at;
                payload = payload;
                type = type;
              })
              s'.events;
      }

  unfoldable pub commit : Candidate → Option Text → Option Text → State → Revision × State
  unfolding now
  commit candidate proposal_id compensates_revision s =
      let (committed_at, s') = now s in
      let revision : Revision = record {
        actor_id = candidate.actor.actor_id;
        actor_type = candidate.actor.actor_type;
        branch_id = candidate.branch_id;
        changed_paths = candidate.changed_paths;
        committed_at = committed_at;
        compensates_revision = compensates_revision;
        correlation_id = candidate.correlation_id;
        document = candidate.document;
        parent_revision = some candidate.parent_revision;
        proposal_id = proposal_id;
        removed_paths = candidate.removed_paths;
        revision = candidate.revision;
        sequence = candidate.sequence;
        tenant_id = candidate.actor.tenant_id;
      } in
      (revision, record s' { revisions = put revision.revision revision s'.revisions })

  unfoldable pub initial_revision : Text → JsonObject → Identity → ℕ → Revision
  initial_revision tenant_id document identity committed_at = record {
    actor_id = text "system";
    actor_type = ActorType.automation;
    branch_id = text "main";
    changed_paths = text "/" ∷ [];
    committed_at = committed_at;
    compensates_revision = none;
    correlation_id = text "initial";
    document = document;
    parent_revision = none;
    proposal_id = none;
    removed_paths = [];
    revision = identity.revision;
    sequence = identity.sequence;
    tenant_id = tenant_id;
  }

  -- The state with the first revision on the branch `main`.
  unfoldable pub initial_state : Options → EventLog → BranchPolicy → State
  unfolding initial_revision
  initial_state options log policy =
      let identity : Identity = record { revision = revision_name 1; sequence = 1 } in
      let document = stamp identity.revision options.initial_document in
      record {
        branches =
            (
              text "main",
              record {
                branch_id = text "main";
                head_revision = identity.revision;
                policy = policy;
                published_revision = none;
              },
            )
            ∷ [];
        candidates = [];
        events = log;
        idempotency = [];
        presence = [];
        proposals = [];
        readings = 1;
        revision_sequence = 1;
        revisions =
            (identity.revision, initial_revision options.tenant_id document identity (env.clock 0))
            ∷ [];
        tenant_id = options.tenant_id;
      }

  unfoldable pub with_policy : Options → EventLog → Option BranchPolicy → Option State
  unfolding initial_state
  with_policy options log none = none
  with_policy options log (some policy) = some (initial_state options log policy)

  unfoldable pub with_diagnostics : Options → EventLog → List Diagnostic → Option State
  unfolding with_policy
  with_diagnostics options log (d ∷ ds) = none
  with_diagnostics options log [] =
      with_policy options log (normalize_branch_policy options.main_branch_policy)

  unfoldable pub with_log : Options → Option EventLog → Option State
  unfolding with_diagnostics
  with_log options none = none
  with_log options (some log) =
      with_diagnostics options log (env.validate (stamp (revision_name 1) options.initial_document))

  -- The constructor: it throws on a bad capacity, document or policy.
  unfoldable pub new_state : Options → Option State
  unfolding with_log capacity_or_default
  new_state options = with_log options (EventLog.new (capacity_or_default options.event_capacity))

-- It throws if the branch is there, if the revision is not, or if the policy is not valid.
unfoldable pub create_branch : Text → Text → Option BranchPolicy → State → Option State
create_branch branch_id from_revision policy s = elim (get branch_id s.branches) [
  | some b ↦ none
  | none ↦ elim (get from_revision s.revisions) [
    | none ↦ none
    | some r ↦ elim (normalize_branch_policy policy) [
      | none ↦ none
      | some p ↦ some (record s {
        branches =
            put branch_id
              (record {
                branch_id = branch_id;
                head_revision = from_revision;
                policy = p;
                published_revision = none;
              })
              s.branches;
      })
    ]
  ]
]

-- How the walk of `intervening` ends.
pub data Walked : Type 0 where
  missing out_of_fuel : Walked
  found : List Revision → Walked

-- The loop of `intervening`; the source pushes and reverses at the end.
unfoldable pub walk : ℕ → Map Text Revision → Option Text → Text → List Revision → Walked
walk fuel revisions none base values = missing
walk zero revisions (some cursor) base values = out_of_fuel
walk (suc fuel) revisions (some cursor) base values =
    if cursor == base then found values else elim (get cursor revisions) [
      | none ↦ missing
      | some r ↦ walk fuel revisions r.parent_revision base (r ∷ values)
    ]

-- The fuel is one more than the revisions made so far.
unfoldable pub intervening : Text → Text → State → Walked
unfolding walk
intervening head_revision base_revision s =
    walk (suc s.revision_sequence) s.revisions (some head_revision) base_revision []

unfoldable pub idempotency_key : ActorContext → Text → Text → Text
idempotency_key actor operation key =
    actor.tenant_id ++ 0 ∷ actor.actor_id ++ 0 ∷ operation ++ 0 ∷ key

unfoldable pub idempotency_conflict : Result
unfolding invalid
idempotency_conflict =
    invalid ErrorCode.idempotency_conflict (text "collaboration.idempotency.conflict") none
