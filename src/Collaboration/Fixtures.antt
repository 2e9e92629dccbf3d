-- ===== src/Collaboration/Fixtures.antt =====
-- Concrete data for the tests: a host that accepts every document, a service with an open branch
-- `main` and a protected branch `live`, two actors and the requests that they send.
use unifold.Prelude.{ℕ, true, false, Option, none, some, [], ◌∷◌, Text, text}
use unifold.Contracts.Json.{JsonObject, string, end, field}
use unifold.Collaboration.Types.{
  ActorContext, ActorType, Capability, Branch, BranchPolicy, PatchOperation, PatchOperationType,
  Proposal, ProposalStatus, Revision,
}
use unifold.Collaboration.Requests.{
  Env, Options, SubmitRequest, ApproveRequest, UndoRequest, PresenceRequest,
}
use unifold.Collaboration.EventLog.{EventLog}
use unifold.Collaboration.Support.{default_branch_policy}
use unifold.Collaboration.State.{State, Candidate}

abbrev pub host : Env
host = record {
  clock = λ n. n;
  validate = λ d. [];
  apply_patch = λ d os. some d;
  canonicalize = λ r. some (text "request");
}

abbrev pub page : JsonObject
page = field (text "title") (string (text "home")) end

abbrev pub setup : Options
setup = record {
  event_capacity = some 10;
  initial_document = page;
  main_branch_policy = none;
  tenant_id = text "tenant";
}

abbrev pub actor_named : Text → ActorContext
actor_named name = record {
  actor_id = name;
  actor_type = ActorType.human;
  capabilities = Capability.propose ∷ Capability.approve ∷ Capability.undo ∷ [];
  tenant_id = text "tenant";
}

abbrev pub author : ActorContext
author = actor_named (text "ann")

abbrev pub reviewer : ActorContext
reviewer = actor_named (text "bob")

abbrev pub replace_title : PatchOperation
replace_title = record {
  from = none;
  op = PatchOperationType.replace;
  path = text "/title";
  value = some (string (text "start"));
}

abbrev pub submission : Text → SubmitRequest
submission branch_id = record {
  affected_ids = [];
  base_revision = text "r1";
  branch_id = branch_id;
  causation_id = none;
  correlation_id = text "c";
  idempotency_key = text "k";
  intent = text "retitle";
  operations = replace_title ∷ [];
  proposal_id = text "p2";
  request_id = text "q";
}

abbrev pub approval_request : ApproveRequest
approval_request = record {
  correlation_id = text "c";
  expected_revision = text "r2";
  proposal_id = text "p1";
  request_id = text "q";
}

abbrev pub undo_request : UndoRequest
undo_request = record {
  branch_id = text "live";
  correlation_id = text "c";
  idempotency_key = text "k";
  request_id = text "q";
  target_revision = text "r1";
}

abbrev pub presence_request : PresenceRequest
presence_request = record {
  branch_id = text "live";
  correlation_id = text "c";
  cursor = none;
  draft = true;
  expires_in_ms = 50;
  request_id = text "q";
  selected_id = none;
}

abbrev pub guarded_policy : BranchPolicy
guarded_policy = record default_branch_policy {
  is_protected = true;
  required_approvals = 1;
  reviewer_ids = text "bob" ∷ [];
}

abbrev pub live_branch : Branch
live_branch = record {
  branch_id = text "live";
  head_revision = text "r1";
  policy = guarded_policy;
  published_revision = none;
}

abbrev pub revision_at : Text → ℕ → Option Text → Revision
revision_at name sequence parent = record {
  actor_id = text "ann";
  actor_type = ActorType.human;
  branch_id = text "live";
  changed_paths = text "/" ∷ [];
  committed_at = sequence;
  compensates_revision = none;
  correlation_id = text "c";
  document = page;
  parent_revision = parent;
  proposal_id = none;
  removed_paths = [];
  revision = name;
  sequence = sequence;
  tenant_id = text "tenant";
}

abbrev pub waiting : Proposal
waiting = record {
  approvals = [];
  author_id = text "ann";
  base_revision = text "r1";
  branch_id = text "live";
  candidate_revision = text "r2";
  comments = [];
  created_at = 1;
  expires_at = some 100;
  proposal_id = text "p1";
  rebased = false;
  status = ProposalStatus.pending;
}

abbrev pub offer : Candidate
offer = record {
  actor = author;
  branch_id = text "live";
  changed_paths = text "/title" ∷ [];
  correlation_id = text "c";
  document = page;
  parent_revision = text "r1";
  removed_paths = [];
  revision = text "r2";
  sequence = 2;
}

abbrev pub empty_log : EventLog
empty_log = record { capacity = 10; events = []; latest_sequence = 0 }

-- The branch `live` with a revision on a revision, and a proposal that waits for its review.
abbrev pub working : State
working = record {
  branches = (text "live", live_branch) ∷ [];
  candidates = (text "p1", offer) ∷ [];
  events = empty_log;
  idempotency = [];
  presence = [];
  proposals = (text "p1", waiting) ∷ [];
  readings = 1;
  revision_sequence = 2;
  revisions =
      (text "r0", revision_at (text "r0") 0 none)
      ∷ (text "r1", revision_at (text "r1") 1 (some (text "r0")))
      ∷ [];
  tenant_id = text "tenant";
}
