-- ===== src/Collaboration/Requests.antt =====
-- The requests of packages/collaboration/src/types.ts, and the ports of the reference service: the
-- clock, the host's validation, the RFC 6902 patcher and the JSON canonicalizer.
use unifold.Prelude.{ℕ, Bool, Option, List, Text}
use unifold.Contracts.Json.{JsonObject}
use unifold.Collaboration.Types.{PatchOperation, Diagnostic, BranchPolicy}

pub record SubmitRequest : Type 0 where
  pub affected_ids : List Text
  pub base_revision : Text
  pub branch_id : Text
  pub causation_id : Option Text
  pub correlation_id : Text
  pub idempotency_key : Text
  pub intent : Text
  pub operations : List PatchOperation
  pub proposal_id : Text
  pub request_id : Text

pub record ApproveRequest : Type 0 where
  pub correlation_id : Text
  pub expected_revision : Text
  pub proposal_id : Text
  pub request_id : Text

pub record CommentRequest : Type 0 where
  pub body : Text
  pub correlation_id : Text
  pub proposal_id : Text
  pub request_id : Text

pub record PublishRequest : Type 0 where
  pub branch_id : Text
  pub correlation_id : Text
  pub request_id : Text
  pub revision : Text

pub record UndoRequest : Type 0 where
  pub branch_id : Text
  pub correlation_id : Text
  pub idempotency_key : Text
  pub request_id : Text
  pub target_revision : Text

pub record PresenceRequest : Type 0 where
  pub branch_id : Text
  pub correlation_id : Text
  pub cursor : Option JsonObject
  pub draft : Bool
  pub expires_in_ms : ℕ
  pub request_id : Text
  pub selected_id : Option Text

pub data Request : Type 0 where
  propose : SubmitRequest → Request
  approve : ApproveRequest → Request
  comment : CommentRequest → Request
  publish : PublishRequest → Request
  undo : UndoRequest → Request
  presence : PresenceRequest → Request

-- `clock n` is what the n-th call of `clock.now().getTime()` returns. `apply_patch` is undefined
-- where the patcher throws or reports a failed operation.
pub record Env : Type 0 where
  pub clock : ℕ → ℕ
  pub validate : JsonObject → List Diagnostic
  pub apply_patch : JsonObject → List PatchOperation → Option JsonObject
  pub canonicalize : Request → Option Text

pub record Options : Type 0 where
  pub event_capacity : Option ℕ
  pub initial_document : JsonObject
  pub main_branch_policy : Option BranchPolicy
  pub tenant_id : Text
