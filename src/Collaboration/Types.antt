-- ===== src/Collaboration/Types.antt =====
-- packages/collaboration/src/types.ts: the data of the collaboration protocol. An ISO instant is
-- its number of milliseconds; an optional member is an `Option`; a result without conflicts or
-- diagnostics holds an empty list, since the code never returns a present and empty one.
use unifold.Prelude.{ℕ, Bool, Option, List, Text}
use unifold.Contracts.Json.{JsonObject, JsonValue}

pub data Capability : Type 0 where
  approve comment presence propose publish undo : Capability

pub data ActorType : Type 0 where
  ai automation human import migration : ActorType

pub data PatchOperationType : Type 0 where
  add copy move remove replace test : PatchOperationType

pub data Status : Type 0 where
  accepted conflict denied gap invalid not_found replayed review_required : Status

pub data ErrorCode : Type 0 where
  approval_expired approval_stale base_not_ancestor branch_not_found capability_denied : ErrorCode
  idempotency_conflict invalid_patch invalid_request proposal_not_found : ErrorCode
  publish_not_approved realtime_gap reviewer_denied revision_not_found : ErrorCode
  schema_rejected separation_of_duties : ErrorCode

pub data ConflictKind : Type 0 where
  accessibility ancestor_overlap base_not_ancestor delete_edit : ConflictKind
  machine policy same_path semantics : ConflictKind

pub data ProposalStatus : Type 0 where
  committed pending stale : ProposalStatus

pub data EventType : Type 0 where
  approval_recorded comment_added presence_changed proposal_created : EventType
  revision_committed revision_published : EventType

pub record ActorContext : Type 0 where
  pub actor_id : Text
  pub actor_type : ActorType
  pub capabilities : List Capability
  pub tenant_id : Text

pub record PatchOperation : Type 0 where
  pub from : Option Text
  pub op : PatchOperationType
  pub path : Text
  pub value : Option JsonValue

pub record Diagnostic : Type 0 where
  pub code : ErrorCode
  pub message_key : Text
  pub path : Option Text

pub record Conflict : Type 0 where
  pub base_revision : Text
  pub current_path : Text
  pub current_revision : Text
  pub kind : ConflictKind
  pub proposal_path : Text

pub record Revision : Type 0 where
  pub actor_id : Text
  pub actor_type : ActorType
  pub branch_id : Text
  pub changed_paths : List Text
  pub committed_at : ℕ
  pub compensates_revision : Option Text
  pub correlation_id : Text
  pub document : JsonObject
  pub parent_revision : Option Text
  pub proposal_id : Option Text
  pub removed_paths : List Text
  pub revision : Text
  pub sequence : ℕ
  pub tenant_id : Text

pub record Approval : Type 0 where
  pub actor_id : Text
  pub approved_at : ℕ
  pub revision : Text

pub record Comment : Type 0 where
  pub actor_id : Text
  pub body : Text
  pub comment_id : Text
  pub created_at : ℕ

pub record Proposal : Type 0 where
  pub approvals : List Approval
  pub author_id : Text
  pub base_revision : Text
  pub branch_id : Text
  pub candidate_revision : Text
  pub comments : List Comment
  pub created_at : ℕ
  pub expires_at : Option ℕ
  pub proposal_id : Text
  pub rebased : Bool
  pub status : ProposalStatus

pub record BranchPolicy : Type 0 where
  pub approval_ttl_ms : ℕ
  pub is_protected : Bool
  pub required_approvals : ℕ
  pub reviewer_ids : List Text
  pub separate_author_and_reviewer : Bool

pub record Branch : Type 0 where
  pub branch_id : Text
  pub head_revision : Text
  pub policy : BranchPolicy
  pub published_revision : Option Text

pub record Presence : Type 0 where
  pub actor_id : Text
  pub actor_type : ActorType
  pub branch_id : Text
  pub cursor : Option JsonObject
  pub draft : Bool
  pub expires_at : ℕ
  pub selected_id : Option Text
  pub tenant_id : Text

pub record Event : Type 0 where
  pub actor_id : Text
  pub branch_id : Option Text
  pub correlation_id : Text
  pub occurred_at : ℕ
  pub payload : JsonObject
  pub sequence : ℕ
  pub tenant_id : Text
  pub type : EventType

pub record EventBatch : Type 0 where
  pub latest_sequence : ℕ
  pub messages : List Event
  pub oldest_available_sequence : ℕ

pub data Value : Type 0 where
  revision_value : Revision → Value
  proposal_value : Proposal → Value
  presence_value : Presence → Value
  published_value : Text → Text → Value

pub record CollaborationResult {ℓ} (A : Type ℓ) : Type ℓ where
  pub conflicts : List Conflict
  pub diagnostics : List Diagnostic
  pub status : Status
  pub value : Option A

abbrev pub Result : Type 0
Result = CollaborationResult Value
