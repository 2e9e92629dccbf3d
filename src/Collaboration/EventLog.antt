-- ===== src/Collaboration/EventLog.antt =====
-- packages/collaboration/src/event-log.ts: the bounded log of collaboration events.
use unifold.Prelude.{
  ℕ, suc, ◌+◌, ◌-◌, ◌&&◌, Option, none, some, List, [], ◌∷◌, ◌++◌, ltb, leb, if◌then◌else◌, ◌==◌,
  nat_eq, length, keep, Text, text, text_eq,
}
use unifold.Contracts.Json.{JsonObject}
use unifold.Collaboration.Types.{
  ActorContext, Event, EventType, EventBatch, CollaborationResult, Status, ErrorCode,
}
pub mod Laws
mod Resume
mod Tests

pub record EventInput : Type 0 where
  pub actor : ActorContext
  pub branch_id : Option Text
  pub correlation_id : Text
  pub occurred_at : ℕ
  pub payload : JsonObject
  pub type : EventType

pub record EventLog : Type 0 where
  pub capacity : ℕ
  pub events : List Event
  pub latest_sequence : ℕ

-- The default of the constructor's parameter.
unfoldable pub capacity_or_default : Option ℕ → ℕ
capacity_or_default none = 1000
capacity_or_default (some capacity) = capacity

-- The constructor throws a RangeError on a capacity outside 10 to 10,000.
unfoldable pub new : ℕ → Option EventLog
new capacity =
    if leb 10 capacity && leb capacity 10000
    then some (record { capacity = capacity; events = []; latest_sequence = 0 })
    else none

pub event_of : EventInput → ℕ → Event
event_of input sequence = record {
  actor_id = input.actor.actor_id;
  branch_id = input.branch_id;
  correlation_id = input.correlation_id;
  occurred_at = input.occurred_at;
  payload = input.payload;
  sequence = sequence;
  tenant_id = input.actor.tenant_id;
  type = input.type;
}

-- `shift()`.
shift : List Event → List Event
shift [] = []
shift (e ∷ es) = es

unfoldable pub append : EventInput → EventLog → EventLog
unfolding event_of shift
append input log =
    let latest = suc log.latest_sequence in
    let events = log.events ++ event_of input latest ∷ [] in
    record log {
      events = if ltb log.capacity (length events) then shift events else events;
      latest_sequence = latest;
    }

oldest_of : List Event → ℕ → ℕ
oldest_of [] latest = latest + 1
oldest_of (e ∷ es) latest = e.sequence

pub oldest_available_sequence : EventLog → ℕ
unfolding oldest_of
oldest_available_sequence log = oldest_of log.events log.latest_sequence

pub gap : ℕ → ℕ → CollaborationResult EventBatch
gap oldest latest = record {
  conflicts = [];
  diagnostics =
      record {
        code = ErrorCode.realtime_gap;
        message_key = text "collaboration.realtime.gap";
        path = none;
      }
      ∷ [];
  status = Status.gap;
  value =
      some (record { latest_sequence = latest; messages = []; oldest_available_sequence = oldest });
}

-- The source compares with `oldest - 1`, which is not negative, since sequences start at 1.
unfoldable pub resume : Text → ℕ → EventLog → CollaborationResult EventBatch
unfolding gap oldest_available_sequence
resume tenant_id after_sequence log =
    let oldest = oldest_available_sequence log in
    if ltb after_sequence (oldest - 1) then gap oldest log.latest_sequence else record {
      conflicts = [];
      diagnostics = [];
      status = Status.accepted;
      value = some (record {
        latest_sequence = log.latest_sequence;
        messages =
            keep (λ (e : Event). e.tenant_id == tenant_id && ltb after_sequence e.sequence)
              log.events;
        oldest_available_sequence = oldest;
      });
    }
