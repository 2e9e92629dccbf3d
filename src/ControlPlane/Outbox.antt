-- ===== src/ControlPlane/Outbox.antt =====
-- packages/control-plane/src/reference-outbox.ts and outbox-policy.ts: the outbox, whose messages
-- workers lease, acknowledge and release. Its types are those of types.ts and ports.ts. An instant is
-- its number of milliseconds; a command that the policy rejects throws, which is `none`.
use unifold.Prelude.{
  ℕ, suc, ◌-◌, Bool, true, false, not, ◌&&◌, Option, none, some, List, [], ◌∷◌, ◌++◌, map, ltb, leb,
  nat_same, if◌then◌else◌, ◌==◌, nat_eq, length, take, keep, all, Text, text_eq, is_space, Map, get,
  put, delete, unique,
}
use unifold.Contracts.Json.{JsonObject}
pub mod Laws
pub mod Leases
pub mod Retention
mod Resume
mod Tests

pub data MessageType : Type 0 where
  document_committed effect_completed tenant_restored : MessageType

pub record Message : Type 0 where
  pub correlation_id : Text
  pub occurred_at : ℕ
  pub payload : JsonObject
  pub sequence : ℕ
  pub tenant_id : Text
  pub type : MessageType

pub record OutboxMessage : Type 0 where
  pub correlation_id : Text
  pub occurred_at : ℕ
  pub payload : JsonObject
  pub tenant_id : Text
  pub type : MessageType

pub record Delivery : Type 0 where
  pub attempts : ℕ
  pub available_at : ℕ
  pub lease_owner : Option Text
  pub lease_until : Option ℕ
  pub message : Message

pub record Outbox : Type 0 where
  pub deliveries : Map ℕ Delivery
  pub messages : List Message
  pub next_sequence : ℕ
  pub retention : ℕ

pub record Entry : Type 0 where
  pub attempts : ℕ
  pub message : Message

pub record LeaseCommand : Type 0 where
  pub lease_until : ℕ
  pub leased_at : ℕ
  pub limit : ℕ
  pub tenant_id : Text
  pub worker_id : Text

pub record AcknowledgeCommand : Type 0 where
  pub acknowledged_at : ℕ
  pub sequences : List ℕ
  pub tenant_id : Text
  pub worker_id : Text

pub record ReleaseCommand : Type 0 where
  pub available_at : ℕ
  pub sequences : List ℕ
  pub tenant_id : Text
  pub worker_id : Text

-- `value.trim() === value`: neither end is white space.
untrimmed : Text → Bool
untrimmed [] = true
untrimmed (c ∷ []) = not (is_space c)
untrimmed (c ∷ d ∷ rest) = not (is_space c) && ends_plain (d ∷ rest)
  where
    ends_plain : Text → Bool
    ends_plain [] = true
    ends_plain (c ∷ []) = not (is_space c)
    ends_plain (c ∷ d ∷ rest) = ends_plain (d ∷ rest)

unfoldable pub valid_identity : Text → Bool
unfolding untrimmed
valid_identity value = ltb 0 (length value) && leb (length value) 256 && untrimmed value

abbrev max_safe_integer : ℕ
max_safe_integer = 9007199254740991

unfoldable pub valid_limit : ℕ → Bool
valid_limit value = leb value max_safe_integer && leb 1 value && leb value 100

unfoldable pub valid_sequence : ℕ → Bool
valid_sequence value = leb value max_safe_integer && ltb 0 value

unfoldable pub valid_lease : LeaseCommand → Bool
unfolding valid_identity valid_limit
valid_lease command =
    valid_identity command.tenant_id
    && valid_identity command.worker_id
    && ltb command.leased_at command.lease_until
    && valid_limit command.limit

-- `requireMutationBase`
unfoldable pub valid_mutation : Text → Text → List ℕ → Bool
unfolding valid_identity valid_sequence
valid_mutation tenant_id worker_id sequences =
    valid_identity tenant_id
    && valid_identity worker_id
    && leb 1 (length sequences)
    && leb (length sequences) 100
    && all valid_sequence sequences
    && nat_same (length (unique sequences)) (length sequences)

unfoldable pub new_outbox : ℕ → Outbox
new_outbox retention = record {
  deliveries = [];
  messages = [];
  next_sequence = 1;
  retention = retention;
}

-- `shift()`
unfoldable pub shift : List Message → List Message
shift [] = []
shift (m ∷ ms) = ms

unfoldable pub message_of : OutboxMessage → ℕ → Message
message_of value sequence = record {
  correlation_id = value.correlation_id;
  occurred_at = value.occurred_at;
  payload = value.payload;
  sequence = sequence;
  tenant_id = value.tenant_id;
  type = value.type;
}

unfoldable pub publish : OutboxMessage → Outbox → Outbox
unfolding shift message_of
publish value outbox =
    let message = message_of value outbox.next_sequence in
    let messages = outbox.messages ++ message ∷ [] in
    record {
      deliveries =
          put message.sequence
            (record {
              attempts = 0;
              available_at = message.occurred_at;
              lease_owner = none;
              lease_until = none;
              message = message;
            })
            outbox.deliveries;
      messages = if ltb outbox.retention (length messages) then shift messages else messages;
      next_sequence = suc outbox.next_sequence;
      retention = outbox.retention;
    }

-- What `resume` answers; the message key of a failure is determined by its code.
pub data Resumed : Type 0 where
  realtime_gap : Resumed
  batch : ℕ → List Message → ℕ → Resumed

unfoldable pub oldest_available : List Message → ℕ → ℕ
oldest_available [] next_sequence = next_sequence
oldest_available (m ∷ ms) next_sequence = m.sequence

-- `realtimeGap`, where the oldest sequence is not 0.
unfoldable pub is_realtime_gap : ℕ → ℕ → ℕ → Bool
is_realtime_gap message_count after_sequence oldest =
    ltb 0 message_count && ltb after_sequence (oldest - 1)

unfoldable pub resume : ℕ → Outbox → Resumed
unfolding oldest_available is_realtime_gap
resume after_sequence outbox =
    let oldest = oldest_available outbox.messages outbox.next_sequence in
    if is_realtime_gap (length outbox.messages) after_sequence oldest
    then realtime_gap
    else batch (outbox.next_sequence - 1)
        (keep (λ (m : Message). ltb after_sequence m.sequence) outbox.messages) oldest

lease_over : Option ℕ → ℕ → Bool
lease_over none leased_at = true
lease_over (some lease_until) leased_at = leb lease_until leased_at

unfoldable pub can_lease : LeaseCommand → Delivery → Bool
unfolding lease_over
can_lease command item =
    if ltb command.leased_at item.available_at
    then false
    else lease_over item.lease_until command.leased_at

-- What `acquire` makes of the record.
unfoldable pub acquired : LeaseCommand → Delivery → Delivery
acquired command item = record item {
  attempts = suc item.attempts;
  lease_owner = some command.worker_id;
  lease_until = some command.lease_until;
}

unfoldable pub entry_of : Delivery → Entry
entry_of item = record { attempts = item.attempts; message = item.message }

-- `[...deliveries.values()]`
unfoldable pub values : Map ℕ Delivery → List Delivery
values [] = []
values ((k, d) ∷ rest) = d ∷ values rest

-- `map(acquire)`; a record is the one at its message's sequence.
unfoldable pub acquire_all : LeaseCommand → List Delivery → Map ℕ Delivery → Map ℕ Delivery
unfolding acquired
acquire_all command [] deliveries = deliveries
acquire_all command (item ∷ items) deliveries =
    acquire_all command items (put item.message.sequence (acquired command item) deliveries)

unfoldable pub bounded_limit : ℕ → ℕ
bounded_limit limit = if leb limit 100 then limit else 100

unfoldable pub chosen : LeaseCommand → Outbox → List Delivery
unfolding can_lease values bounded_limit
chosen command outbox =
    take (bounded_limit command.limit) (keep (can_lease command) (values outbox.deliveries))

unfoldable pub lease : LeaseCommand → Outbox → Option (List Entry × Outbox)
unfolding valid_lease chosen acquire_all entry_of acquired
lease command outbox =
    if not (valid_lease command)
    then none
    else let items = chosen command outbox in
      some (
        map (λ item. entry_of (acquired command item)) items,
        record outbox { deliveries = acquire_all command items outbox.deliveries },
      )

same_owner : Option Text → Text → Bool
same_owner none worker_id = false
same_owner (some owner) worker_id = owner == worker_id

in_time : Option ℕ → ℕ → Bool
in_time none at = false
in_time (some lease_until) at = leb at lease_until

unfoldable pub owns_current_lease : Option Delivery → Text → ℕ → Bool
unfolding same_owner in_time
owns_current_lease none worker_id acknowledged_at = false
owns_current_lease (some d) worker_id acknowledged_at =
    in_time d.lease_until acknowledged_at && same_owner d.lease_owner worker_id

-- `acknowledgeOne`
unfoldable pub acknowledge_one : AcknowledgeCommand → ℕ → Map ℕ Delivery → Bool × Map ℕ Delivery
unfolding owns_current_lease
acknowledge_one command sequence deliveries =
    if not (owns_current_lease (get sequence deliveries) command.worker_id command.acknowledged_at)
    then (false, deliveries)
    else (true, delete sequence deliveries)

unfoldable pub freed : ReleaseCommand → Delivery → Delivery
freed command d = record d {
  available_at = command.available_at;
  lease_owner = none;
  lease_until = none;
}

-- `releaseOne`
unfoldable pub release_one : ReleaseCommand → ℕ → Map ℕ Delivery → Bool × Map ℕ Delivery
unfolding same_owner freed
release_one command sequence deliveries = elim (get sequence deliveries) [
  | none ↦ (false, deliveries)
  | some d ↦
      if not (same_owner d.lease_owner command.worker_id)
      then (false, deliveries)
      else (true, put sequence (freed command d) deliveries)
]

-- `sequences.filter(...).length`, where the test changes the deliveries.
unfoldable pub count_steps :
    (ℕ → Map ℕ Delivery → Bool × Map ℕ Delivery) → List ℕ → Map ℕ Delivery → ℕ × Map ℕ Delivery
count_steps step [] deliveries = (0, deliveries)
count_steps step (sequence ∷ rest) deliveries =
    let (done, after) = step sequence deliveries in
    let (count, final) = count_steps step rest after in (if done then suc count else count, final)

unfoldable pub acknowledge : AcknowledgeCommand → Outbox → Option (ℕ × Outbox)
unfolding valid_mutation count_steps acknowledge_one
acknowledge command outbox =
    if not (valid_mutation command.tenant_id command.worker_id command.sequences)
    then none
    else let (count, left) =
        count_steps (acknowledge_one command) command.sequences outbox.deliveries in
      some (count, record outbox { deliveries = left })

unfoldable pub release : ReleaseCommand → Outbox → Option (ℕ × Outbox)
unfolding valid_mutation count_steps release_one
release command outbox =
    if not (valid_mutation command.tenant_id command.worker_id command.sequences)
    then none
    else let (count, left) =
        count_steps (release_one command) command.sequences outbox.deliveries in
      some (count, record outbox { deliveries = left })
