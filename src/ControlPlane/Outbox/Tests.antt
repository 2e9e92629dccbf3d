-- ===== src/ControlPlane/Outbox/Tests.antt =====
-- An outbox with one message, and two workers.
use unifold.Prelude.{
  Member, inl, inr, is_space, ℕ, ◌≤◌, ◌≡◌, refl, ◌≢◌, ◌⊎◌, none, some, List, [], ◌∷◌, arith, nat_eq,
  length, All, text, text_eq, Map, get, put,
}
use unifold.Contracts.Json.{end}
use unifold.ControlPlane.Outbox.{
  Message, OutboxMessage, MessageType, Delivery, Outbox, Entry, LeaseCommand, AcknowledgeCommand,
  lease, valid_lease, valid_identity, valid_limit, chosen, can_lease, values, bounded_limit,
  acquired, acquire_all, entry_of,
}
use unifold.ControlPlane.Outbox.{
  new_outbox, publish, message_of, resume, batch, oldest_available, is_realtime_gap,
}
use unifold.ControlPlane.Outbox.Resume.{publish_all, resume-IsDelivered}
use unifold.ControlPlane.Outbox.Laws.{IsValid}
use unifold.ControlPlane.Outbox.Leases.{IsLeased, lease-IsLeased, lease-keeps-leased}
use unifold.ControlPlane.Outbox.Retention.{
  publishing, acknowledging, run, run-IsValid, run-IsPending, IsPending, Acknowledges,
}

abbrev value : OutboxMessage
value = record {
  correlation_id = text "c";
  occurred_at = 5;
  payload = end;
  tenant_id = text "tenant";
  type = MessageType.document_committed;
}

abbrev message_at : ℕ → Message
message_at sequence = record {
  correlation_id = text "c";
  occurred_at = 5;
  payload = end;
  sequence = sequence;
  tenant_id = text "tenant";
  type = MessageType.document_committed;
}

abbrev waiting : ℕ → Delivery
waiting sequence = record {
  attempts = 0;
  available_at = 5;
  lease_owner = none;
  lease_until = none;
  message = message_at sequence;
}

-- The first message is leased to a worker until 20.
abbrev held : Delivery
held = record (waiting 1) { attempts = 1; lease_owner = some (text "w1"); lease_until = some 20 }

abbrev holding : Map ℕ Delivery → List Message → ℕ → Outbox
holding deliveries messages next_sequence = record {
  deliveries = deliveries;
  messages = messages;
  next_sequence = next_sequence;
  retention = 2;
}

abbrev two : Outbox
two = holding ((1, held) ∷ (2, waiting 2) ∷ []) (message_at 1 ∷ message_at 2 ∷ []) 3

two-IsValid : IsValid two
unfolding get
two-IsValid = record {
  keyed = (refl, refl, (refl, refl, tt));
  below = (omega arith, (omega arith, tt));
}

abbrev ask : LeaseCommand
ask = record {
  lease_until = 40;
  leased_at = 10;
  limit = 5;
  tenant_id = text "tenant";
  worker_id = text "w2";
}

abbrev given : List Entry
given = record { attempts = 1; message = message_at 2 } ∷ []

abbrev after_ask : Outbox
after_ask = record two { deliveries = (1, held) ∷ (2, acquired ask (waiting 2)) ∷ [] }

ask_lem : lease ask two ≡ some (given, after_ask)
unfolding lease valid_lease valid_identity valid_limit chosen can_lease values bounded_limit
    acquired acquire_all entry_of put is_space
ask_lem = refl

lease-IsLeased_example : (length given ≤ 5) × All (IsLeased ask after_ask) given
lease-IsLeased_example = lease-IsLeased ask two after_ask given two-IsValid ask_lem

lease-keeps-leased_example :
    (get 1 after_ask.deliveries ≡ some held) × All (λ (e : Entry). e.message.sequence ≢ 1) given
unfolding get
lease-keeps-leased_example =
    lease-keeps-leased ask two after_ask given 1 20 held two-IsValid ask_lem refl refl (omega arith)

run-IsValid_example : IsValid (run (publishing value) two)
run-IsValid_example = run-IsValid (publishing value) two two-IsValid

abbrev done : AcknowledgeCommand
done = record {
  acknowledged_at = 15;
  sequences = 1 ∷ [];
  tenant_id = text "tenant";
  worker_id = text "w1";
}

run-IsPending_example :
    IsPending 1 (message_at 1) (run (acknowledging done) two).deliveries
    ⊎ Acknowledges 1 held (acknowledging done)
unfolding get
run-IsPending_example = run-IsPending (acknowledging done) two 1 held two-IsValid refl

resumed : resume 1 (publish_all (value ∷ value ∷ []) (new_outbox 2)) ≡ batch 2 (message_at 2 ∷ []) 1
unfolding resume publish new_outbox message_of oldest_available is_realtime_gap
resumed = refl

resume-IsDelivered_example : Member (message_at 2) (message_at 2 ∷ [])
resume-IsDelivered_example =
    resume-IsDelivered 2 value (value ∷ []) 1 2 1 (message_at 2 ∷ []) (message_at 2) (omega arith)
      resumed (inr (inl refl)) (omega arith)
