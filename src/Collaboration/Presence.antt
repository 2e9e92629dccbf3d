-- ===== src/Collaboration/Presence.antt =====
-- packages/collaboration/src/presence.ts: who is looking at a branch. Entries expire.
use unifold.Prelude.{
  ℕ, ◌+◌, Bool, true, false, ◌&&◌, none, some, List, [], ◌∷◌, ◌++◌, ltb, if◌then◌else◌, ◌==◌,
  nat_eq, keep, Text, text_eq, Map, get, put, delete,
}
use unifold.Collaboration.Types.{ActorContext, Presence}
use unifold.Collaboration.Requests.{PresenceRequest}
pub mod Laws
mod Tests

unfoldable pub presence_key : Text → Text → Text → Text
presence_key tenant_id branch_id actor_id = tenant_id ++ 0 ∷ branch_id ++ 0 ∷ actor_id

abbrev pub is_live : ℕ → Presence → Bool
is_live now_ms p = ltb now_ms p.expires_at

-- `sweep`: the entries left, and how many were removed.
unfoldable pub sweep : ℕ → Map Text Presence → Map Text Presence × ℕ
sweep now_ms [] = ([], 0)
sweep now_ms ((k, p) ∷ rest) =
    let (left, removed) = sweep now_ms rest in
    if is_live now_ms p then ((k, p) ∷ left, removed) else (left, removed + 1)

presence_of : PresenceRequest → ActorContext → ℕ → Presence
presence_of request actor now_ms = record {
  actor_id = actor.actor_id;
  actor_type = actor.actor_type;
  branch_id = request.branch_id;
  cursor = request.cursor;
  draft = request.draft;
  expires_at = now_ms + request.expires_in_ms;
  selected_id = request.selected_id;
  tenant_id = actor.tenant_id;
}

unfoldable pub update :
    PresenceRequest → ActorContext → ℕ → Map Text Presence → Presence × Map Text Presence
unfolding presence_of presence_key sweep
update request actor now_ms entries =
    let presence = presence_of request actor now_ms in
    (
      presence,
      put (presence_key actor.tenant_id request.branch_id actor.actor_id) presence
          (sweep now_ms entries).0,
    )

unfoldable pub values : Map Text Presence → List Presence
values [] = []
values ((k, p) ∷ rest) = p ∷ values rest

unfoldable pub snapshot : Text → Text → ℕ → Map Text Presence → List Presence × Map Text Presence
unfolding sweep values
snapshot tenant_id branch_id now_ms entries =
    let left = (sweep now_ms entries).0 in
    (
      keep (λ (p : Presence). p.tenant_id == tenant_id && p.branch_id == branch_id) (values left),
      left,
    )

unfoldable pub remove : Text → Text → Text → Map Text Presence → Bool × Map Text Presence
unfolding presence_key
remove tenant_id branch_id actor_id entries =
    let key = presence_key tenant_id branch_id actor_id in
    (elim (get key entries) [ none ↦ false | some p ↦ true ], delete key entries)
