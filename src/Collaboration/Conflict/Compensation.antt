-- ===== src/Collaboration/Conflict/Compensation.antt =====
-- Conflicts with the revisions that `compensationCandidate` of
-- packages/collaboration/src/revision-operations.ts makes, whose changed path is "/".
use unifold.Prelude.{◌≡◌, refl, ◌≢◌, ap, false, none, some, List, [], ◌∷◌, All, All-map, Text, text}
use unifold.Collaboration.Types.{ActorContext, PatchOperation, Revision}
use unifold.Contracts.Json.{JsonObject}
use unifold.Collaboration.Requests.{Env, UndoRequest}
use unifold.Collaboration.State.{State, Identity, commit}
use unifold.Collaboration.Revisions.{compensation_candidate}
use unifold.Collaboration.Pointer.{pointers_overlap, decode_pointer}
use unifold.Collaboration.Pointer.Overlap.{pointers_overlap-apart}
use unifold.Collaboration.Conflict.{conflict_footprints, collaboration_conflicts}
use unifold.Collaboration.Conflict.Disjoint.{Disjoint, collaboration_conflicts-eq_nil}

-- The pointer leads to a member with a name.
abbrev pub IsNamed : Text → Type 0
IsNamed path = (t : Text) × (ts : List Text) × (decode_pointer path ≡ some (t ∷ ts)) × (t ≢ [])

decode_slash : decode_pointer (text "/") ≡ some ([] ∷ [])
unfolding decode_pointer
decode_slash = refl

named_apart : (path : Text) → IsNamed path → pointers_overlap path (text "/") ≡ false
named_apart path (t, ts, e, h) = pointers_overlap-apart path (text "/") t [] ts [] e decode_slash h

Disjoint-slash :
    (operations : List PatchOperation) (intervening : List Revision)
    → All (λ operation. All IsNamed (conflict_footprints operation)) operations
    → All (λ (revision : Revision). revision.changed_paths ≡ text "/" ∷ []) intervening
    → Disjoint operations intervening
Disjoint-slash [] intervening named whole = tt
Disjoint-slash (o ∷ os) intervening named whole = (
  All-map (λ (r : Revision) e. rw e (All-map named_apart (conflict_footprints o) named.0, tt))
      intervening whole,
  Disjoint-slash os intervening named.1 whole,
)

-- The revision is what the commit of an undo makes on some state.
abbrev pub IsCompensation : Env → Revision → Type 0
IsCompensation env revision =
    (request : UndoRequest) × (actor : ActorContext) × (target : Text) × (identity : Identity)
    × (document : JsonObject) × (s : State) × (revision
        ≡ (commit env (compensation_candidate request actor target identity document) none
            (some target) s).0)

compensation_paths :
    (env : Env) (revision : Revision)
    → IsCompensation env revision
    → revision.changed_paths ≡ text "/" ∷ []
unfolding commit compensation_candidate
compensation_paths env revision (request, actor, target, identity, document, s, e) =
    ap (λ (r : Revision). r.changed_paths) e

-- Revisions that the commits of undos make, with whatever document, conflict with no proposal whose
-- paths start with a name.
pub slash_unseen :
    (env : Env) (base current : Text) (operations : List PatchOperation)
    (intervening : List Revision)
    → All (λ operation. All IsNamed (conflict_footprints operation)) operations
    → All (IsCompensation env) intervening
    → collaboration_conflicts base current operations intervening ≡ []
slash_unseen env base current operations intervening named undone =
    (collaboration_conflicts-eq_nil base current operations intervening).1 (
      Disjoint-slash operations intervening named
        (All-map (compensation_paths env) intervening undone))
