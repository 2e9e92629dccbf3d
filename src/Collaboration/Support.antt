-- ===== src/Collaboration/Support.antt =====
-- packages/collaboration/src/reference-support.ts: results, and the check of a branch policy.
-- Cloning and freezing are the identity on immutable values.
use unifold.Prelude.{
  Bool, true, false, not, ◌&&◌, ◌||◌, Option, none, some, [], ◌∷◌, ltb, leb, nat_same,
  if◌then◌else◌, nat_eq, length, Text, text, text_eq, unique,
}
use unifold.Collaboration.Types.{Result, Value, Diagnostic, Status, ErrorCode, BranchPolicy}

unfoldable pub diagnostic : ErrorCode → Text → Option Text → Diagnostic
diagnostic code message_key path = record { code = code; message_key = message_key; path = path }

failure : Status → ErrorCode → Text → Option Text → Result
unfolding diagnostic
failure status code message_key path = record {
  conflicts = [];
  diagnostics = diagnostic code message_key path ∷ [];
  status = status;
  value = none;
}

unfoldable pub invalid : ErrorCode → Text → Option Text → Result
unfolding failure
invalid = failure Status.invalid

unfoldable pub denied : ErrorCode → Result
unfolding failure
denied code = failure Status.denied code (text "collaboration.request.denied") none

unfoldable pub conflict : ErrorCode → Text → Option Text → Result
unfolding failure
conflict = failure Status.conflict

unfoldable pub not_found : ErrorCode → Result
unfolding failure
not_found code = failure Status.not_found code (text "collaboration.resource.notFound") none

unfoldable pub accepted : Value → Result
accepted v = record { conflicts = []; diagnostics = []; status = Status.accepted; value = some v }

unfoldable pub review_required : Value → Result
review_required v = record {
  conflicts = [];
  diagnostics = [];
  status = Status.review_required;
  value = some v;
}

unfoldable pub replayed : Result → Result
replayed r = record r { status = Status.replayed }

abbrev pub default_branch_policy : BranchPolicy
default_branch_policy = record {
  approval_ttl_ms = 86400000;
  is_protected = false;
  required_approvals = 0;
  reviewer_ids = [];
  separate_author_and_reviewer = true;
}

pub valid_policy : BranchPolicy → Bool
valid_policy p =
    leb 60000 p.approval_ttl_ms
    && leb p.approval_ttl_ms 2592000000
    && leb p.required_approvals 16
    && (not p.is_protected || ltb 0 p.required_approvals)
    && leb (length p.reviewer_ids) 64
    && nat_same (length (unique p.reviewer_ids)) (length p.reviewer_ids)

or_default : Option BranchPolicy → BranchPolicy
or_default none = default_branch_policy
or_default (some p) = p

-- It throws a RangeError on a policy that is not valid.
unfoldable pub normalize_branch_policy : Option BranchPolicy → Option BranchPolicy
unfolding valid_policy or_default
normalize_branch_policy value =
    if valid_policy (or_default value) then some (or_default value) else none
