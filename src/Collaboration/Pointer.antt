-- ===== src/Collaboration/Pointer.antt =====
-- packages/collaboration/src/pointer.ts: JSON pointers, whose text is a list of code units.
use unifold.Prelude.{
  ℕ, zero, suc, Bool, true, false, not, ◌&&◌, ◌||◌, Option, none, some, List, [], ◌∷◌, ◌++◌, ltb,
  leb, nat_same, if◌then◌else◌, ◌==◌, nat_eq, length, keep, all, Text, text, text_eq, sort_texts,
  has, unique,
}
use unifold.Collaboration.Types.{
  PatchOperation, PatchOperationType, add, copy, move, remove, replace, test,
}
pub mod Escapes
pub mod Owned
pub mod Overlap
mod Tests

abbrev pub tilde : ℕ
tilde = b'~'

abbrev pub slash : ℕ
slash = b'/'

abbrev unsafe_tokens : List Text
unsafe_tokens = text "__proto__" ∷ text "constructor" ∷ text "prototype" ∷ []

-- `replaceAll("~c", r)`, for one code unit `c` after the tilde.
pub unescape : ℕ → ℕ → Text → Text
unescape c r [] = []
unescape c r (a ∷ []) = a ∷ []
unescape c r (a ∷ b ∷ rest) =
    let replaced = r ∷ unescape c r rest in
    let kept = a ∷ unescape c r (b ∷ rest) in
    if nat_same a tilde && nat_same b c then replaced else kept

-- `replaceAll(c, "~d")`.
pub escape : ℕ → ℕ → Text → Text
escape c d [] = []
escape c d (a ∷ rest) =
    let escaped = escape c d rest in if nat_same a c then tilde ∷ d ∷ escaped else a ∷ escaped

-- The test `/~(?:[^01]|$)/u`: a tilde that no `0` or `1` follows.
pub bad_escape : Text → Bool
bad_escape [] = false
bad_escape (a ∷ []) = nat_same a tilde
bad_escape (a ∷ b ∷ rest) =
    (nat_same a tilde && not (nat_same b b'0' || nat_same b b'1')) || bad_escape (b ∷ rest)

pub decode_token : Text → Option Text
unfolding unescape bad_escape
decode_token token =
    if bad_escape token then none else some (unescape b'0' tilde (unescape b'1' slash token))

pub encode_token : Text → Text
unfolding escape
encode_token token = escape slash b'1' (escape tilde b'0' token)

-- `split("/")`: the token under way, and the ones after it.
split_from : Text → Text → List Text
split_from token [] = token ∷ []
split_from token (c ∷ rest) =
    let closed = token ∷ split_from [] rest in
    let longer = split_from (token ++ c ∷ []) rest in if nat_same c slash then closed else longer

pub split : Text → List Text
unfolding split_from
split = split_from []

-- `tokens.map(decodeToken)`, undefined if one is.
pub decode_all : List Text → Option (List Text)
decode_all [] = some []
decode_all (t ∷ ts) = elim (decode_token t) [
  | none ↦ none
  | some d ↦ elim (decode_all ts) [ none ↦ none | some ds ↦ some (d ∷ ds) ]
]

decode_tokens : List Text → Option (List Text)
unfolding decode_all decode_token
decode_tokens encoded = if ltb 64 (length encoded) then none else decode_all encoded

valid_pointer_text : Text → Bool
valid_pointer_text [] = false
valid_pointer_text (c ∷ rest) = leb (length (c ∷ rest)) 1024 && nat_same c slash

-- `path.slice(1)`.
slice_one : Text → Text
slice_one [] = []
slice_one (c ∷ rest) = rest

unfoldable pub decode_pointer : Text → Option (List Text)
unfolding decode_tokens valid_pointer_text slice_one split
decode_pointer path =
    if valid_pointer_text path then decode_tokens (split (slice_one path)) else none

pub is_safe_patch_pointer : Text → Bool
is_safe_patch_pointer path = elim (decode_pointer path) [
  | none ↦ false
  | some tokens ↦ all (λ token. not (has token unsafe_tokens)) tokens
]

unfoldable pub operation_paths : PatchOperation → List Text
operation_paths operation = elim operation.from [
  | none ↦ operation.path ∷ []
  | some from ↦ operation.path ∷ from ∷ []
]

is_change : PatchOperation → Bool
is_change operation = elim operation.op [ test ↦ false | _ ↦ true ]

flat_paths : List PatchOperation → List Text
unfolding operation_paths
flat_paths [] = []
flat_paths (o ∷ os) = operation_paths o ++ flat_paths os

unfoldable pub changed_paths : List PatchOperation → List Text
unfolding is_change flat_paths
changed_paths operations = sort_texts (unique (flat_paths (keep is_change operations)))

-- `tokens.at(-1)`.
pub last : List Text → Option Text
last [] = none
last (t ∷ []) = some t
last (t ∷ u ∷ ts) = last (u ∷ ts)

ends_in_id : Option Text → Bool
ends_in_id none = false
ends_in_id (some t) = t == text "id"

unfoldable pub targets_framework_owned_identity : Text → Bool
unfolding last ends_in_id
targets_framework_owned_identity path = elim (decode_pointer path) [
  | none ↦ true
  | some tokens ↦ path == text "/revision" || ends_in_id (last tokens)
]

-- `slice(0, shared).every((token, index) => token === rightTokens[index])`
pub agree : ℕ → List Text → List Text → Bool
agree zero ls rs = true
agree (suc n) [] rs = true
agree (suc n) (l ∷ ls) [] = false
agree (suc n) (l ∷ ls) (r ∷ rs) = l == r && agree n ls rs

min_length : ℕ → ℕ → ℕ
min_length a b = if leb a b then a else b

tokens_overlap : Option (List Text) → Option (List Text) → Bool
unfolding agree min_length
tokens_overlap none right = true
tokens_overlap (some ls) none = true
tokens_overlap (some ls) (some rs) = agree (min_length (length ls) (length rs)) ls rs

unfoldable pub pointers_overlap : Text → Text → Bool
unfolding tokens_overlap
pointers_overlap left right = tokens_overlap (decode_pointer left) (decode_pointer right)

is_digit : ℕ → Bool
is_digit c = leb b'0' c && leb c b'9'

-- `value === "-" || /^\d+$/u.test(value ?? "")`
is_array_index : Option Text → Bool
unfolding is_digit
is_array_index none = false
is_array_index (some []) = false
is_array_index (some (c ∷ cs)) = (c ∷ cs) == text "-" || all is_digit (c ∷ cs)

pub init : List Text → List Text
init [] = []
init (t ∷ []) = []
init (t ∷ u ∷ ts) = t ∷ init (u ∷ ts)

-- `join("/")` of the encoded tokens.
pub join : List Text → Text
join [] = []
join (t ∷ []) = encode_token t
join (t ∷ u ∷ ts) = encode_token t ++ slash ∷ join (u ∷ ts)

unfoldable pub array_parent : Text → Option Text
unfolding is_array_index init join last encode_token
array_parent path = elim (decode_pointer path) [
  | none ↦ some path
  | some tokens ↦ if is_array_index (last tokens) then some (slash ∷ join (init tokens)) else none
]
