-- ===== src/Contracts/Json.antt =====
-- packages/contracts/src/json.ts: JSON values. A number is kept as its literal, since no code that is
-- modelled here computes with one.
use unifold.Prelude.{
  ◌≡◌, refl, Bool, Option, none, some, Text, text_eq, ◌==◌, ==_iff, if◌then◌else◌, arith,
}

mutual
  pub data JsonValue : Type 0 where
    null : JsonValue
    boolean : Bool → JsonValue
    number : Text → JsonValue
    string : Text → JsonValue
    array : JsonItems → JsonValue
    object : JsonObject → JsonValue

  pub data JsonItems : Type 0 where
    nil : JsonItems
    cons : JsonValue → JsonItems → JsonItems

  pub data JsonObject : Type 0 where
    end : JsonObject
    field : Text → JsonValue → JsonObject → JsonObject

-- `{ ...document, key: value }` and `Reflect.set(document, key, value)`.
unfoldable pub set_field : Text → JsonValue → JsonObject → JsonObject
set_field k v end = field k v end
set_field k v (field j w rest) = if j == k then field j v rest else field j w (set_field k v rest)

unfoldable pub get_field : Text → JsonObject → Option JsonValue
get_field k end = none
get_field k (field j w rest) = if j == k then some w else get_field k rest

-- A field that was set is read back, and every other field keeps its value.
pub get_field-set_field :
    (k j : Text) (v : JsonValue) (d : JsonObject)
    → get_field j (set_field k v d) ≡ (if k == j then some v else get_field j d)
unfolding set_field get_field
get_field-set_field k j v end = refl
get_field-set_field k j v (field i w rest) =
    ground (arith, ==_iff i k, ==_iff i j, ==_iff k j, get_field-set_field k j v rest)
