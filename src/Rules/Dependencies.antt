-- ===== src/Rules/Dependencies.antt =====
-- packages/rules/src/dependencies.ts: what a rule reads and writes, and when two such places overlap.
use unifold.Prelude.{
  ◌≡◌, refl, Bool, true, false, not, ◌&&◌, ◌||◌, List, [], ◌∷◌, ◌++◌, arith, nat_same,
  if◌then◌else◌, Eq, ◌==◌, nat_eq, ==_iff, ==_refl, Text, text, text_eq,
}
use unifold.Rules.Types.{
  RuleOutput, control_set_disabled, control_set_value, node_patch_property, RuleInput,
  RuleDependency,
}

-- `replaceAll("~", "~0").replaceAll("/", "~1")`
unfoldable pub escaped : Text → Text
escaped [] = []
escaped (c ∷ cs) =
    let rest = escaped cs in
    if nat_same c 126 then 126 ∷ 48 ∷ rest else if nat_same c 47 then 126 ∷ 49 ∷ rest else c ∷ rest

unfoldable pub property_pointer : Text → Text
unfolding escaped
property_pointer property = text "/properties/" ++ escaped property

unfoldable pub input_dependency : RuleInput → RuleDependency
input_dependency input = record { node_id = input.node_id; pointer = input.pointer }

unfoldable pub primary_output_dependency : RuleOutput → RuleDependency
unfolding property_pointer
primary_output_dependency (control_set_disabled id) = record {
  node_id = id;
  pointer = text "/base/disabled";
}
primary_output_dependency (control_set_value id) = record {
  node_id = id;
  pointer = text "/control/value";
}
primary_output_dependency (node_patch_property id property) = record {
  node_id = id;
  pointer = property_pointer property;
}

abbrev control_of : Text → RuleDependency
control_of id = record { node_id = id; pointer = text "/control" }

unfoldable pub output_dependencies : RuleOutput → List RuleDependency
unfolding primary_output_dependency
output_dependencies (control_set_disabled id) =
    primary_output_dependency (control_set_disabled id) ∷ control_of id ∷ []
output_dependencies (control_set_value id) = control_of id ∷ []
output_dependencies (node_patch_property id property) =
    primary_output_dependency (node_patch_property id property) ∷ []

-- `startsWith`
unfoldable pub starts_with : Text → Text → Bool
starts_with [] child = true
starts_with (c ∷ cs) [] = false
starts_with (c ∷ cs) (d ∷ ds) = nat_same c d && starts_with cs ds

unfoldable pub is_pointer_parent : Text → Text → Bool
unfolding starts_with
is_pointer_parent parent child = starts_with (parent ++ 47 ∷ []) child

unfoldable pub pointers_overlap : Text → Text → Bool
unfolding is_pointer_parent
pointers_overlap left right =
    if left == right then true else is_pointer_parent left right || is_pointer_parent right left

unfoldable pub dependencies_overlap : RuleDependency → RuleDependency → Bool
unfolding pointers_overlap
dependencies_overlap left right =
    if not (left.node_id == right.node_id)
    then false
    else pointers_overlap left.pointer right.pointer

-- A dependency as the key of a map; `JSON.stringify` gives different texts for different pairs.
abbrev pub DependencyKey : Type 0
DependencyKey = Text × Text

unfoldable pub dependency_key : RuleDependency → DependencyKey
dependency_key d = (d.node_id, d.pointer)

instance abbrev pub key_eq : Eq DependencyKey
key_eq = record {
  same = λ a b. a.0 == b.0 && a.1 == b.1;
  same_iff = λ a b. (λ h. pair a b h, λ h. rw h (ground (arith, ==_refl b.0, ==_refl b.1)));
}
  where
    pair : (a b : DependencyKey) → (a.0 == b.0 && a.1 == b.1) ≡ true → a ≡ b
    pair (x, y) (z, w) h =
        let e : x ≡ z = ground (arith, ==_iff x z) in
        let f : y ≡ w = ground (arith, ==_iff y w) in rw (e, f) refl
