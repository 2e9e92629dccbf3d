-- ===== src/Rules/Evaluator/Closure.antt =====
-- The rules that `affectedRules` of packages/rules/src/evaluator.ts finds.
use unifold.Prelude.{
  ◌≡◌, refl, subst, ◌⊎◌, inl, inr, List, [], ◌∷◌, ◌++◌, Bool-cases, nat_eq, Text, text_eq, Member,
  has_iff, has, Member-append,
}
use unifold.Rules.Evaluator.{add_pending}

member_last : (x y : Text) (t : List Text) → Member x (t ++ y ∷ []) → Member x t ⊎ (y ≡ x)
member_last x y t h = elim ((Member-append x t (y ∷ [])).0 h) [
  | inl m ↦ inl m
  | inr (inl e) ↦ inr e
  | inr (inr bad) ↦ absurd bad
]

last_member : (x : Text) (t : List Text) → Member x (t ++ x ∷ [])
last_member x t = (Member-append x t (x ∷ [])).1 (inr (inl refl))

head_member : (x : Text) (t u : List Text) → Member x t → Member x (t ++ u)
head_member x t u h = (Member-append x t u).1 (inl h)

-- What `add_pending` makes of what is pending and of the target.
pub record Added (ids pending target pending' target' : List Text) : Type 0 where
  pub old : (x : Text) → Member x target → Member x target'
  pub new : (x : Text) → Member x ids → Member x target'
  pub only : (x : Text) → Member x target' → Member x target ⊎ Member x ids
  pub waits : (x : Text) → Member x target' → Member x target ⊎ Member x pending'
  pub keeps : (x : Text) → Member x pending → Member x pending'
  pub sources : (x : Text) → Member x pending' → Member x pending ⊎ Member x ids

pub add_pending-Added :
    (ids pending target : List Text)
    → Added ids pending target (add_pending ids pending target).0 (add_pending ids pending target).1
unfolding add_pending
add_pending-Added [] pending target = record {
  old = λ x h. h;
  new = λ x h. absurd h;
  only = λ x h. inl h;
  waits = λ x h. inl h;
  keeps = λ x h. h;
  sources = λ x h. inl h;
}
add_pending-Added (id ∷ ids) pending target = elim (Bool-cases (has id target)) [
  | inl t ↦
      let there = (has_iff id target).0 t in
      let a = add_pending-Added ids pending target in
      rw (t, add_pending)
        (record {
          old = a.old;
          new = λ x h. elim h [
            | inl e ↦ a.old x (subst (λ y. Member y target) e there)
            | inr m ↦ a.new x m
          ];
          only = λ x h. elim (a.only x h) [ inl m ↦ inl m | inr m ↦ inr (inr m) ];
          waits = a.waits;
          keeps = a.keeps;
          sources = λ x h. elim (a.sources x h) [ inl m ↦ inl m | inr m ↦ inr (inr m) ];
        })
  | inr f ↦
      let a = add_pending-Added ids (pending ++ id ∷ []) (target ++ id ∷ []) in
      rw (f, add_pending)
        (record {
          old = λ x h. a.old x (head_member x target (id ∷ []) h);
          new = λ x h. elim h [
            | inl e ↦ a.old x (subst (λ y. Member y (target ++ id ∷ [])) e (last_member id target))
            | inr m ↦ a.new x m
          ];
          only = λ x h. elim (a.only x h) [
            | inl m ↦ elim (member_last x id target m) [ inl n ↦ inl n | inr e ↦ inr (inl e) ]
            | inr m ↦ inr (inr m)
          ];
          waits = λ x h. elim (a.waits x h) [
            | inl m ↦ elim (member_last x id target m) [
              | inl n ↦ inl n
              | inr e ↦ inr (
                  a.keeps x (subst (λ y. Member y (pending ++ id ∷ [])) e (last_member id pending)))
            ]
            | inr m ↦ inr m
          ];
          keeps = λ x h. a.keeps x (head_member x pending (id ∷ []) h);
          sources = λ x h. elim (a.sources x h) [
            | inl m ↦ elim (member_last x id pending m) [ inl n ↦ inl n | inr e ↦ inr (inl e) ]
            | inr m ↦ inr (inr m)
          ];
        })
]
