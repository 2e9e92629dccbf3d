-- ===== src/Prelude/Maps.antt =====
-- JavaScript's `Map` and `Set`: entries in the order of insertion; `set` on a present key keeps its
-- place.
use mathlib.Core.Path.{◌≡◌, refl, subst, ap}
use mathlib.Core.Bool.{Bool, true, false, ◌||◌}
use mathlib.Core.Option.{Option, none, some}
use mathlib.Core.List.{List, [], ◌∷◌, ◌++◌, map}
use native.Mathlib.Omega.{arith}
use mathlib.Core.Path.{◌∙◌}
use mathlib.Core.Logic.{◌↔◌, ◌⊎◌, inl, inr, ◌≢◌}
use unifold.Prelude.Tests.{Bool-cases, if◌then◌else◌, Eq, ◌==◌, ==_iff}

abbrev pub Map {ℓ κ} : Type ℓ → Type κ → Type (ℓ ⊔ κ)
Map K V = List (K × V)

module _ {ℓ κ} {K : Type ℓ} ⦃e : Eq K⦄ {V : Type κ} where
  unfoldable pub get : K → Map K V → Option V
  get k [] = none
  get k ((j, v) ∷ m) = if j == k then some v else get k m

  unfoldable pub put : K → V → Map K V → Map K V
  put k v [] = (k, v) ∷ []
  put k v ((j, w) ∷ m) = if j == k then (j, v) ∷ m else (j, w) ∷ put k v m

  unfoldable pub delete : K → Map K V → Map K V
  delete k [] = []
  delete k ((j, w) ∷ m) = let rest = delete k m in if j == k then rest else (j, w) ∷ rest

  pub get-put :
      (k j : K) (v : V) (m : Map K V) → get j (put k v m) ≡ (if k == j then some v else get j m)
  unfolding get put
  get-put k j v [] = refl
  get-put k j v ((i, w) ∷ m) = ground (arith, ==_iff i k, ==_iff i j, ==_iff k j, get-put k j v m)

  pub get-delete : (k j : K) (m : Map K V) → get j (delete k m) ≡ (if k == j then none else get j m)
  unfolding get delete
  get-delete k j [] = ground arith
  get-delete k j ((i, w) ∷ m) = ground (arith, ==_iff i k, ==_iff i j, ==_iff k j, get-delete k j m)

  -- A write at a free key leaves what was there.
  pub get-put_fresh :
      (k j : K) (v w : V) (m : Map K V)
      → get k m ≡ none
      → get j m ≡ some w
      → get j (put k v m) ≡ some w
  get-put_fresh k j v w m free at = get-put k j v m ∙ ground (arith, ==_iff k j)

  pub get-put_self : (k : K) (v : V) (m : Map K V) → get k (put k v m) ≡ some v
  get-put_self k v m = get-put k k v m ∙ ground (arith, ==_iff k k)

  -- What is found after a write is the value written, or was there.
  pub get-put_cases :
      (k j : K) (v w : V) (m : Map K V)
      → get j (put k v m) ≡ some w
      → ((k ≡ j) × (v ≡ w)) ⊎ ((k ≢ j) × (get j m ≡ some w))
  get-put_cases k j v w m h = elim (Bool-cases (k == j)) [
    | inl t ↦ inl ((==_iff k j).0 t, ground (arith, get-put k j v m))
    | inr f ↦ inr (λ e. ground (arith, ==_iff k j), ground (arith, get-put k j v m))
  ]

  pub get-delete-some :
      (k j : K) (w : V) (m : Map K V) → get j (delete k m) ≡ some w → (k ≢ j) × (get j m ≡ some w)
  get-delete-some k j w m h =
      (λ e. ground (arith, ==_iff k j, get-delete k j m), ground (arith, get-delete k j m))

  pub get-single : (k j : K) (v w : V) → get j ((k, v) ∷ []) ≡ some w → (k ≡ j) × (v ≡ w)
  unfolding get
  get-single k j v w h = (ground (arith, ==_iff k j), ground arith)

  pub get-first : (k : K) (v : V) (m : Map K V) → get k ((k, v) ∷ m) ≡ some v
  unfolding get
  get-first k v m = ground (arith, ==_iff k k)

module _ {ℓ} {K : Type ℓ} ⦃e : Eq K⦄ where
  unfoldable pub has : K → List K → Bool
  has k [] = false
  has k (j ∷ js) = j == k || has k js

  unfoldable pub add_new : K → List K → List K
  unfolding has
  add_new k ks = if has k ks then ks else ks ++ k ∷ []

  unique_onto : List K → List K → List K
  unfolding add_new
  unique_onto seen [] = seen
  unique_onto seen (k ∷ ks) = unique_onto (add_new k seen) ks

  -- `[...new Set(ks)]`: the first occurrence of each.
  unfoldable pub unique : List K → List K
  unfolding unique_onto
  unique ks = unique_onto [] ks

-- The key is in the list.
abbrev pub Member : {K : Type 0} → K → List K → Type 0
Member k [] = ⊥
Member k (j ∷ js) = (j ≡ k) ⊎ Member k js

pub Member-append :
    {K : Type 0} (x : K) (xs ys : List K) → Member x (xs ++ ys) ↔ (Member x xs ⊎ Member x ys)
Member-append x [] ys = (λ h. inr h, λ h. elim h [ inl bad ↦ absurd bad | inr m ↦ m ])
Member-append x (z ∷ zs) ys = (
  λ h. elim h [
    | inl e ↦ inl (inl e)
    | inr m ↦ elim ((Member-append x zs ys).0 m) [ inl a ↦ inl (inr a) | inr b ↦ inr b ]
  ],
  λ h. elim h [
    | inl (inl e) ↦ inl e
    | inl (inr a) ↦ inr ((Member-append x zs ys).1 (inl a))
    | inr b ↦ inr ((Member-append x zs ys).1 (inr b))
  ],
)

pub Member-map :
    {K J : Type 0} (f : K → J) (j : J) (ks : List K)
    → Member j (map f ks) ↔ ((k : K) × Member k ks × (f k ≡ j))
Member-map f j [] = (λ h. absurd h, λ h. absurd h.1)
Member-map f j (k ∷ ks) = (
  λ h. elim h [
    | inl e ↦ (k, inl refl, e)
    | inr m ↦ let (i, at, e) = (Member-map f j ks).0 m in (i, inr at, e)
  ],
  λ h. elim h.1 [
    | inl same ↦ inl (ap f same ∙ h.2)
    | inr at ↦ inr ((Member-map f j ks).1 (h.0, at, h.2))
  ],
)

module _ {K : Type 0} ⦃e : Eq K⦄ where
  pub has_iff : (k : K) (ks : List K) → (has k ks ≡ true) ↔ Member k ks
  unfolding has
  has_iff k [] = (λ h. cc, λ h. absurd h)
  has_iff k (j ∷ js) = (
    λ h. elim (Bool-cases (j == k)) [
      | inl t ↦ inl ((==_iff j k).0 t)
      | inr f ↦ inr ((has_iff k js).0 (ground arith))
    ],
    λ h. elim h [
      | inl same ↦ ground (arith, (==_iff j k).1 same)
      | inr m ↦ ground (arith, (has_iff k js).1 m)
    ],
  )

  pub add_new-Member : (x k : K) (ks : List K) → Member x (add_new k ks) ↔ (Member x ks ⊎ (k ≡ x))
  unfolding add_new
  add_new-Member x k ks = elim (Bool-cases (has k ks)) [
    | inl h ↦
        rw (h, add_new)
          (
            λ m. inl m,
            λ m. elim m [ inl n ↦ n | inr e ↦ subst (λ u. Member u ks) e ((has_iff k ks).0 h) ],
          )
    | inr h ↦
        rw (h, add_new)
          (
            λ m. elim ((Member-append x ks (k ∷ [])).0 m) [
              | inl n ↦ inl n
              | inr (inl e) ↦ inr e
              | inr (inr bad) ↦ absurd bad
            ],
            λ m. (Member-append x ks (k ∷ [])).1 (elim m [ inl n ↦ inl n | inr e ↦ inr (inl e) ]),
          )
  ]
