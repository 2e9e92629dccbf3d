-- ===== src/Collaboration/State/Walk.antt =====
-- The loop of `intervening` of packages/collaboration/src/reference-state.ts.
use unifold.Prelude.{
  ℕ, zero, suc, ◌<◌, ◌≡◌, refl, sym, ◌∙◌, subst, ◌≢◌, inl, inr, true, none, some, List, [], ◌∷◌,
  arith, if◌then◌else◌, Bool-cases, Option-cases, ◌==◌, nat_eq, ==_iff, Text, text_eq, Map, get,
}
use unifold.Collaboration.Types.{Revision}
use unifold.Collaboration.State.{State, Walked, missing, out_of_fuel, found, walk, intervening}
use unifold.Collaboration.State.Ledger.{ledger, Stored, IsValid}

-- Each revision is stored and sits on the one before it; the first sits on `base`, the last is `head`.
abbrev pub IsPath : Map Text Revision → Text → List Revision → Text → Type 0
IsPath revisions base [] head = base ≡ head
IsPath revisions base (r ∷ rs) head =
    (r.parent_revision ≡ some base)
    × (get r.revision revisions ≡ some r)
    × IsPath revisions r.revision rs head

module _ (revisions : Map Text Revision) (n : ℕ)
    (stored : (id : Text) (r : Revision) → get id revisions ≡ some r → Stored revisions n id r)
    (base : Text) where
  walk-none : (fuel : ℕ) (values : List Revision) → walk fuel revisions none base values ≡ missing
  unfolding walk
  walk-none zero values = refl
  walk-none (suc fuel) values = refl

  -- One round at a cursor that is stored.
  walk_step :
      (fuel : ℕ) (cursor : Text) (r : Revision) (values : List Revision)
      → get cursor revisions ≡ some r
      → walk (suc fuel) revisions (some cursor) base values ≡ (
          if cursor == base
          then found values
          else walk fuel revisions r.parent_revision base (r ∷ values))
  unfolding walk
  walk_step fuel cursor r values e = rw e

  walk-ne-out_of_fuel :
      (fuel : ℕ) (cursor : Text) (r : Revision) (values : List Revision)
      → get cursor revisions ≡ some r
      → r.sequence < fuel
      → walk fuel revisions (some cursor) base values ≢ out_of_fuel
  walk-ne-out_of_fuel zero cursor r values e h = elim h [ ]
  walk-ne-out_of_fuel (suc fuel) cursor r values e h = elim (Bool-cases (cursor == base)) [
    | inl t ↦ λ bad. let x = sym (walk_step fuel cursor r values e) ∙ bad in ground arith
    | inr f ↦ elim (Option-cases r.parent_revision) [
      | inl root ↦ λ bad.
          let x = sym (walk_step fuel cursor r values e) ∙ bad in
          ground (arith, walk-none fuel (r ∷ values))
      | inr (p, up) ↦
          let (q, at, older) = (stored cursor r e).parent p up in
          λ bad.
            walk-ne-out_of_fuel fuel p q (r ∷ values) at (omega (arith, older))
              (let x = sym (walk_step fuel cursor r values e) ∙ bad in ground arith)
    ]
  ]

  found-injective : (xs ys : List Revision) → ◌≡◌ {A = Walked} (found xs) (found ys) → xs ≡ ys
  found-injective xs ys h = cc

  walk_lost :
      (fuel : ℕ) (cursor : Text) (values : List Revision)
      → get cursor revisions ≡ none
      → (walk (suc fuel) revisions (some cursor) base values
          ≡ (if cursor == base then found values else missing))
  unfolding walk
  walk_lost fuel cursor values e = rw e

  walk-IsPath :
      (fuel : ℕ) (cursor head : Text) (values rs : List Revision)
      → IsPath revisions cursor values head
      → walk fuel revisions (some cursor) base values ≡ found rs
      → IsPath revisions base rs head
  walk-IsPath zero cursor head values rs p h = unfold walk in cc
  walk-IsPath (suc fuel) cursor head values rs p h = elim (Option-cases (get cursor revisions)) [
    | inl lost ↦
        let x = sym (walk_lost fuel cursor values lost) ∙ h in
        elim (Bool-cases (cursor == base)) [
          | inl t ↦ here t (rw t at x)
          | inr f ↦ let y = rw f at x in cc
        ]
    | inr (r, e) ↦
        let x = sym (walk_step fuel cursor r values e) ∙ h in
        elim (Bool-cases (cursor == base)) [
          | inl t ↦ here t (rw t at x)
          | inr f ↦ elim (Option-cases r.parent_revision) [
            | inl root ↦
                let y =
                  subst (λ o. walk fuel revisions o base (r ∷ values) ≡ found rs) root
                    (rw f at x) in
                let w = sym (walk-none fuel (r ∷ values)) ∙ y in cc
            | inr (q, up) ↦
                walk-IsPath fuel q head (r ∷ values) rs
                  (
                    up,
                    subst (λ t. get t revisions ≡ some r) (sym (stored cursor r e).name) e,
                    subst (λ t. IsPath revisions t values head) (sym (stored cursor r e).name) p,
                  )
                  (subst (λ o. walk fuel revisions o base (r ∷ values) ≡ found rs) up (rw f at x))
          ]
        ]
  ]
    where
      here :
          (cursor == base) ≡ true
          → ◌≡◌ {A = Walked} (found values) (found rs)
          → IsPath revisions base rs head
      here t x =
          subst (λ l. IsPath revisions base l head) (found-injective values rs x)
            (subst (λ c. IsPath revisions c values head) ((==_iff cursor base).0 t) p)

-- How a walk may end: with nothing, or with a path.
abbrev pub EndsRight : Map Text Revision → Text → Text → Walked → Type 0
EndsRight revisions base head missing = Unit {0}
EndsRight revisions base head out_of_fuel = ⊥
EndsRight revisions base head (found rs) = IsPath revisions base rs head

ends_right :
    (revisions : Map Text Revision) (base head : Text) (w : Walked)
    → w ≢ out_of_fuel
    → ((rs : List Revision) → w ≡ found rs → IsPath revisions base rs head)
    → EndsRight revisions base head w
ends_right revisions base head missing h k = tt
ends_right revisions base head out_of_fuel h k = h refl
ends_right revisions base head (found rs) h k = k rs refl

-- On a valid state the loop never runs out of its fuel, and the revisions that it finds between a
-- stored head and a base are a path of stored revisions from the base to the head.
pub intervening-EndsRight :
    (s : State) (head base : Text) (r : Revision)
    → IsValid (ledger s)
    → get head s.revisions ≡ some r
    → EndsRight s.revisions base head (intervening head base s)
unfolding intervening
intervening-EndsRight s head base r v e =
    ends_right s.revisions base head _
      (walk-ne-out_of_fuel s.revisions s.revision_sequence v.stored base (suc s.revision_sequence)
        head r [] e (omega (arith, (v.stored head r e).made)))
      (λ rs h.
        walk-IsPath s.revisions s.revision_sequence v.stored base (suc s.revision_sequence) head
          head [] rs refl h)
