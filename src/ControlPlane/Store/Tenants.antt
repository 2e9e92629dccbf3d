-- ===== src/ControlPlane/Store/Tenants.antt =====
-- The view of one tenant's state in the store of packages/control-plane/src/reference-store.ts.
use unifold.Prelude.{
  ◌≡◌, refl, sym, ap, ◌∙◌, subst, ◌≢◌, inl, inr, Bool, true, false, Option, none, some, [], ◌∷◌,
  ◌++◌, if◌then◌else◌, Bool-cases, Option-cases, ◌==◌, nat_eq, ==_iff, ==_refl, ==_ne, Text,
  text_eq, get, put, get-put,
}
use unifold.ControlPlane.Types.{AuditEntry}
use unifold.ControlPlane.Store.{
  Store, TenantState, created_state, state_of, set_state, record_audit,
}

abbrev or_created : Option TenantState → Store → TenantState
or_created none s = created_state s
or_created (some state) s = state

-- The state that a call for the tenant finds.
abbrev pub tenant : Text → Store → TenantState
tenant tenant_id s = or_created (get tenant_id s.tenants) s

abbrev pub audited : AuditEntry → TenantState → TenantState
audited entry state = record state { audits = state.audits ++ entry ∷ [] }

-- The second store is the first one but for one tenant's state.
pub record Changes (t : Text) (x : TenantState) (s s' : Store) : Type 0 where
  pub maximum : s'.max_documents ≡ s.max_documents
  pub held : s'.retention ≡ s.retention
  pub backups : s'.backups ≡ s.backups
  pub view : (u : Text) → tenant u s' ≡ (if t == u then x else tenant u s)

pub state_of-tenant : (t : Text) (s : Store) → (state_of t s).0 ≡ tenant t s
unfolding state_of
state_of-tenant t s = elim (Option-cases (get t s.tenants)) [
  | inl e ↦ rw (e, state_of) refl
  | inr (x, e) ↦ rw (e, state_of) refl
]

same_created : (s s' : Store) → s'.retention ≡ s.retention → created_state s' ≡ created_state s
unfolding created_state
same_created s s' e = rw e

or_lem :
    (o : Option TenantState) (s s' : Store)
    → s'.retention ≡ s.retention
    → or_created o s' ≡ or_created o s
or_lem none s s' r = same_created s s' r
or_lem (some x) s s' r = refl

put_view :
    (t : Text) (x : TenantState) (s s' : Store) (u : Text)
    → s'.tenants ≡ put t x s.tenants
    → s'.retention ≡ s.retention
    → tenant u s' ≡ (if t == u then x else tenant u s)
put_view t x s s' u e r =
    let found : get u s'.tenants ≡ (if t == u then some x else get u s.tenants) =
      ap (λ m. get u m) e ∙ get-put t u x s.tenants in
    ap (λ o. or_created o s') found ∙ (elim (Bool-cases (t == u)) [
      | inl same ↦ rw same refl
      | inr other ↦ rw other (or_lem (get u s.tenants) s s' r)
    ])

pub Changes-set_state : (t : Text) (x : TenantState) (s : Store) → Changes t x s (set_state t x s)
unfolding set_state
Changes-set_state t x s = record {
  maximum = refl;
  held = refl;
  backups = refl;
  view = λ u. put_view t x s (set_state t x s) u refl refl;
}

pub same_view :
    (t : Text) (s : Store) (u : Text) → tenant u s ≡ (if t == u then tenant t s else tenant u s)
same_view t s u = elim (Bool-cases (t == u)) [
  | inl e ↦ rw e (ap (λ v. tenant v s) (sym ((==_iff t u).0 e)))
  | inr e ↦ rw e refl
]

pub Changes-stay : (t : Text) (s : Store) → Changes t (tenant t s) s s
Changes-stay t s = record { maximum = refl; held = refl; backups = refl; view = same_view t s }

pub Changes-state_of : (t : Text) (s : Store) → Changes t (tenant t s) s (state_of t s).1
unfolding state_of
Changes-state_of t s = elim (Option-cases (get t s.tenants)) [
  | inl e ↦
      rw (e, state_of)
        (record {
          maximum = refl;
          held = refl;
          backups = refl;
          view = λ u. put_view t (created_state s) s _ u refl refl;
        })
  | inr (x, e) ↦ rw (e, state_of) (subst (λ y. Changes t y s s) (rw e refl) (Changes-stay t s))
]

collapse :
    (b : Bool) (x y z : TenantState)
    → (if b then y else (if b then x else z)) ≡ (if b then y else z)
collapse true x y z = refl
collapse false x y z = refl

pub Changes-trans :
    (t : Text) (x y : TenantState) (s s' s'' : Store)
    → Changes t x s s'
    → Changes t y s' s''
    → Changes t y s s''
Changes-trans t x y s s' s'' c d = record {
  maximum = d.maximum ∙ c.maximum;
  held = d.held ∙ c.held;
  backups = d.backups ∙ c.backups;
  view = λ u.
      d.view u
      ∙ ap (λ (z : TenantState). if t == u then y else z) (c.view u)
      ∙ collapse (t == u) x y (tenant u s);
}

pub Changes-here : (t : Text) (x : TenantState) (s s' : Store) → Changes t x s s' → tenant t s' ≡ x
Changes-here t x s s' c = c.view t ∙ rw (==_refl t)

pub Changes-away :
    (t : Text) (x : TenantState) (s s' : Store) (u : Text)
    → Changes t x s s'
    → t ≢ u
    → tenant u s' ≡ tenant u s
Changes-away t x s s' u c h = c.view u ∙ rw (==_ne t u h)

pub Changes-record_audit :
    (entry : AuditEntry) (s : Store)
    → Changes entry.tenant_id (audited entry (tenant entry.tenant_id s)) s (record_audit entry s)
unfolding record_audit
Changes-record_audit entry s =
    let (state, s') = state_of entry.tenant_id s in
    subst
      (λ (x : TenantState).
        Changes entry.tenant_id (audited entry x) s
          (set_state entry.tenant_id (audited entry state) s'))
      (state_of-tenant entry.tenant_id s)
      (Changes-trans entry.tenant_id (tenant entry.tenant_id s) (audited entry state) s s' _
        (Changes-state_of entry.tenant_id s)
        (Changes-set_state entry.tenant_id (audited entry state) s'))

pub tenant-fields :
    (s s' : Store) (u : Text)
    → s'.tenants ≡ s.tenants
    → s'.retention ≡ s.retention
    → tenant u s' ≡ tenant u s
tenant-fields s s' u e r =
    ap (λ o. or_created o s') (ap (λ m. get u m) e) ∙ or_lem (get u s.tenants) s s' r

-- Stores with the same tenants, limits and backups.
pub Changes-fields :
    (t : Text) (s s' : Store)
    → s'.tenants ≡ s.tenants
    → s'.retention ≡ s.retention
    → s'.max_documents ≡ s.max_documents
    → s'.backups ≡ s.backups
    → Changes t (tenant t s) s s'
Changes-fields t s s' e r m b = record {
  maximum = m;
  held = r;
  backups = b;
  view = λ u. tenant-fields s s' u e r ∙ same_view t s u;
}
