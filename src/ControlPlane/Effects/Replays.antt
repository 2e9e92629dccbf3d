-- ===== src/ControlPlane/Effects/Replays.antt =====
-- The effects of packages/control-plane/src/reference-store.ts that are begun again.
use unifold.Prelude.{
  ◌≡◌, refl, sym, ap, ◌∙◌, subst, List, ==_iff, get-put_fresh, inl, inr, Option, none, some, [],
  ◌∷◌, ◌++◌, if◌then◌else◌, Bool-cases, ◌==◌, nat_eq, Text, text_eq, get, put, get-put_self,
}
use unifold.ControlPlane.Types.{
  EffectLeaseStatus, AuditOutcome, ControlPlaneResult, EffectExecution, EffectLeaseCommand,
  FailEffectCommand,
}
use unifold.ControlPlane.Store.{
  Store, StoredEffect, TenantState, state_of, set_state, record_audit, publish, effect_audit,
}
use unifold.ControlPlane.Store.Tenants.{
  tenant, same_view, Changes-state_of, state_of-tenant, Changes-here, Changes-record_audit,
}
use unifold.ControlPlane.Store.Turns.{Changes-set_read}
use unifold.ControlPlane.Effects.{
  EffectLease, acquired_effect, lease_of, matching_lease, existing_lease, begin_on, begin_effect,
  finished_effect, finished, finish_on, finish_effect,
}

-- What is stored under a key of a tenant.
abbrev pub stored_at : Text → Text → Store → Option StoredEffect
stored_at t key s = get key (tenant t s).effects

-- What a key answers to a call that begins it.
abbrev pub answer : Option StoredEffect → Text → Option EffectLease
answer none fingerprint = some (lease_of EffectLeaseStatus.acquired)
answer (some stored) fingerprint = existing_lease stored fingerprint

answer_lem :
    (command : EffectLeaseCommand) (state : TenantState) (o : Option StoredEffect) (s : Store)
    → (begin_on command state o s).0 ≡ answer o command.fingerprint
unfolding begin_on
answer_lem command state none s = refl
answer_lem command state (some stored) s = refl

begin_answer :
    (command : EffectLeaseCommand) (s : Store)
    → (begin_effect command s).0
      ≡ answer (stored_at command.tenant_id command.idempotency_key s) command.fingerprint
unfolding begin_effect
begin_answer command s =
    answer_lem command (state_of command.tenant_id s).0 _ (state_of command.tenant_id s).1
    ∙ ap (λ (x : TenantState). answer (get command.idempotency_key x.effects) command.fingerprint)
        (state_of-tenant command.tenant_id s)

-- The store after a series of calls that begin effects.
abbrev pub begin_all : List EffectLeaseCommand → Store → Store
begin_all [] s = s
begin_all (command ∷ commands) s = begin_all commands (begin_effect command s).1

-- A call that begins an effect leaves the effects that are there.
begin_on-keeps :
    (t key : Text) (x : StoredEffect) (command : EffectLeaseCommand) (s : Store)
    (o : Option StoredEffect)
    → stored_at t key s ≡ some x
    → stored_at command.tenant_id command.idempotency_key s ≡ o
    → stored_at t key
        (begin_on command (tenant command.tenant_id s) o (state_of command.tenant_id s).1).1
      ≡ some x
unfolding begin_on
begin_on-keeps t key x command s (some stored) at here =
    ap (λ (y : TenantState). get key y.effects)
      ((Changes-state_of command.tenant_id s).view t ∙ sym (same_view command.tenant_id s t))
    ∙ at
begin_on-keeps t key x command s none at here =
    let state = tenant command.tenant_id s in
    let x' : TenantState = record state {
      effects = put command.idempotency_key (acquired_effect command) state.effects;
    } in
    let s' = set_state command.tenant_id x' (state_of command.tenant_id s).1 in
    let view = (Changes-set_read command.tenant_id x' s).view t in
    elim (Bool-cases (command.tenant_id == t)) [
      | inr f ↦
          let kept : tenant t s' ≡ tenant t s = view ∙ rw f refl in
          ap (λ (y : TenantState). get key y.effects) kept ∙ at
      | inl e ↦
          let moved : tenant t s' ≡ x' = view ∙ rw e refl in
          ap (λ (y : TenantState). get key y.effects) moved
          ∙ get-put_fresh command.idempotency_key key (acquired_effect command) x state.effects here
              (subst (λ u. stored_at u key s ≡ some x) (sym ((==_iff command.tenant_id t).0 e)) at)
    ]

begin_effect-keeps :
    (t key : Text) (x : StoredEffect) (command : EffectLeaseCommand) (s : Store)
    → stored_at t key s ≡ some x
    → stored_at t key (begin_effect command s).1 ≡ some x
unfolding begin_effect
begin_effect-keeps t key x command s at =
    ap
      (λ (y : TenantState).
        stored_at t key
          (begin_on command y (get command.idempotency_key y.effects)
            (state_of command.tenant_id s).1).1)
      (state_of-tenant command.tenant_id s)
    ∙ begin_on-keeps t key x command s _ at refl

begin_all-keeps :
    (t key : Text) (x : StoredEffect) (commands : List EffectLeaseCommand) (s : Store)
    → stored_at t key s ≡ some x
    → stored_at t key (begin_all commands s) ≡ some x
begin_all-keeps t key x [] s at = at
begin_all-keeps t key x (command ∷ commands) s at =
    begin_all-keeps t key x commands (begin_effect command s).1
      (begin_effect-keeps t key x command s at)

module _ (command : FailEffectCommand) (result : ControlPlaneResult EffectExecution)
    (outcome : AuditOutcome) (s : Store) (stored : StoredEffect)
    (at : stored_at command.tenant_id command.idempotency_key s ≡ some stored) where
  abbrev state : TenantState
  state = tenant command.tenant_id s

  abbrev done : Store
  done = record_audit (effect_audit command outcome) (
      set_state command.tenant_id (finished command result stored state)
        (state_of command.tenant_id s).1)

  finish_lem : (finish_effect command result outcome s).1 ≡ done
  unfolding finish_effect finish_on
  finish_lem =
      ap
        (λ (x : TenantState).
          (finish_on command result outcome x (get command.idempotency_key x.effects)
            (state_of command.tenant_id s).1).1)
        (state_of-tenant command.tenant_id s)
      ∙ ap (λ o. (finish_on command result outcome state o (state_of command.tenant_id s).1).1) at

  done_effects :
      (tenant command.tenant_id done).effects
      ≡ put command.idempotency_key (finished_effect result stored) state.effects
  unfolding effect_audit finished publish
  done_effects =
      let x = finished command result stored state in
      let s₁ = set_state command.tenant_id x (state_of command.tenant_id s).1 in
      let entry = effect_audit command outcome in
      ap (λ (y : TenantState). y.effects)
        (Changes-here command.tenant_id _ s₁ (record_audit entry s₁) (Changes-record_audit entry s₁)
          ∙ ap (λ (y : TenantState). record y { audits = y.audits ++ entry ∷ [] })
              (Changes-here command.tenant_id x s s₁ (Changes-set_read command.tenant_id x s)))

  finished_at :
      stored_at command.tenant_id command.idempotency_key (finish_effect command result outcome s).1
      ≡ some (finished_effect result stored)
  finished_at =
      ap (λ y. stored_at command.tenant_id command.idempotency_key y) finish_lem
      ∙ ap (λ m. get command.idempotency_key m) done_effects
      ∙ get-put_self command.idempotency_key (finished_effect result stored) state.effects

  replay_lem :
      (fingerprint : Text)
      → existing_lease (finished_effect result stored) fingerprint ≡ (
          if stored.fingerprint == fingerprint
          then some (record { result = some result; status = EffectLeaseStatus.replay })
          else some (lease_of EffectLeaseStatus.conflict))
  unfolding existing_lease matching_lease finished_effect
  replay_lem fingerprint = elim (Bool-cases (stored.fingerprint == fingerprint)) [
    | inl e ↦ rw e refl
    | inr e ↦ rw e refl
  ]

  -- After an effect has ended, well or not, and after any calls that begin effects, of any tenant and
  -- under any key, a call that begins the effect again under its key does not get to run it: it gets
  -- the recorded result if its fingerprint is the same, and a conflict if not.
  pub begin_effect-finish_effect :
      (between : List EffectLeaseCommand) (again : EffectLeaseCommand)
      → again.tenant_id ≡ command.tenant_id
      → again.idempotency_key ≡ command.idempotency_key
      → (begin_effect again (begin_all between (finish_effect command result outcome s).1)).0 ≡ (
          if stored.fingerprint == again.fingerprint
          then some (record { result = some result; status = EffectLeaseStatus.replay })
          else some (lease_of EffectLeaseStatus.conflict))
  begin_effect-finish_effect between again t k =
      let s' = begin_all between (finish_effect command result outcome s).1 in
      begin_answer again s'
      ∙ ap (λ u. answer (stored_at u again.idempotency_key s') again.fingerprint) t
      ∙ ap (λ j. answer (stored_at command.tenant_id j s') again.fingerprint) k
      ∙ ap (λ o. answer o again.fingerprint)
          (begin_all-keeps command.tenant_id command.idempotency_key _ between _ finished_at)
      ∙ replay_lem again.fingerprint
