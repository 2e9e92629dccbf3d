-- ===== src/ControlPlane/Recovery/Turns.antt =====
-- What the calls for backups of packages/control-plane/src/reference-store.ts do to their tenant.
use unifold.Prelude.{
  suc, ◌≡◌, refl, sym, ◌∙◌, subst, inl, inr, some, arith, Bool-cases, Option-cases, ◌==◌, nat_eq,
  ==_iff, Text, text_eq, get,
}
use unifold.ControlPlane.Types.{RecoveryCommand, AuditAction}
use unifold.ControlPlane.Store.{
  Store, TenantState, TenantBackup, state_of, set_state, record_audit, publish, recovery_audit,
}
use unifold.ControlPlane.Store.Tenants.{
  tenant, state_of-tenant, Changes, Changes-fields, Changes-trans, Changes-state_of, Changes-here,
}
use unifold.ControlPlane.Store.Turns.{
  IsBounded, Turn, Turn-quiet, Turn-record_audit, Changes-set_read,
}
use unifold.ControlPlane.Store.Valid.{IsValid}
use unifold.ControlPlane.Recovery.{
  Ports, backup_payload, begin_backup, owned_backup, restored, apply_restore, restore_backup,
}

module _ (ports : Ports) where
  pub begin_backup-Turn :
      (command : RecoveryCommand) (s : Store)
      → Turn command.tenant_id s (begin_backup ports command s).1
  unfolding begin_backup
  begin_backup-Turn command s =
      let t = command.tenant_id in
      let s₁ = (state_of t s).1 in
      Turn-quiet t (tenant t s) s _
        (Changes-trans t (tenant t s) (tenant t s) s s₁ _ (Changes-state_of t s) (
          subst
            (λ (x : TenantState). Changes t x s₁ (record s₁ { next_backup = suc s₁.next_backup }))
            (Changes-here t (tenant t s) s s₁ (Changes-state_of t s))
            (Changes-fields t s₁ (record s₁ { next_backup = suc s₁.next_backup }) refl refl refl
              refl)))
        refl refl

  owned_lem :
      (id t : Text) (s : Store) (b : TenantBackup)
      → owned_backup ports id t s ≡ some b
      → (get id s.backups ≡ some b) × (b.tenant_id ≡ t)
  unfolding owned_backup
  owned_lem id t s b e = elim (Option-cases (get id s.backups)) [
    | inl f ↦ let bad = rw (f, owned_backup) at e in cc
    | inr (c, f) ↦ elim (Bool-cases (c.tenant_id == t)) [
      | inl same ↦
          let eq = rw (f, owned_backup, same) at e in
          (
            f ∙ eq,
            subst (λ (x : TenantBackup). x.tenant_id ≡ t) (some-injective c b eq)
                ((==_iff c.tenant_id t).0 same),
          )
      | inr other ↦ let bad = rw (f, owned_backup, other) at e in cc
    ]
  ]
    where
      some-injective : (x y : TenantBackup) → some x ≡ some y → x ≡ y
      some-injective x y h = cc

  apply_restore_lem :
      (command : RecoveryCommand) (id : Text) (b : TenantBackup) (s : Store)
      → IsBounded (tenant command.tenant_id s).next_revision s.max_documents b.documents
      → Turn command.tenant_id s (
          record_audit (recovery_audit command AuditAction.backup_restored id) (
            set_state command.tenant_id
              (restored ports command id b (tenant command.tenant_id s))
              (state_of command.tenant_id s).1))
  unfolding recovery_audit restored publish
  apply_restore_lem command id b s bounded =
      Turn-record_audit (recovery_audit command AuditAction.backup_restored id) s _ (record {
        after = restored ports command id b (tenant command.tenant_id s);
        changes = Changes-set_read command.tenant_id _ s;
        later = omega arith;
        sound = λ old. bounded;
      })

  apply_restore-Turn :
      (command : RecoveryCommand) (id : Text) (b : TenantBackup) (s : Store)
      → IsBounded (tenant command.tenant_id s).next_revision s.max_documents b.documents
      → Turn command.tenant_id s (apply_restore ports command id b s).1
  unfolding apply_restore
  apply_restore-Turn command id b s bounded =
      subst
        (λ (x : TenantState). Turn command.tenant_id s (
          record_audit (recovery_audit command AuditAction.backup_restored id) (
            set_state command.tenant_id (restored ports command id b x)
              (state_of command.tenant_id s).1)))
        (sym (state_of-tenant command.tenant_id s)) (apply_restore_lem command id b s bounded)

  stay-Turn : (t : Text) (s : Store) → Turn t s s
  stay-Turn t s = Turn-quiet t (tenant t s) s s (Changes-fields t s s refl refl refl refl) refl refl

  pub restore_backup-Turn :
      (command : RecoveryCommand) (id : Text) (s : Store)
      → IsValid s
      → Turn command.tenant_id s (restore_backup ports command id s).1
  unfolding restore_backup
  restore_backup-Turn command id s v =
      let t = command.tenant_id in
      elim (Option-cases (owned_backup ports id t s)) [
        | inl e ↦ rw (e, restore_backup) (stay-Turn t s)
        | inr (b, e) ↦
            let payload = backup_payload ports t b.documents b.effects in
            elim (Option-cases (ports.fingerprint payload)) [
              | inl f ↦ rw (e, restore_backup, f) (stay-Turn t s)
              | inr (digest, f) ↦ elim (Bool-cases (digest == b.digest)) [
                | inr g ↦ rw (e, restore_backup, f, g) (stay-Turn t s)
                | inl g ↦
                    let (at, owner) = owned_lem id t s b e in
                    rw (e, restore_backup, f, g)
                      (apply_restore-Turn command id b s (
                        subst
                          (λ u. IsBounded (tenant u s).next_revision s.max_documents b.documents)
                          owner (v.backups id b at)))
              ]
            ]
      ]
