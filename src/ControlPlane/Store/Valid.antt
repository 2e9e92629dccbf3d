-- ===== src/ControlPlane/Store/Valid.antt =====
-- Valid stores of packages/control-plane/src/reference-store.ts, and calls that keep them valid.
use unifold.Prelude.{
  ℕ, ◌≤◌, ◌≡◌, refl, sym, ap, ◌∙◌, subst, ◌≢◌, inl, inr, some, arith, Bool-cases, ◌==◌, nat_eq,
  ==_iff, Text, text_eq, Map, get,
}
use unifold.ControlPlane.Types.{AuditEntry, DocumentRevision}
use unifold.ControlPlane.Store.{
  Store, StoreOptions, TenantState, TenantBackup, created_state, new_store, record_audit,
}
use unifold.ControlPlane.Store.Tenants.{tenant, Changes-stay, Changes-here, Changes-away}
use unifold.ControlPlane.Store.Turns.{IsBounded, Turn, Turn-quiet, Turn-record_audit}

-- Every tenant's documents, and those of every backup, are within the limit and named by numbers that
-- the tenant has used.
pub record IsValid (s : Store) : Type 0 where
  pub documents :
      (t : Text) → IsBounded (tenant t s).next_revision s.max_documents (tenant t s).documents
  pub backups :
      (id : Text) (b : TenantBackup)
      → get id s.backups ≡ some b
      → IsBounded (tenant b.tenant_id s).next_revision s.max_documents b.documents

pub IsBounded-later :
    (m n max : ℕ) (documents : Map Text DocumentRevision)
    → m ≤ n
    → IsBounded m max documents
    → IsBounded n max documents
IsBounded-later m n max documents h b = record {
  small = b.small;
  named = λ id r e. let (k, name, below) = b.named id r e in (k, name, omega arith);
}

later_lem :
    (t : Text) (s s' : Store)
    → Turn t s s'
    → (u : Text) → (tenant u s).next_revision ≤ (tenant u s').next_revision
later_lem t s s' turn u = elim (Bool-cases (t == u)) [
  | inl same ↦
      let here = Changes-here t turn.after s s' turn.changes in
      subst (λ v. (tenant v s).next_revision ≤ (tenant v s').next_revision) ((==_iff t u).0 same)
        (rw here turn.later)
  | inr other ↦
      rw (Changes-away t turn.after s s' u turn.changes (λ e. ground (arith, ==_iff t u)))
        (omega arith)
]

documents_lem :
    (t : Text) (s s' : Store)
    → IsValid s
    → Turn t s s'
    → (u : Text) → IsBounded (tenant u s').next_revision s.max_documents (tenant u s').documents
documents_lem t s s' v turn u = elim (Bool-cases (t == u)) [
  | inl same ↦
      let here = Changes-here t turn.after s s' turn.changes in
      subst (λ w. IsBounded (tenant w s').next_revision s.max_documents (tenant w s').documents)
        ((==_iff t u).0 same)
        (subst (λ (x : TenantState). IsBounded x.next_revision s.max_documents x.documents)
          (sym here) (turn.sound (v.documents t)))
  | inr other ↦
      subst (λ (x : TenantState). IsBounded x.next_revision s.max_documents x.documents)
        (sym (Changes-away t turn.after s s' u turn.changes (λ e. ground (arith, ==_iff t u))))
        (v.documents u)
]

pub Turn-IsValid : (t : Text) (s s' : Store) → IsValid s → Turn t s s' → IsValid s'
Turn-IsValid t s s' v turn = record {
  documents = λ u.
      subst (λ m. IsBounded (tenant u s').next_revision m (tenant u s').documents)
        (sym turn.changes.maximum) (documents_lem t s s' v turn u);
  backups = λ id b e.
      subst (λ m. IsBounded (tenant b.tenant_id s').next_revision m b.documents)
        (sym turn.changes.maximum)
        (IsBounded-later (tenant b.tenant_id s).next_revision (tenant b.tenant_id s').next_revision
          s.max_documents b.documents (later_lem t s s' turn b.tenant_id)
          (v.backups id b (ap (λ m. get id m) (sym turn.changes.backups) ∙ e)));
}

pub record_audit-Turn :
    (entry : AuditEntry) (s : Store) → Turn entry.tenant_id s (record_audit entry s)
record_audit-Turn entry s = Turn-record_audit entry s s (
    Turn-quiet entry.tenant_id (tenant entry.tenant_id s) s s (Changes-stay entry.tenant_id s) refl
      refl)

-- No other tenant's state changes.
abbrev pub Away : Text → Store → Store → Type 0
Away t s s' = (u : Text) → t ≢ u → tenant u s' ≡ tenant u s

pub Turn-Away : (t : Text) (s s' : Store) → Turn t s s' → Away t s s'
Turn-Away t s s' turn u h = Changes-away t turn.after s s' u turn.changes h

pub new_store-IsValid : (options : StoreOptions) → IsValid (new_store options)
unfolding new_store created_state get
new_store-IsValid options = record {
  documents = λ t. record { small = omega arith; named = λ id r e. cc };
  backups = λ id b e. cc;
}
