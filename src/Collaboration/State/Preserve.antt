-- ===== src/Collaboration/State/Preserve.antt =====
-- The moves of the ledger and its validity.
use unifold.Prelude.{
  ℕ, suc, ◌<◌, ◌≡◌, refl, sym, ap, ◌∙◌, subst, ◌≢◌, inl, inr, none, some, ◌++◌, arith, Option-cases,
  nat_eq, ==_ne, Text, text, text_eq, get, put, get-put, get-put_fresh, get-put_self, get-put_cases,
  get-delete-some, print, pad_zeros, pad_zeros-injective,
}
use unifold.Collaboration.Types.{Branch, Revision}
use unifold.Collaboration.State.{Candidate, revision_name, set_head}
use unifold.Collaboration.State.Ledger.{
  Ledger, Commits, Follows, numbered, offered, advanced, withdrawn, repolicied, Move, number, offer,
  land, compensate, publish, Moves, stay, go, Pending, Stored, IsValid,
}

-- Two numbers with one name are one number.
revision_name-injective : (m n : ℕ) → revision_name m ≡ revision_name n → m ≡ n
unfolding revision_name
revision_name-injective m n e = pad_zeros-injective 12 m n (strip e)
  where
    strip :
        text "revision-" ++ pad_zeros 12 (print m) ≡ text "revision-" ++ pad_zeros 12 (print n)
        → pad_zeros 12 (print m) ≡ pad_zeros 12 (print n)
    strip e = cc

-- A name above the counter is free.
fresh_name : (l : Ledger) → IsValid l → get (revision_name (suc l.sequence)) l.revisions ≡ none
fresh_name l v = elim (Option-cases (get (revision_name (suc l.sequence)) l.revisions)) [
  | inl e ↦ e
  | inr (r, e) ↦
      let w = v.stored _ r e in
      let same = revision_name-injective (suc l.sequence) r.sequence w.named in
      absurd (omega (arith, same, w.made))
]

numbered-IsValid : (l : Ledger) → IsValid l → IsValid (numbered l)
numbered-IsValid l v = record {
  heads = v.heads;
  stored = λ id r e.
      let w = v.stored id r e in
      record { name = w.name; named = w.named; made = omega (arith, w.made); parent = w.parent };
  pending = λ id c e.
      let w = v.pending id c e in
      record { name = w.name; made = omega (arith, w.made); fresh = w.fresh; parent = w.parent };
  distinct = v.distinct;
}

module _ (l : Ledger) (v : IsValid l) (branch_id : Text) (b : Branch) (c : Candidate)
    (at : get branch_id l.branches ≡ some b) (f : Follows l b c) where
  -- The head is older than the new number.
  Follows-parent :
      (q : Revision) × (get c.parent_revision l.revisions ≡ some q) × (q.sequence < c.sequence)
  Follows-parent =
      let (q, e) = v.heads branch_id b at in
      (q, rw f.parent e, omega (arith, (v.stored b.head_revision q e).made, f.number))

  Follows-Pending : Pending l.revisions (suc l.sequence) c
  Follows-Pending = record {
    name = f.name ∙ ap revision_name (sym f.number);
    made = omega (arith, f.number);
    fresh = rw f.name (fresh_name l v);
    parent = Follows-parent;
  }

offered-IsValid :
    (l : Ledger)
    → IsValid l
    → (id : Text) (c : Candidate) → Pending l.revisions (suc l.sequence) c
    → c.sequence ≡ suc l.sequence
    → IsValid (offered id c l)
offered-IsValid l v id c p n = record {
  heads = v.heads;
  stored = (numbered-IsValid l v).stored;
  pending = λ j d e. elim (get-put_cases id j c d l.candidates e) [
    | inl (same, val) ↦ subst (Pending l.revisions (suc l.sequence)) val p
    | inr (other, old) ↦ (numbered-IsValid l v).pending j d old
  ];
  distinct = λ i j d e at_i at_j same. elim (get-put_cases id i c d l.candidates at_i) [
    | inl (i_new, c_d) ↦ elim (get-put_cases id j c e l.candidates at_j) [
      | inl (j_new, c_e) ↦ sym i_new ∙ j_new
      | inr (j_old, there) ↦ absurd (
          omega
            (arith, (v.pending j e there).made, ap (λ (x : Candidate). x.sequence) c_d, same, n))
    ]
    | inr (i_old, here) ↦ elim (get-put_cases id j c e l.candidates at_j) [
      | inl (j_new, c_e) ↦ absurd (
          omega (arith, (v.pending i d here).made, ap (λ (x : Candidate). x.sequence) c_e, same, n))
      | inr (j_old, there) ↦ v.distinct i j d e here there same
    ]
  ];
}

-- A new revision on top of the head keeps the ledger valid, once its candidate is withdrawn or was
-- never kept.
module _ (l : Ledger) (v : IsValid l) (branch_id : Text) (b : Branch) (c : Candidate) (r : Revision)
    (p : Pending l.revisions l.sequence c) (k : Commits c r) where
  free : get r.revision l.revisions ≡ none
  free = rw k.name p.fresh

  -- Revisions that were there stay there.
  stays :
      (id : Text) (q : Revision)
      → get id l.revisions ≡ some q
      → get id (put r.revision r l.revisions) ≡ some q
  stays id q e = get-put_fresh r.revision id r q l.revisions free e

  advanced-heads :
      (id : Text) (d : Branch)
      → get id (put branch_id (set_head r.revision b) l.branches) ≡ some d
      → (q : Revision) × (get d.head_revision (put r.revision r l.revisions) ≡ some q)
  advanced-heads id d e = elim (get-put_cases branch_id id (set_head r.revision b) d l.branches e) [
    | inl (same, val) ↦ (r, rw (← val) (get-put_self r.revision r l.revisions))
    | inr (other, old) ↦ let (q, at) = v.heads id d old in (q, stays d.head_revision q at)
  ]

  new-Stored : Stored (put r.revision r l.revisions) l.sequence r.revision r
  new-Stored =
      let (o, at, older) = p.parent in
      record {
        name = refl;
        named = k.name ∙ p.name ∙ ap revision_name (sym k.number);
        made = omega (arith, p.made, k.number);
        parent = λ m h.
            let same : c.parent_revision ≡ m = cc (k.parent, h) in
            (
              o,
              stays m o (subst (λ t. get t l.revisions ≡ some o) same at),
              omega (arith, older, k.number),
            );
      }

  advanced-Stored :
      (id : Text) (q : Revision)
      → get id (put r.revision r l.revisions) ≡ some q
      → Stored (put r.revision r l.revisions) l.sequence id q
  advanced-Stored id q e = elim (get-put_cases r.revision id r q l.revisions e) [
    | inl (same, val) ↦
        subst (λ t. Stored (put r.revision r l.revisions) l.sequence t q) same
          (subst (λ x. Stored (put r.revision r l.revisions) l.sequence r.revision x) val
            new-Stored)
    | inr (other, old) ↦
        let w = v.stored id q old in
        record {
          name = w.name;
          named = w.named;
          made = w.made;
          parent = λ m h. let (o, at, older) = w.parent m h in (o, stays m o at, older);
        }
  ]

  -- A candidate with another number keeps waiting.
  advanced-Pending :
      (d : Candidate)
      → Pending l.revisions l.sequence d
      → d.sequence ≢ c.sequence
      → Pending (put r.revision r l.revisions) l.sequence d
  advanced-Pending d w other =
      let (o, at, older) = w.parent in
      let apart : r.revision ≢ d.revision = λ e.
        other
          (revision_name-injective d.sequence c.sequence (sym w.name ∙ sym e ∙ k.name ∙ p.name)) in
      record {
        name = w.name;
        made = w.made;
        fresh =
            get-put r.revision d.revision r l.revisions
            ∙ rw (==_ne r.revision d.revision apart) w.fresh;
        parent = (o, stays d.parent_revision o at, older);
      }

land-IsValid :
    (l : Ledger)
    → IsValid l
    → (id branch_id : Text) (b : Branch) (c : Candidate) (r : Revision)
    → get id l.candidates ≡ some c
    → Commits c r
    → IsValid (withdrawn id (advanced branch_id b r l))
land-IsValid l v id branch_id b c r at k =
    let p = v.pending id c at in
    record {
      heads = advanced-heads l v branch_id b c r p k;
      stored = advanced-Stored l v branch_id b c r p k;
      pending = λ j d e.
          let (other, old) = get-delete-some id j d l.candidates e in
          advanced-Pending l v branch_id b c r p k d (v.pending j d old)
            (λ same. other (v.distinct id j c d at old (sym same)));
      distinct = λ i j d e at_i at_j same.
          v.distinct i j d e (get-delete-some id i d l.candidates at_i).1
            (get-delete-some id j e l.candidates at_j).1 same;
    }

compensate-IsValid :
    (l : Ledger)
    → IsValid l
    → (branch_id : Text) (b : Branch) (c : Candidate) (r : Revision)
    → get branch_id l.branches ≡ some b
    → Follows l b c
    → Commits c r
    → IsValid (advanced branch_id b r (numbered l))
compensate-IsValid l v branch_id b c r at f k =
    let p = Follows-Pending l v branch_id b c at f in
    let w = numbered-IsValid l v in
    record {
      heads = advanced-heads (numbered l) w branch_id b c r p k;
      stored = advanced-Stored (numbered l) w branch_id b c r p k;
      pending = λ j d e.
          advanced-Pending (numbered l) w branch_id b c r p k d (w.pending j d e)
            (λ same. omega (arith, (v.pending j d e).made, f.number, same));
      distinct = v.distinct;
    }

publish-IsValid :
    (l : Ledger)
    → IsValid l
    → (branch_id : Text) (b d : Branch) → get branch_id l.branches ≡ some b
    → d.head_revision ≡ b.head_revision
    → IsValid (repolicied branch_id d l)
publish-IsValid l v branch_id b d at same = record {
  heads = λ id e h. elim (get-put_cases branch_id id d e l.branches h) [
    | inl (here, val) ↦ let (q, x) = v.heads branch_id b at in (q, rw (← val, same) x)
    | inr (other, old) ↦ v.heads id e old
  ];
  stored = v.stored;
  pending = v.pending;
  distinct = v.distinct;
}

-- Every move keeps the ledger valid.
pub Move-IsValid : {l m : Ledger} → Move l m → IsValid l → IsValid m
Move-IsValid {l} number v = numbered-IsValid l v
Move-IsValid {l} (offer id branch_id b c at f) v =
    offered-IsValid l v id c (Follows-Pending l v branch_id b c at f) f.number
Move-IsValid {l} (land id branch_id b c r kept at parent k) v =
    land-IsValid l v id branch_id b c r kept k
Move-IsValid {l} (compensate branch_id b c r at f k) v =
    compensate-IsValid l v branch_id b c r at f k
Move-IsValid {l} (publish branch_id b at) v = publish-IsValid l v branch_id b _ at refl

pub Moves-IsValid : {l m : Ledger} → Moves l m → IsValid l → IsValid m
Moves-IsValid stay v = v
Moves-IsValid (go ms m) v = Move-IsValid m (Moves-IsValid ms v)

-- No move changes or drops a revision.
pub Move-keeps :
    {l m : Ledger}
    → Move l m
    → IsValid l
    → (id : Text) (q : Revision) → get id l.revisions ≡ some q
    → get id m.revisions ≡ some q
Move-keeps number v id q e = e
Move-keeps (offer _ branch_id b c at f) v id q e = e
Move-keeps {l} (land i branch_id b c r kept at parent k) v id q e =
    stays l v branch_id b c r (v.pending i c kept) k id q e
Move-keeps {l} (compensate branch_id b c r at f k) v id q e =
    stays (numbered l) (numbered-IsValid l v) branch_id b c r
      (Follows-Pending l v branch_id b c at f) k id q e
Move-keeps (publish branch_id b at) v id q e = e

pub Moves-keep :
    {l m : Ledger}
    → Moves l m
    → IsValid l
    → (id : Text) (q : Revision) → get id l.revisions ≡ some q
    → get id m.revisions ≡ some q
Moves-keep stay v id q e = e
Moves-keep (go ms m) v id q e = Move-keeps m (Moves-IsValid ms v) id q (Moves-keep ms v id q e)
