-- ===== src/Collaboration/State/Ledger.antt =====
-- The part of the service's state that holds the documents, and the moves that change it.
use unifold.Prelude.{
  ℕ, suc, ◌≤◌, ◌<◌, ◌≡◌, none, some, nat_eq, Text, text_eq, Map, get, put, delete,
}
use unifold.Collaboration.Types.{Branch, Revision}
use unifold.Collaboration.State.{State, Candidate, revision_name, set_head}

pub record Ledger : Type 0 where
  pub branches : Map Text Branch
  pub candidates : Map Text Candidate
  pub revisions : Map Text Revision
  pub sequence : ℕ

abbrev pub ledger : State → Ledger
ledger s = record {
  branches = s.branches;
  candidates = s.candidates;
  revisions = s.revisions;
  sequence = s.revision_sequence;
}

-- The revision is the candidate, stored.
pub record Commits (c : Candidate) (r : Revision) : Type 0 where
  pub name : r.revision ≡ c.revision
  pub number : r.sequence ≡ c.sequence
  pub parent : r.parent_revision ≡ some c.parent_revision
  pub document : r.document ≡ c.document

-- The candidate has the next number, and its parent is the head of the branch.
pub record Follows (l : Ledger) (b : Branch) (c : Candidate) : Type 0 where
  pub number : c.sequence ≡ suc l.sequence
  pub name : c.revision ≡ revision_name (suc l.sequence)
  pub parent : c.parent_revision ≡ b.head_revision

abbrev pub numbered : Ledger → Ledger
numbered l = record l { sequence = suc l.sequence }

abbrev pub offered : Text → Candidate → Ledger → Ledger
offered id c l = record l { candidates = put id c l.candidates; sequence = suc l.sequence }

-- The revision is stored and becomes the head of the branch.
abbrev pub advanced : Text → Branch → Revision → Ledger → Ledger
advanced branch_id b r l = record l {
  branches = put branch_id (set_head r.revision b) l.branches;
  revisions = put r.revision r l.revisions;
}

abbrev pub withdrawn : Text → Ledger → Ledger
withdrawn id l = record l { candidates = delete id l.candidates }

abbrev pub repolicied : Text → Branch → Ledger → Ledger
repolicied branch_id b l = record l { branches = put branch_id b l.branches }

pub data Move (l : Ledger) : Ledger → Type 0 where
  -- A number is used up by a proposal or an undo that fails.
  number : Move l (numbered l)
  -- A proposal's candidate is kept for review.
  offer :
      (id branch_id : Text) (b : Branch) (c : Candidate)
      → get branch_id l.branches ≡ some b
      → Follows l b c
      → Move l (offered id c l)
  -- A candidate on top of the head is committed.
  land :
      (id branch_id : Text) (b : Branch) (c : Candidate) (r : Revision)
      → get id l.candidates ≡ some c
      → get branch_id l.branches ≡ some b
      → c.parent_revision ≡ b.head_revision
      → Commits c r
      → Move l (withdrawn id (advanced branch_id b r l))
  -- An undo commits at once.
  compensate :
      (branch_id : Text) (b : Branch) (c : Candidate) (r : Revision)
      → get branch_id l.branches ≡ some b
      → Follows l b c
      → Commits c r
      → Move l (advanced branch_id b r (numbered l))
  -- The head is published.
  publish :
      (branch_id : Text) (b : Branch)
      → get branch_id l.branches ≡ some b
      → Move l (repolicied branch_id (record b { published_revision = some b.head_revision }) l)

pub data Moves (l : Ledger) : Ledger → Type 0 where
  stay : Moves l l
  go : {m n : Ledger} → Moves l m → Move m n → Moves l n

-- What holds of a waiting candidate, over the revisions and the counter.
pub record Pending (revisions : Map Text Revision) (n : ℕ) (c : Candidate) : Type 0 where
  pub name : c.revision ≡ revision_name c.sequence
  pub made : c.sequence ≤ n
  pub fresh : get c.revision revisions ≡ none
  pub parent :
      (q : Revision) × (get c.parent_revision revisions ≡ some q) × (q.sequence < c.sequence)

-- What holds of a stored revision: its name is its number's, and its parent is stored and older.
pub record Stored (revisions : Map Text Revision) (n : ℕ) (id : Text) (r : Revision) : Type 0 where
  pub name : r.revision ≡ id
  pub named : id ≡ revision_name r.sequence
  pub made : r.sequence ≤ n
  pub parent :
      (p : Text)
      → r.parent_revision ≡ some p
      → (q : Revision) × (get p revisions ≡ some q) × (q.sequence < r.sequence)

pub record IsValid (l : Ledger) : Type 0 where
  pub heads :
      (id : Text) (b : Branch)
      → get id l.branches ≡ some b
      → (q : Revision) × (get b.head_revision l.revisions ≡ some q)
  pub stored :
      (id : Text) (r : Revision) → get id l.revisions ≡ some r → Stored l.revisions l.sequence id r
  pub pending :
      (id : Text) (c : Candidate) → get id l.candidates ≡ some c → Pending l.revisions l.sequence c
  pub distinct :
      (i j : Text) (c d : Candidate)
      → get i l.candidates ≡ some c
      → get j l.candidates ≡ some d
      → c.sequence ≡ d.sequence
      → i ≡ j
