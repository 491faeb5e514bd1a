-- ===== src/Store/Histories.antt =====
-- Proofs about sequences of calls of Update of internal/store/store.go: changes, claims,
-- artifacts.
use scp_harness.Base.{
  ℕ, ◌≡◌, refl, ap, sym, ◌∙◌, Bool, true, some, Map, lookup, all_entries, all_entries-lookup, holds,
  holds-some, Result, ok, err, panic, Code, arith, ==_iff,
}
use scp_harness.Model.{
  Key, State, Blocker, ids_discrete, terminal_state, Claim, Artifact, Change, same, same-eq,
  terminal, Claim-discrete, Artifact-discrete, Stage-discrete, ChangeState-discrete,
}
use scp_harness.Ledger.{refresh}
use scp_harness.Ledger.Soundness.{refresh-frame}
use scp_harness.Store.Immutability.{immutable, changes_kept, change_kept, option_kept}
use scp_harness.Store.Transaction.{Disk, update, upserted}
use scp_harness.Store.Commits.{AfterFailure, unchanged, blocked, Ends, update-Ends, validate-ok}

-- The states that calls lead to, whatever each of them does and however the disk answers it.
pub data Reach (db : State) : State → Type 1 where
  start : Reach db db
  call :
      {A : Type 0} {s : State} (disk : Disk) (fn : State → Result (A × State))
      → Reach db s
      → Reach db (update disk fn s).1

-- The records of a part of the state stay, up to what may change of one.
abbrev pub Persist : {V : Type 0} → (State → Map V) → (V → V → Type 0) → State → State → Type 0
Persist {V} part Kept before after =
    (k : Key) (v : V)
    → lookup k (part before) ≡ some v
    → (w : V) × (lookup k (part after) ≡ some w) × Kept v w

module _ {V : Type 0} (part : State → Map V) (Kept : V → V → Type 0) (whole : (v : V) → Kept v v)
    (again : (u v w : V) → Kept u v → Kept v w → Kept u w)
    (refreshed : (s s' : State) → refresh s ≡ ok s' → Persist part Kept s s')
    (compared : (s s' : State) → immutable s s' ≡ true → Persist part Kept s s')
    (unblocked : (s s' : State) (code : Code) → AfterFailure s code s' → part s' ≡ part s)
    (stored : (l s : State) → part (upserted l s) ≡ part s) where
  Persist-trans :
      (s s' s'' : State)
      → Persist part Kept s s'
      → Persist part Kept s' s''
      → Persist part Kept s s''
  Persist-trans s s' s'' f g k v e =
      let (w, ew, r) = f k v e in let (x, ex, r') = g k w ew in (x, ex, again v w x r r')

  Ends-Persist :
      {A : Type 0} (fn : State → Result (A × State)) (db : State) (r : Result A) (after : State)
      → Ends fn db (r, after)
      → Persist part Kept db after
  Ends-Persist fn db (ok a) after c =
      let (_, e, _) = validate-ok db c.valid_before in
      let same : part after ≡ part c.checked = ap part c.stored ∙ stored c.loaded c.checked in
      λ k v el.
        let (w, ew, r) =
          Persist-trans db c.loaded c.checked (refreshed db c.loaded e)
            (compared c.loaded c.checked c.kept) k v el in
        (w, ap (lookup k) same ∙ ew, r)
  Ends-Persist fn db (err code) after h =
      λ k v e. (v, ap (lookup k) (unblocked db after code h) ∙ e, whole v)
  Ends-Persist fn db panic after h =
      λ k v e. (v, ap (λ (s : State). lookup k (part s)) h ∙ e, whole v)

  pub Reach-Persist : (db : State) {db' : State} → Reach db db' → Persist part Kept db db'
  Reach-Persist db start = λ k v e. (v, e, whole v)
  Reach-Persist db (call {s = s} disk fn h) =
      Persist-trans db s (update disk fn s).1 (Reach-Persist db h)
        (Ends-Persist fn s (update disk fn s).0 (update disk fn s).1 (update-Ends disk fn s))

-- The parts that a refresh and an emergency blocker leave alone.
pub unblocked_part :
    {V : Type 0} (part : State → Map V)
    → ((s : State) (bs : Map Blocker) (n : ℕ)
        → part (record s { blockers = bs; draws = n }) ≡ part s)
    → (s s' : State) (code : Code) → AfterFailure s code s'
    → part s' ≡ part s
unblocked_part part f s s' code (unchanged e) = ap part (sym e)
unblocked_part part f s s' code (blocked five fresh e) = ap part e ∙ f s _ _

pub compared_entry :
    {V : Type 0} (keeps : V → V → Bool) (k : Key) (v : V) (m m' : Map V)
    → all_entries (λ id old. holds (keeps old) (lookup id m')) m ≡ true
    → lookup k m ≡ some v
    → (w : V) × (lookup k m' ≡ some w) × (keeps v w ≡ true)
compared_entry keeps k v m m' h e =
    holds-some (keeps v) (lookup k m')
      (all_entries-lookup (λ id old. holds (keeps old) (lookup id m')) k {v = v} m h e)

-- What the comparison of two states says, part by part.
pub immutable-parts :
    (s s' : State)
    → immutable s s' ≡ true
    → (all_entries (λ id old. holds (change_kept old) (lookup id s'.changes)) s.changes ≡ true)
      × (all_entries (λ id old. holds (option_kept old) (lookup id s'.options)) s.options ≡ true)
      × (all_entries
            (λ id old. holds (same Artifact-discrete old) (lookup id s'.artifacts))
            s.artifacts
          ≡ true)
      × (all_entries (λ id old. holds (same Claim-discrete old) (lookup id s'.claims)) s.claims
          ≡ true)
unfolding immutable changes_kept
immutable-parts s s' h = (ground arith, ground arith, ground arith, ground arith)

-- Through any sequence of calls of Update, whatever each does and however the disk answers, a
-- Claim that is stored stays stored, unaltered.
pub claims_persist :
    (db : State) {db' : State} (k : Key) (c : Claim)
    → Reach db db'
    → lookup k db.claims ≡ some c
    → lookup k db'.claims ≡ some c
claims_persist db {db'} k c h e =
    let (d, ed, r) =
      Reach-Persist (λ (s : State). s.claims) (λ a b. a ≡ b) (λ a. refl) (λ a b c p q. p ∙ q)
        (λ s s' e k v el.
          let (ts, frame) = refresh-frame s e in
          (v, ap (λ (x : State). lookup k x.claims) frame ∙ el, refl))
        (λ s s' kept k v el.
          let (w, ew, eq) =
            compared_entry (same Claim-discrete) k v s.claims s'.claims
              (immutable-parts s s' kept).3 el in
          (w, ew, same-eq Claim-discrete v w eq))
        (unblocked_part (λ (s : State). s.claims) (λ s bs n. refl)) (λ l s. refl) db h k c e in
    ed ∙ ap some (sym r)

-- Through any sequence of calls of Update, whatever each does and however the disk answers, an
-- Artifact that is stored stays stored, unaltered.
pub artifacts_persist :
    (db : State) {db' : State} (k : Key) (a : Artifact)
    → Reach db db'
    → lookup k db.artifacts ≡ some a
    → lookup k db'.artifacts ≡ some a
artifacts_persist db {db'} k a h e =
    let (d, ed, r) =
      Reach-Persist (λ (s : State). s.artifacts) (λ a b. a ≡ b) (λ a. refl) (λ a b c p q. p ∙ q)
        (λ s s' e k v el.
          let (ts, frame) = refresh-frame s e in
          (v, ap (λ (x : State). lookup k x.artifacts) frame ∙ el, refl))
        (λ s s' kept k v el.
          let (w, ew, eq) =
            compared_entry (same Artifact-discrete) k v s.artifacts s'.artifacts
              (immutable-parts s s' kept).2 el in
          (w, ew, same-eq Artifact-discrete v w eq))
        (unblocked_part (λ (s : State). s.artifacts) (λ s bs n. refl)) (λ l s. refl) db h k a e in
    ed ∙ ap some (sym r)

-- What may not change of a Change: what it is about, and where it ended.
pub record ChangeKept (old n : Change) : Type 0 where
  pub id : n.id ≡ old.id
  pub task_id : n.task_id ≡ old.task_id
  pub option_id : n.option_id ≡ old.option_id
  pub base_sha : n.base_sha ≡ old.base_sha
  pub objective : n.objective ≡ old.objective
  pub created : n.created ≡ old.created
  pub ended : terminal old ≡ true → (n.stage ≡ old.stage) × (n.state ≡ old.state)

change_kept-ChangeKept : (old n : Change) → change_kept old n ≡ true → ChangeKept old n
unfolding change_kept
change_kept-ChangeKept old n h = record {
  id = ground (arith, ==_iff old.id n.id);
  task_id = ground (arith, ==_iff old.task_id n.task_id);
  option_id = ground (arith, ==_iff old.option_id n.option_id);
  base_sha = ground (arith, ==_iff old.base_sha n.base_sha);
  objective = ground (arith, same-eq ids_discrete old.objective n.objective);
  created = ground (arith, ==_iff old.created n.created);
  ended = λ t. (
    ground (arith, same-eq Stage-discrete old.stage n.stage),
    ground (arith, same-eq ChangeState-discrete old.state n.state),
  );
}

ChangeKept-refl : (ch : Change) → ChangeKept ch ch
ChangeKept-refl ch = record {
  id = refl;
  task_id = refl;
  option_id = refl;
  base_sha = refl;
  objective = refl;
  created = refl;
  ended = λ t. (refl, refl);
}

ChangeKept-trans : (a b c : Change) → ChangeKept a b → ChangeKept b c → ChangeKept a c
ChangeKept-trans a b c f g = record {
  id = g.id ∙ f.id;
  task_id = g.task_id ∙ f.task_id;
  option_id = g.option_id ∙ f.option_id;
  base_sha = g.base_sha ∙ f.base_sha;
  objective = g.objective ∙ f.objective;
  created = g.created ∙ f.created;
  ended = λ t.
      let (stage, state) = f.ended t in
      let (stage', state') = g.ended (ap terminal_state state ∙ t) in
      (stage' ∙ stage, state' ∙ state);
}

-- Through any sequence of calls of Update, whatever each does and however the disk answers, a
-- Change is never lost and keeps its id, task, Option, base, objective and time of creation; once
-- it is DONE or ABORTED it keeps its stage and its state.
pub changes_persist :
    (db : State) {db' : State} (k : Key) (ch : Change)
    → Reach db db'
    → lookup k db.changes ≡ some ch
    → (ch' : Change) × (lookup k db'.changes ≡ some ch') × ChangeKept ch ch'
changes_persist db k ch h e =
    Reach-Persist (λ (s : State). s.changes) ChangeKept ChangeKept-refl ChangeKept-trans
      (λ s s' e k v el.
        let (ts, frame) = refresh-frame s e in
        (v, ap (λ (x : State). lookup k x.changes) frame ∙ el, ChangeKept-refl v))
      (λ s s' kept k v el.
        let (w, ew, eq) =
          compared_entry change_kept k v s.changes s'.changes (immutable-parts s s' kept).0 el in
        (w, ew, change_kept-ChangeKept v w eq))
      (unblocked_part (λ (s : State). s.changes) (λ s bs n. refl)) (λ l s. refl) db h k ch e
