-- ===== src/Scheduler/Promotions.antt =====
-- promote of internal/scheduler/scheduler.go.
use scp_harness.Base.{
  Bool, false, not, ◌||◌, lookup, insert, Result, ok, err, Code, ◌>>=◌, ◌>>◌, fail_if, deref,
  or_fail, ◌==◌, if◌then◌else◌,
}
use scp_harness.Model.{
  Key, Time, State, Task, Step, Change, ChangeState, Stage, Artifact, Journal, JournalState,
  Message, is_promotion, is_running, audit, same, Code-discrete,
}
use scp_harness.Store.{Disk, read, update}
use scp_harness.Core.{
  apply_promotion, core_update, end_promotion, prepare_promotion, promotion_evidence,
  set_change_now,
}
use scp_harness.Scheduler.Recovery.{and_then, asking}

-- What the machine answers while promote runs: the task's gate, the first error of the tree, the
-- commit that is built, the id and the time of the journal, and the update of the ref.
pub record Promoter : Type 0 where
  pub gate : Result (Unit {0})
  pub tree : Result (Unit {0})
  pub construct : Result Key
  pub journal_id : Key
  pub journal_time : Time
  pub swap : Result (Unit {0})

-- The Change that is promoted must hold the gate.
unfoldable pub promoted_change : Step → State → Result (Artifact × Change)
promoted_change p s = do
  a ← or_fail (lookup p.target_id s.artifacts) Code.core_inconsistent
  fail_if (p.change_id == 0) Code.core_inconsistent
  ch ← deref (lookup p.change_id s.changes)
  fail_if (not (is_promotion ch.stage) || not (is_running ch.state)) Code.core_inconsistent
  ok (a, ch)

-- The evidence was overtaken: the Change waits for an operator.
unfoldable pub refuse_promotion_in : Step → State → Result (Unit {0} × State)
refuse_promotion_in p s = do
  ch ← deref (lookup p.change_id s.changes)
  ok (
    tt,
    audit p.task_id "CHANGE_EVIDENCE_CHANGED" (Message.about p.change_id)
        (set_change_now p.change_id ch Stage.review ChangeState.blocked "CI_OR_REVIEW_CHANGED" s),
  )

unfoldable pub conflict_in : Key → State → Result (Unit {0} × State)
conflict_in id s = do
  j ← deref (lookup id s.journals)
  let j' : Journal = record j { state = JournalState.conflict }
  ok (tt, record s { journals = insert id j' s.journals })

abbrev pub is_outdated : Result (Unit {0}) → Bool
is_outdated (err c) = same Code-discrete c Code.precondition_changed
is_outdated _ = false

abbrev pub without_value : {A : Type 0} → Result A → Result (Unit {0})
without_value r = r >>= λ a. ok tt

abbrev pub journal_of : Promoter → Task → Artifact → Key → Journal
journal_of m t a sha = record {
  id = m.journal_id;
  task_id = t.id;
  artifact_id = a.id;
  ref = t.repo_ref;
  old_sha = a.base_sha;
  new_sha = sha;
  state = JournalState.prepared;
  created = m.journal_time;
}

-- The end of promote: the ref is moved, or somebody else moved it.
unfoldable pub swap_ref : Disk → Promoter → Step → Key → State → Result (Unit {0}) × State
swap_ref disk m p id db =
    if is_outdated m.swap
    then (and_then (update disk (conflict_in id) db)
        λ _ db1. end_promotion disk p 0 "PRECONDITION_CHANGED" db1)
    else asking m.swap db λ _. apply_promotion disk id db

unfoldable pub promote : Disk → Promoter → Step → State → Result (Unit {0}) × State
promote disk m p db = asking m.gate db λ _. asking (read disk db) db λ s.
    asking (promoted_change p s) db λ found.
      if not (promotion_evidence found.1 s)
      then core_update disk (refuse_promotion_in p) db
      else asking m.tree db λ _. asking (deref (lookup p.task_id s.tasks)) db λ t.
        if is_outdated (without_value m.construct)
        then end_promotion disk p 0 "PRECONDITION_CHANGED" db
        else asking m.construct db λ sha.
          let j : Journal = journal_of m t found.0 sha in
          and_then (prepare_promotion disk j db) λ _ db1. swap_ref disk m p j.id db1
