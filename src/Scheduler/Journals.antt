-- ===== src/Scheduler/Journals.antt =====
-- Proofs about the transaction of Recover, internal/scheduler/recover.go, that settles the journal of
-- a promotion.
use scp_harness.Base.{
  ◌≡◌, ◌≢◌, refl, ap, sym, subst, ◌∙◌, none, some, lookup, insert, erase, lookup-insert_self,
  lookup-erase, ok, ◌==◌, ==_iff, deref, deref-ok, Yields, Yields-ok, Yields-bind, arith,
  Option-cases, Bool-cases, inl, inr,
}
use scp_harness.Model.{
  Key, State, Task, Artifact, Change, ChangeState, Stage, Journal, JournalState, Message,
  set_change, audit, touch,
}
use scp_harness.Core.{set_change_now}
use scp_harness.Core.Promoting.{touch-frame, touch-sha}
use scp_harness.Scheduler.Reconciliation.{
  outcome_of, outcome_name, rebase_applied, resume_change, reconcile_in,
}

-- What the promotion came to, by where the ref of the journal points.
pub data Settles (j : Journal) (sha : Key) : JournalState → Type 0 where
  moved : sha ≡ j.new_sha → Settles j sha JournalState.applied
  unmoved : sha ≢ j.new_sha → sha ≡ j.old_sha → Settles j sha JournalState.not_applied
  elsewhere : sha ≢ j.new_sha → sha ≢ j.old_sha → Settles j sha JournalState.conflict

-- Where the Change goes: it is done, it waits for another promotion, or its base is not the ref's.
pub data Follows (ch n : Change) : JournalState → Type 0 where
  finishes :
      n.stage ≡ Stage.promotion → n.state ≡ ChangeState.done → Follows ch n JournalState.applied
  waits :
      n.stage ≡ Stage.await_promotion
      → n.state ≡ ChangeState.queued
      → Follows ch n JournalState.not_applied
  falls_behind :
      n.stage ≡ ch.stage
      → n.state ≡ ChangeState.stale
      → n.reason ≡ "BASE_CHANGED"
      → Follows ch n JournalState.conflict

-- The SHA of the task moves with the ref alone.
abbrev pub sha_after : JournalState → Journal → Task → Key
sha_after JournalState.applied j t = j.new_sha
sha_after _ j t = t.sha

pub record Reconciled (j : Journal) (sha : Key) (s s' : State) : Type 0 where
  pub outcome : JournalState
  pub settles : Settles j sha outcome
  pub journal : Journal
  pub was_stored : lookup j.id s.journals ≡ some journal
  pub recorded : lookup j.id s'.journals ≡ some (record journal { state = outcome })
  pub artifact : Artifact
  pub promotes : lookup j.artifact_id s.artifacts ≡ some artifact
  pub follows :
      (ch : Change)
      → lookup artifact.change_id s.changes ≡ some ch
      → (n : Change) × (lookup artifact.change_id s'.changes ≡ some n) × Follows ch n outcome
  pub rebased :
      (t : Task)
      → lookup j.task_id s.tasks ≡ some t
      → (t' : Task) × (lookup j.task_id s'.tasks ≡ some t') × (t'.sha ≡ sha_after outcome j t)
  pub idle : lookup j.task_id s'.pending ≡ none

pub outcome_of-Settles : (j : Journal) (sha : Key) → Settles j sha (outcome_of sha j)
outcome_of-Settles j sha = elim (Bool-cases (sha == j.new_sha)) [
  | inl new ↦ rw (outcome_of, new) (Settles.moved (ground (arith, ==_iff sha j.new_sha)))
  | inr other ↦ elim (Bool-cases (sha == j.old_sha)) [
    | inl old ↦
        rw (outcome_of, other, old)
          (Settles.unmoved (ground (arith, ==_iff sha j.new_sha))
            (ground (arith, ==_iff sha j.old_sha)))
    | inr neither ↦
        rw (outcome_of, other, neither)
          (Settles.elsewhere (ground (arith, ==_iff sha j.new_sha))
            (ground (arith, ==_iff sha j.old_sha)))
  ]
]

-- What the first part of the transaction leaves: the tasks differ by the SHA of one.
record Based (x : JournalState) (j : Journal) (s s' : State) : Type 0 where
  journals : s'.journals ≡ s.journals
  changes : s'.changes ≡ s.changes
  artifacts : s'.artifacts ≡ s.artifacts
  task :
      (t : Task)
      → lookup j.task_id s.tasks ≡ some t
      → (t' : Task) × (lookup j.task_id s'.tasks ≡ some t') × (t'.sha ≡ sha_after x j t)

rebase_applied-Based :
    (j : Journal) (sha : Key) (x : JournalState) (s : State)
    → Settles j sha x
    → Yields (Based x j s) (rebase_applied x j.task_id j.new_sha s)
unfolding rebase_applied
rebase_applied-Based j sha _ s (Settles.moved e) =
    Yields-bind (Based JournalState.applied j s) (deref (lookup j.task_id s.tasks)) _ λ t et.
      let t' : Task = record t { sha = j.new_sha } in
      Yields-ok (Based JournalState.applied j s) _ (record {
        journals = refl;
        changes = refl;
        artifacts = refl;
        task = λ u eu. (t', lookup-insert_self j.task_id t' s.tasks, refl);
      })
rebase_applied-Based j sha _ s (Settles.unmoved e e') =
    Yields-ok (Based JournalState.not_applied j s) s
      (record { journals = refl; changes = refl; artifacts = refl; task = λ t et. (t, et, refl) })
rebase_applied-Based j sha _ s (Settles.elsewhere e e') =
    Yields-ok (Based JournalState.conflict j s) s
      (record { journals = refl; changes = refl; artifacts = refl; task = λ t et. (t, et, refl) })

resume_change-Follows :
    (j : Journal) (sha : Key) (x : JournalState) (k : Key) (ch : Change) (s : State)
    → Settles j sha x
    → ((resume_change x k ch s).journals ≡ s.journals)
      × ((resume_change x k ch s).tasks ≡ s.tasks)
      × ((n : Change) × (lookup k (resume_change x k ch s).changes ≡ some n) × Follows ch n x)
unfolding resume_change set_change_now set_change
resume_change-Follows j sha _ k ch s (Settles.moved e) =
    (refl, refl, (_, lookup-insert_self k _ s.changes, Follows.finishes refl refl))
resume_change-Follows j sha _ k ch s (Settles.unmoved e e') =
    (refl, refl, (_, lookup-insert_self k _ s.changes, Follows.waits refl refl))
resume_change-Follows j sha _ k ch s (Settles.elsewhere e e') =
    (refl, refl, (_, lookup-insert_self k _ s.changes, Follows.falls_behind refl refl refl))

-- The part of the transaction that moves the Change, if the artifact has one.
abbrev resumed : JournalState → Key → State → State
resumed x k s = elim (lookup k s.changes) [ none ↦ s | some ch ↦ resume_change x k ch s ]

resumed-Follows :
    (j : Journal) (sha : Key) (x : JournalState) (k : Key) (s : State)
    → Settles j sha x
    → ((resumed x k s).journals ≡ s.journals)
      × ((resumed x k s).tasks ≡ s.tasks)
      × ((ch : Change)
          → lookup k s.changes ≡ some ch
          → (n : Change) × (lookup k (resumed x k s).changes ≡ some n) × Follows ch n x)
resumed-Follows j sha x k s h = elim (Option-cases (lookup k s.changes)) [
  | inl missing ↦ rw (resumed, missing) (refl, refl, λ ch e. absurd (ground arith))
  | inr (c, ec) ↦
      let (ej, et, (n, en, f)) = resume_change-Follows j sha x k c s h in
      rw (resumed, ec) (ej, et, λ ch e. (n, en, subst (λ z. Follows z n x) (ground arith) f))
]

touch-pending : (k : Key) (s : State) → (touch k s).pending ≡ s.pending
unfolding touch
touch-pending k s = ground arith

reconcile_in-Yields :
    (j : Journal) (sha : Key) (x : JournalState) (s : State)
    → Settles j sha x
    → Yields (λ r. Reconciled j sha s r.1) (reconcile_in j x s)
unfolding reconcile_in audit
reconcile_in-Yields j sha x s h =
    let P : Unit {0} × State → Type 0 = λ r. Reconciled j sha s r.1 in
    Yields-bind P (deref (lookup j.id s.journals)) _ λ stored es.
      let j' : Journal = record stored { state = x } in
      let s1 : State = record s { journals = insert j.id j' s.journals } in
      Yields-bind P (rebase_applied x j.task_id j.new_sha s1) _ λ s2 e2.
        let b : Based x j s1 s2 = rebase_applied-Based j sha x s1 h s2 e2 in
        Yields-bind P (deref (lookup j.artifact_id s2.artifacts)) _ λ a ea.
          let s3 : State = resumed x a.change_id s2 in
          let (ej, et, follows) = resumed-Follows j sha x a.change_id s2 h in
          let s4 : State =
            audit j.task_id "PROMOTION_RECOVERED" (Message.words (outcome_name x))
              (record s3 { pending = erase j.task_id s3.pending }) in
          let (tj, tc, ts) = touch-frame j.task_id s4 in
          Yields-ok P (tt, touch j.task_id s4)
            (record {
              outcome = x;
              settles = h;
              journal = stored;
              was_stored = deref-ok (lookup j.id s.journals) es;
              recorded =
                  ap (lookup j.id) (tj ∙ ej ∙ b.journals) ∙ lookup-insert_self j.id j' s.journals;
              artifact = a;
              promotes =
                  ap (lookup j.artifact_id) (sym b.artifacts)
                  ∙ deref-ok (lookup j.artifact_id s2.artifacts) ea;
              follows = λ ch ech.
                  let (n, en, f) = follows ch (ap (lookup a.change_id) b.changes ∙ ech) in
                  (n, ap (lookup a.change_id) tc ∙ en, f);
              rebased = λ t e.
                  let (t1, e1, q1) = b.task t e in
                  let (t2, e2, q2) =
                    touch-sha j.task_id s4 {t = t1} (ap (lookup j.task_id) et ∙ e1) in
                  (t2, e2, q2 ∙ q1);
              idle =
                  ap (lookup j.task_id) (touch-pending j.task_id s4)
                  ∙ ground (arith, lookup-erase j.task_id j.task_id s3.pending);
            })

-- When the transaction of Recover that settles a journal succeeds with the outcome that Recover
-- reads off the ref's `sha`, the outcome is APPLIED if `sha` is the journal's new SHA, NOT_APPLIED
-- if it is the old one, and CONFLICT otherwise; the journal is stored with it; the Change of its
-- artifact, if there is one, is DONE at PROMOTION, QUEUED at AWAIT_PROMOTION, or STALE at its
-- stage, in this order; the SHA of the task is the new one if the outcome is APPLIED, and as it
-- was otherwise; and nothing is pending for the task.
pub reconcile_in-Reconciled :
    (j : Journal) (sha : Key) (s : State) {s' : State}
    → reconcile_in j (outcome_of sha j) s ≡ ok (tt, s')
    → Reconciled j sha s s'
reconcile_in-Reconciled j sha s e =
    reconcile_in-Yields j sha (outcome_of sha j) s (outcome_of-Settles j sha) _ e
