-- ===== src/Scheduler/Swaps.antt =====
-- Proofs about a promotion whose ref has been moved: ApplyPromotion of internal/core/promotion.go and
-- Recover of internal/scheduler/recover.go both go through, and agree.
use scp_harness.Base.{
  ◌≡◌, refl, ap, sym, subst, ◌∙◌, true, some, lookup, insert, Result, ok, Code, arith, ◌>>=◌,
  or_fail, deref, fail_if, not, Option, Option-cases, inl, inr,
}
use scp_harness.Model.{
  Key, State, Task, Artifact, Change, ChangeState, Stage, Journal, JournalState, is_prepared, touch,
}
use scp_harness.Core.{prepare_promotion_in, apply_promotion_in}
use scp_harness.Core.Promoting.{
  Promoted, apply_promotion_in-Promoted, prepare_promotion_in-ok, touch-frame, touch-sha,
}
use scp_harness.Scheduler.Reconciliation.{outcome_of, rebase_applied, reconcile_in}
use scp_harness.Scheduler.Journals.{
  Reconciled, reconcile_in-Reconciled, Settles, Follows, sha_after, outcome_of-Settles,
}

-- What was there before PreparePromotion is there after it, and so is the journal.
record Ready (j : Journal) (s1 : State) : Type 0 where
  artifact : Artifact
  change : Change
  task : Task
  stored : lookup j.id s1.journals ≡ some j
  promotes : lookup j.artifact_id s1.artifacts ≡ some artifact
  changes : lookup artifact.change_id s1.changes ≡ some change
  owned : lookup j.task_id s1.tasks ≡ some task

-- A call goes through if its first part does, and the rest after it.
abbrev Succeeds : {A : Type 0} → Result A → Type 0
Succeeds {A} call = (v : A) × (call ≡ ok v)

then-Succeeds :
    {A B : Type 0} (call : Result A) (next : A → Result B) (x : A)
    → call ≡ ok x
    → Succeeds (next x)
    → Succeeds (call >>= next)
then-Succeeds call next x e (v, h) = (v, rw e h)

found-Succeeds :
    {A B : Type 0} (o : Option A) (c : Code) (next : A → Result B) (x : A)
    → o ≡ some x
    → Succeeds (next x)
    → Succeeds (or_fail o c >>= next)
found-Succeeds o c next x e h = then-Succeeds (or_fail o c) next x (ap (λ o. or_fail o c) e) h

deref-Succeeds :
    {A B : Type 0} (o : Option A) (next : A → Result B) (x : A)
    → o ≡ some x
    → Succeeds (next x)
    → Succeeds (deref o >>= next)
deref-Succeeds o next x e h = then-Succeeds (deref o) next x (ap deref e) h

apply-Succeeds :
    (j : Journal) (s1 : State)
    → is_prepared j.state ≡ true
    → Ready j s1
    → Succeeds (apply_promotion_in j.id s1)
unfolding apply_promotion_in
apply-Succeeds j s1 waits h =
    let inconsistent : Code = Code.core_inconsistent in
    found-Succeeds (lookup j.id s1.journals) inconsistent _ j h.stored (
      then-Succeeds (fail_if (not (is_prepared j.state)) inconsistent) _ tt
        (ap (λ b. fail_if (not b) inconsistent) waits)
        (deref-Succeeds (lookup j.artifact_id s1.artifacts) _ h.artifact h.promotes (
          found-Succeeds (lookup h.artifact.change_id s1.changes) inconsistent _ h.change h.changes
            (deref-Succeeds (lookup j.task_id s1.tasks) _ h.task h.owned (_, refl)))))

reconcile-Succeeds :
    (j : Journal) (s1 : State) → Ready j s1 → Succeeds (reconcile_in j JournalState.applied s1)
unfolding reconcile_in rebase_applied
reconcile-Succeeds j s1 h =
    let t' : Task = record h.task { sha = j.new_sha } in
    let j' : Journal = record j { state = JournalState.applied } in
    let written : State = record s1 { journals = insert j.id j' s1.journals } in
    let based : State = record written { tasks = insert j.task_id t' s1.tasks } in
    deref-Succeeds (lookup j.id s1.journals) _ j h.stored (
      then-Succeeds (rebase_applied JournalState.applied j.task_id j.new_sha written) _ based
        (ap
          (λ o. deref o >>= (λ t.
            ok (record written {
              tasks = insert j.task_id (record t { sha = j.new_sha }) s1.tasks;
            })))
          h.owned)
        (deref-Succeeds (lookup j.artifact_id s1.artifacts) _ h.artifact h.promotes (_, refl)))

-- What both leave of a journal, of its Change and of the SHA of its task.
pub record Promotes (j : Journal) (a : Artifact) (s : State) : Type 0 where
  pub applied : lookup j.id s.journals ≡ some (record j { state = JournalState.applied })
  pub change : Change
  pub changed : lookup a.change_id s.changes ≡ some change
  pub at_promotion : change.stage ≡ Stage.promotion
  pub done : change.state ≡ ChangeState.done
  pub task : Task
  pub owned : lookup j.task_id s.tasks ≡ some task
  pub rebased : task.sha ≡ j.new_sha

same_found : {A : Type 0} {x y : A} (o : Option A) → o ≡ some x → o ≡ some y → x ≡ y
same_found o h g = ground (arith, h, g)

apply-Promotes :
    (j : Journal) (s1 s2 : State) (h : Ready j s1) → Promoted j.id s1 s2 → Promotes j h.artifact s2
apply-Promotes j s1 s2 h p =
    let ej : p.journal ≡ j = same_found (lookup j.id s1.journals) p.was_stored h.stored in
    let ea : p.artifact ≡ h.artifact =
      same_found (lookup j.artifact_id s1.artifacts)
        (subst (λ (k : Journal). lookup k.artifact_id s1.artifacts ≡ some p.artifact) ej p.promotes)
        h.promotes in
    record {
      applied =
          subst
            (λ (k : Journal).
              lookup j.id s2.journals ≡ some (record k { state = JournalState.applied }))
            ej p.applied;
      change = p.change;
      changed =
          subst (λ (a : Artifact). lookup a.change_id s2.changes ≡ some p.change) ea p.changed;
      at_promotion = p.at_promotion;
      done = p.done;
      task = p.task;
      owned = subst (λ (k : Journal). lookup k.task_id s2.tasks ≡ some p.task) ej p.stored;
      rebased = subst (λ (k : Journal). p.task.sha ≡ k.new_sha) ej p.rebased;
    }

moved-applied : (j : Journal) (x : JournalState) → Settles j j.new_sha x → x ≡ JournalState.applied
moved-applied j _ (Settles.moved e) = refl
moved-applied j _ (Settles.unmoved ne e) = absurd (ne refl)
moved-applied j _ (Settles.elsewhere ne e) = absurd (ne refl)

finished :
    (ch n : Change)
    → Follows ch n JournalState.applied
    → (n.stage ≡ Stage.promotion) × (n.state ≡ ChangeState.done)
finished ch n (Follows.finishes stage state) = (stage, state)

reconcile-Promotes :
    (j : Journal) (s1 s3 : State) (h : Ready j s1)
    → Reconciled j j.new_sha s1 s3
    → Promotes j h.artifact s3
reconcile-Promotes j s1 s3 h p =
    let is : p.outcome ≡ JournalState.applied = moved-applied j p.outcome p.settles in
    let ej : p.journal ≡ j = same_found (lookup j.id s1.journals) p.was_stored h.stored in
    let ea : p.artifact ≡ h.artifact =
      same_found (lookup j.artifact_id s1.artifacts) p.promotes h.promotes in
    let (n, en, follows) = p.follows h.change (
      subst (λ (a : Artifact). lookup a.change_id s1.changes ≡ some h.change) (sym ea) h.changes) in
    let (stage, state) = finished h.change n (subst (Follows h.change n) is follows) in
    let (t, et, sha) = p.rebased h.task h.owned in
    record {
      applied =
          p.recorded
          ∙ ap (λ (k : Journal). some (record k { state = p.outcome })) ej
          ∙ ap (λ x. some (record j { state = x })) is;
      change = n;
      changed = subst (λ (a : Artifact). lookup a.change_id s3.changes ≡ some n) ea en;
      at_promotion = stage;
      done = state;
      task = t;
      owned = et;
      rebased = sha ∙ ap (λ x. sha_after x j h.task) is;
    }

touch-artifacts : (k id : Key) (s : State) → lookup id (touch k s).artifacts ≡ lookup id s.artifacts
unfolding touch
touch-artifacts k id s = ground arith

prepare_promotion_in-after :
    (j : Journal) (s : State) {s1 : State}
    → prepare_promotion_in j s ≡ ok (tt, s1)
    → s1 ≡ touch j.task_id (record s { journals = insert j.id j s.journals })
unfolding prepare_promotion_in
prepare_promotion_in-after j s {s1} e = elim (Option-cases (lookup j.artifact_id s.artifacts)) [
  | inl missing ↦ absurd (ground arith)
  | inr (a, ea) ↦ ground arith
]

prepare-Ready :
    (j : Journal) (t : Task) (s : State) {s1 : State}
    → lookup j.task_id s.tasks ≡ some t
    → prepare_promotion_in j s ≡ ok (tt, s1)
    → Ready j s1
prepare-Ready j t s {s1} et e =
    let (a, ch, ea, ech, _, _, _, _, _, stored) = prepare_promotion_in-ok j s e in
    let after : s1 ≡ touch j.task_id (record s { journals = insert j.id j s.journals }) =
      prepare_promotion_in-after j s e in
    let written : State = record s { journals = insert j.id j s.journals } in
    let (t', et', _) = touch-sha j.task_id written {t = t} et in
    record {
      artifact = a;
      change = ch;
      task = t';
      stored = stored;
      promotes =
          ap (λ (x : State). lookup j.artifact_id x.artifacts) after
          ∙ touch-artifacts j.task_id j.artifact_id written
          ∙ ea;
      changes =
          ap (λ (x : State). lookup a.change_id x.changes) after
          ∙ ap (lookup a.change_id) (touch-frame j.task_id written).1
          ∙ ech;
      owned = ap (λ (x : State). lookup j.task_id x.tasks) after ∙ et';
    }

prepared_artifact :
    (j : Journal) (s : State) {s1 : State}
    → prepare_promotion_in j s ≡ ok (tt, s1)
    → (h : Ready j s1) → lookup j.artifact_id s.artifacts ≡ some h.artifact
prepared_artifact j s {s1} e h =
    let written : State = record s { journals = insert j.id j s.journals } in
    sym (touch-artifacts j.task_id j.artifact_id written)
    ∙ ap (λ (x : State). lookup j.artifact_id x.artifacts) (sym (prepare_promotion_in-after j s e))
    ∙ h.promotes

-- After PreparePromotion has stored a prepared journal of a task that is there, ApplyPromotion
-- goes through; and if the core stops before, the transaction of Recover goes through that settles
-- the journal for a ref at its new SHA. Both leave the journal APPLIED, the Change of its artifact
-- DONE at the stage PROMOTION and the task at the new SHA.
pub prepared_settles :
    (j : Journal) (t : Task) (s : State) {s1 : State}
    → is_prepared j.state ≡ true
    → lookup j.task_id s.tasks ≡ some t
    → prepare_promotion_in j s ≡ ok (tt, s1)
    → (a : Artifact) × (s2 : State) × (s3 : State) × (lookup j.artifact_id s.artifacts ≡ some a)
      × (apply_promotion_in j.id s1 ≡ ok (tt, s2))
      × (reconcile_in j (outcome_of j.new_sha j) s1 ≡ ok (tt, s3))
      × Promotes j a s2
      × Promotes j a s3
prepared_settles j t s {s1} waits et e =
    let h : Ready j s1 = prepare-Ready j t s et e in
    let ((_, s2), applies) = apply-Succeeds j s1 waits h in
    let ((_, s3), settles) = reconcile-Succeeds j s1 h in
    let is : outcome_of j.new_sha j ≡ JournalState.applied =
      moved-applied j _ (outcome_of-Settles j j.new_sha) in
    let recovers : reconcile_in j (outcome_of j.new_sha j) s1 ≡ ok (tt, s3) =
      ap (λ x. reconcile_in j x s1) is ∙ settles in
    (
      h.artifact,
      s2,
      s3,
      prepared_artifact j s e h,
      applies,
      recovers,
      apply-Promotes j s1 s2 h (apply_promotion_in-Promoted j.id s1 applies),
      reconcile-Promotes j s1 s3 h (reconcile_in-Reconciled j j.new_sha s1 recovers),
    )
