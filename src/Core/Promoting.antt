-- ===== src/Core/Promoting.antt =====
-- Proofs about PreparePromotion and ApplyPromotion of internal/core/promotion.go.
use scp_harness.Base.{
  add64, pos, Yields, Yields-ok, Yields-bind, ◌≡◌, refl, ap, sym, ◌∙◌, true, false, not, none, some,
  lookup, insert, lookup-insert_self, lookup-insert, ok, Code, fail_if, or_fail, deref, or_fail-ok,
  deref-ok, Option-cases, inl, inr, arith, ==_iff,
}
use scp_harness.Model.{
  Slot, Key, State, Task, Step, Artifact, Change, ChangeState, Stage, Journal, JournalState,
  Message, SlotState, is_running, is_prepared, audit, touch, set_change,
}
use scp_harness.Core.Common.{set_change_now}
use scp_harness.Core.Steps.{promotion_evidence}
use scp_harness.Core.Slots.{release, requeue, finish_activity}
use scp_harness.Core.Promotions.{prepare_promotion_in, apply_promotion_in}

-- A Change that is not running keeps its record when the slot is released.
requeue-keeps :
    (p : Step) (s : State) (k : Key) {ch : Change}
    → lookup k s.changes ≡ some ch
    → is_running ch.state ≡ false
    → lookup k (requeue p s).changes ≡ some ch
unfolding requeue set_change_now
requeue-keeps p s k {ch} e idle = elim (Option-cases (lookup p.change_id s.changes)) [
  | inl missing ↦ ground arith
  | inr (x, ex) ↦
      let t : Change = set_change x.stage ChangeState.queued x.reason (s.times s.draws) x in
      ground (arith, lookup-insert p.change_id k t s.changes, ==_iff k p.change_id)
]

release-keeps :
    (s : State) (k : Key) {ch : Change}
    → lookup k s.changes ≡ some ch
    → is_running ch.state ≡ false
    → lookup k (release s).changes ≡ some ch
unfolding release
release-keeps s k e idle = elim (Option-cases (lookup s.slot_task s.pending)) [
  | inl missing ↦ ground arith
  | inr (p, ep) ↦ ground (arith, requeue-keeps p s k e idle)
]

requeue-frame :
    (p : Step) (s : State) → ((requeue p s).journals ≡ s.journals) × ((requeue p s).tasks ≡ s.tasks)
unfolding requeue set_change_now
requeue-frame p s = (ground arith, ground arith)

release-frame :
    (s : State)
    → ((release s).journals ≡ s.journals)
      × ((release s).tasks ≡ s.tasks)
      × ((release s).slot.state ≡ SlotState.idle)
unfolding release
release-frame s = elim (Option-cases (lookup s.slot_task s.pending)) [
  | inl missing ↦ (ground arith, ground arith, refl)
  | inr (p, ep) ↦ let (a, b) = requeue-frame p s in (ground arith, ground arith, refl)
]

-- How the activity that promoted ends.
abbrev settle_slot : Key → State → State
settle_slot task s = elim (lookup task s.pending) [
  | none ↦ release s
  | some p ↦ finish_activity p s
]

settle_slot-keeps :
    (task : Key) (s : State) (k : Key) {ch : Change}
    → lookup k s.changes ≡ some ch
    → is_running ch.state ≡ false
    → lookup k (settle_slot task s).changes ≡ some ch
unfolding finish_activity
settle_slot-keeps task s k e idle = elim (Option-cases (lookup task s.pending)) [
  | inl missing ↦ rw (settle_slot, missing) (release-keeps s k e idle)
  | inr (p, ep) ↦ rw (settle_slot, ep) (release-keeps _ k e idle)
]

settle_slot-frame :
    (task : Key) (s : State)
    → ((settle_slot task s).journals ≡ s.journals)
      × ((settle_slot task s).tasks ≡ s.tasks)
      × ((settle_slot task s).slot.state ≡ SlotState.idle)
unfolding finish_activity
settle_slot-frame task s = elim (Option-cases (lookup task s.pending)) [
  | inl missing ↦ rw (settle_slot, missing) (release-frame s)
  | inr (p, ep) ↦ rw (settle_slot, ep) (release-frame _)
]

pub touch-frame :
    (k : Key) (s : State)
    → ((touch k s).journals ≡ s.journals)
      × ((touch k s).changes ≡ s.changes)
      × ((touch k s).slot ≡ s.slot)
unfolding touch
touch-frame k s = (ground arith, ground arith, ground arith)

pub touch-sha :
    (k : Key) (s : State) {t : Task}
    → lookup k s.tasks ≡ some t
    → (t' : Task) × (lookup k (touch k s).tasks ≡ some t') × (t'.sha ≡ t.sha)
unfolding touch
touch-sha k s {t} e = (
  record t { revision = add64 t.revision (pos 1); updated = s.times s.draws },
  rw (touch, e) (lookup-insert_self k _ s.tasks),
  refl,
)

-- What an applied promotion leaves behind.
pub record Promoted (id : Key) (s s' : State) : Type 0 where
  pub journal : Journal
  pub artifact : Artifact
  pub change : Change
  pub was_stored : lookup id s.journals ≡ some journal
  pub was_prepared : is_prepared journal.state ≡ true
  pub promotes : lookup journal.artifact_id s.artifacts ≡ some artifact
  pub applied : lookup id s'.journals ≡ some (record journal { state = JournalState.applied })
  pub changed : lookup artifact.change_id s'.changes ≡ some change
  pub at_promotion : change.stage ≡ Stage.promotion
  pub done : change.state ≡ ChangeState.done
  pub task : Task
  pub stored : lookup journal.task_id s'.tasks ≡ some task
  pub rebased : task.sha ≡ journal.new_sha
  pub idle : s'.slot.state ≡ SlotState.idle

apply_promotion_in-Yields :
    (id : Key) (s : State) → Yields (λ r. Promoted id s r.1) (apply_promotion_in id s)
unfolding apply_promotion_in set_change_now set_change audit
apply_promotion_in-Yields id s =
    let P : Unit {0} × State → Type 0 = λ r. Promoted id s r.1 in
    Yields-bind P (or_fail (lookup id s.journals) Code.core_inconsistent) _ λ j ej.
      Yields-bind P (fail_if (not (is_prepared j.state)) Code.core_inconsistent) _ λ u eu.
        Yields-bind P (deref (lookup j.artifact_id s.artifacts)) _ λ a ea.
          Yields-bind P (or_fail (lookup a.change_id s.changes) Code.core_inconsistent) _ λ ch ech.
            Yields-bind P (deref (lookup j.task_id s.tasks)) _ λ t et.
              let j' : Journal = record j { state = JournalState.applied } in
              let t' : Task = record t { sha = j.new_sha } in
              let finished : State =
                set_change_now a.change_id ch Stage.promotion ChangeState.done "" (record s {
                  journals = insert id j' s.journals;
                  tasks = insert j.task_id t' s.tasks;
                }) in
              let promoted : State =
                audit j.task_id "PROMOTED" (Message.from_to j.old_sha j.new_sha) finished in
              let ended : State = settle_slot j.task_id promoted in
              let n : Change =
                set_change Stage.promotion ChangeState.done "" (s.times s.draws) ch in
              let (frame_j, frame_t, frame_s) = settle_slot-frame j.task_id promoted in
              let (touch_j, touch_c, touch_s) = touch-frame j.task_id ended in
              let (task, stored, sha) =
                touch-sha j.task_id ended {t = t'}
                  (ap (lookup j.task_id) frame_t ∙ lookup-insert_self j.task_id t' s.tasks) in
              Yields-ok P (tt, touch j.task_id ended)
                (record {
                  journal = j;
                  artifact = a;
                  change = n;
                  was_stored = or_fail-ok (lookup id s.journals) Code.core_inconsistent ej;
                  was_prepared = ground (arith, eu);
                  promotes = deref-ok (lookup j.artifact_id s.artifacts) ea;
                  applied =
                      ap (lookup id) (touch_j ∙ frame_j) ∙ lookup-insert_self id j' s.journals;
                  changed =
                      ap (lookup a.change_id) touch_c
                      ∙ settle_slot-keeps j.task_id promoted a.change_id {ch = n}
                          (lookup-insert_self a.change_id n s.changes) refl;
                  at_promotion = refl;
                  done = refl;
                  task = task;
                  stored = stored;
                  rebased = sha;
                  idle = ap (λ (x : Slot). x.state) touch_s ∙ frame_s;
                })

-- When the transaction of ApplyPromotion succeeds, the journal was stored and PREPARED and is
-- APPLIED afterwards; the Change of its artifact is DONE at the stage PROMOTION, and is not put
-- back into the queue when the slot is released; the task's SHA is the journal's new SHA; and the
-- slot is idle.
pub apply_promotion_in-Promoted :
    (id : Key) (s : State) {u : Unit {0}} {s' : State}
    → apply_promotion_in id s ≡ ok (u, s')
    → Promoted id s s'
apply_promotion_in-Promoted id s e = apply_promotion_in-Yields id s _ e

-- A promotion is prepared for an artifact of the journal's task and base alone, and by the right
-- of its Change.
prepare_promotion_in-Yields :
    (j : Journal) (s : State)
    → Yields
        (λ r.
          (a : Artifact) × (ch : Change) × (lookup j.artifact_id s.artifacts ≡ some a)
          × (lookup a.change_id s.changes ≡ some ch)
          × (a.task_id ≡ j.task_id)
          × (a.base_sha ≡ j.old_sha)
          × (ch.stage ≡ Stage.promotion)
          × (ch.state ≡ ChangeState.running)
          × (promotion_evidence ch s ≡ true)
          × (lookup j.id r.1.journals ≡ some j))
        (prepare_promotion_in j s)
unfolding prepare_promotion_in
prepare_promotion_in-Yields j s r h = elim (Option-cases (lookup j.artifact_id s.artifacts)) [
  | inl missing ↦ absurd (ground arith)
  | inr (a, ea) ↦ elim (Option-cases (lookup a.change_id s.changes)) [
    | inl missing ↦ absurd (ground arith)
    | inr (ch, ech) ↦
        let written : State = record s { journals = insert j.id j s.journals } in
        let made : ◌≡◌ {A = Unit {0} × State} (tt, touch j.task_id written) r = ground arith in
        (
          a,
          ch,
          ea,
          ech,
          ground (arith, ==_iff a.task_id j.task_id),
          ground (arith, ==_iff a.base_sha j.old_sha),
          ground arith,
          ground arith,
          ground arith,
          ap (λ (x : Unit {0} × State). lookup j.id x.1.journals) (sym made)
              ∙ ap (lookup j.id) (touch-frame j.task_id written).0
              ∙ lookup-insert_self j.id j s.journals,
        )
  ]
]

-- When the transaction of PreparePromotion succeeds, the journal is stored, and its artifact is
-- there and belongs to the journal's task and old SHA; the artifact's Change is RUNNING at the
-- stage PROMOTION, and PromotionEvidence holds for it.
pub prepare_promotion_in-ok :
    (j : Journal) (s : State) {u : Unit {0}} {s' : State}
    → prepare_promotion_in j s ≡ ok (u, s')
    → (a : Artifact) × (ch : Change) × (lookup j.artifact_id s.artifacts ≡ some a)
      × (lookup a.change_id s.changes ≡ some ch)
      × (a.task_id ≡ j.task_id)
      × (a.base_sha ≡ j.old_sha)
      × (ch.stage ≡ Stage.promotion)
      × (ch.state ≡ ChangeState.running)
      × (promotion_evidence ch s ≡ true)
      × (lookup j.id s'.journals ≡ some j)
prepare_promotion_in-ok j s e = prepare_promotion_in-Yields j s _ e
