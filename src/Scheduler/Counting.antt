-- ===== src/Scheduler/Counting.antt =====
-- Proofs that the transaction of Recover, internal/scheduler/recover.go, that ends an Attempt counts
-- it in the exploration of its task.
use scp_harness.Base.{
  ◌+◌, ◌≡◌, refl, ◌∙◌, true, not, Option, none, some, lookup, insert, erase, keep,
  lookup-insert_self, deref, ◌==◌, Yields, Yields-ok, Yields-bind, pos, arith,
}
use scp_harness.Model.{Key, State, Attempt, AttemptStatus, Step, Artifact, Exploration, now, touch}
use scp_harness.Ledger.{settle}
use scp_harness.Core.{bind_artifact, set_change_now}
use scp_harness.Core.Serving.{Yields-after}
use scp_harness.Core.Bearings.{Unmoved, Unmoved-frame, Unmoved-trans, settle-Unmoved, touch-Unmoved}
use scp_harness.Scheduler.Reconciliation.{
  crash_attempt_in, crash_exploration, count_crash, keep_captured, pause_restart, explores,
}

bind_artifact-Unmoved : (k change id : Key) (s : State) → Unmoved k s (bind_artifact change id s)
unfolding bind_artifact
bind_artifact-Unmoved k change id s =
    Unmoved-frame k s (bind_artifact change id s) (ground arith) (ground arith) (ground arith)

keep_captured-Unmoved :
    (k : Key) (f : Option Artifact) (a : Attempt) (s : State)
    → Yields (Unmoved k s) (keep_captured f a s)
unfolding keep_captured
keep_captured-Unmoved k none a s = Yields-ok (Unmoved k s) s (Unmoved-frame k s s refl refl refl)
keep_captured-Unmoved k (some f) a s =
    Yields-after (Unmoved k s) (deref (lookup a.id s.attempts)) _ λ v.
      let kept : State = record s {
        artifacts = insert f.id f s.artifacts;
        attempts = insert a.id (record v { artifact_id = some f.id }) s.attempts;
      } in
      Yields-ok (Unmoved k s) _ (
        Unmoved-trans k s kept _ (Unmoved-frame k s kept refl refl refl)
          (bind_artifact-Unmoved k a.change_id f.id kept))

pause_restart-Unmoved : (k id : Key) (s : State) → Unmoved k s (pause_restart id s)
unfolding pause_restart set_change_now
pause_restart-Unmoved k id s =
    Unmoved-frame k s (pause_restart id s) (ground arith) (ground arith) (ground arith)

abbrev Counted : Attempt → Exploration → State → Type 0
Counted a x s = lookup a.task_id s.exploration ≡ some (crash_exploration a.operation x)

count_crash-Counted :
    (a : Attempt) (x : Exploration) (s : State)
    → explores a.operation ≡ true
    → lookup a.task_id s.exploration ≡ some x
    → Yields (Counted a x) (count_crash a s)
unfolding count_crash
count_crash-Counted a x s h ex =
    rw (count_crash, h, ex)
      (Yields-ok (Counted a x) _
        (lookup-insert_self a.task_id (crash_exploration a.operation x) s.exploration))

-- The exploration of a crashed Attempt is stored as counted.
pub crash_attempt_in-Counted :
    (a : Attempt) (p : Step) (f : Option Artifact) (x : Exploration) (s : State)
    → explores a.operation ≡ true
    → lookup a.task_id s.exploration ≡ some x
    → Yields (λ r. Counted a x r.1) (crash_attempt_in a p f s)
unfolding crash_attempt_in
crash_attempt_in-Counted a p f x s h ex =
    let k : Key = a.task_id in
    let P : Unit {0} × State → Type 0 = λ r. Counted a x r.1 in
    Yields-bind P (keep_captured f a s) _ λ kept e1.
      Yields-bind P (settle a.id (pos 0) true kept) _ λ settled e2.
        Yields-after P (deref (lookup a.id settled.attempts)) _ λ v.
          let v' : Attempt = record v {
            status = AttemptStatus.crashed;
            ended = some (now settled);
            reason = some "CORE_RESTART";
          } in
          let crashed : State = record settled {
            attempts = insert a.id v' settled.attempts;
            interrupts = erase a.id settled.interrupts;
            pending = erase a.task_id settled.pending;
            draws = settled.draws + 1;
          } in
          let paused : State = pause_restart a.change_id crashed in
          let freed : State = record paused {
            requests = keep (λ r. not (r.request_id == p.request_id)) paused.requests;
          } in
          let there : lookup k freed.exploration ≡ some x =
            (pause_restart-Unmoved k a.change_id crashed).exploration
            ∙ (settle-Unmoved k a.id (pos 0) true kept settled e2).0.exploration
            ∙ (keep_captured-Unmoved k f a s kept e1).exploration
            ∙ ex in
          Yields-bind P (count_crash a freed) _ λ counted e3.
            Yields-ok P (tt, touch k counted)
              ((touch-Unmoved k k counted).exploration
                ∙ count_crash-Counted a x freed h there counted e3)
