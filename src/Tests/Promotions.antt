-- ===== src/Tests/Promotions.antt =====
-- A promotion at concrete inputs.
use scp_harness.Base.{
  pos, add64, wrap64, ◌+ℤ◌, ◌-ℤ◌, ◌≡◌, refl, true, none, some, [], ◌∷◌, lookup, insert, erase,
  any_entry, Result, ok, err, panic,
}
use scp_harness.Model.{
  State, Artifact, Change, ChangeState, Stage, CiRun, CiStatus, Review, Verdict, Journal,
  JournalState, Kind, Operation, Step, SlotState, audit, touch, set_change, latest_ci, latest_from,
  new_state, is_prepared,
}
use scp_harness.Core.{
  queued_run, prepare_promotion_in, apply_promotion_in, promotion_evidence, set_change_now,
  finish_activity, release, requeue,
}
use scp_harness.Core.Promoting.{Promoted, apply_promotion_in-Promoted}
use scp_harness.Scheduler.{reconcile_in, outcome_of, rebase_applied, resume_change}
use scp_harness.Scheduler.Journals.{Reconciled, reconcile_in-Reconciled}
use scp_harness.Scheduler.Swaps.{Promotes, prepared_settles}
use scp_harness.Tests.Data.{funded, empty, task_1}

abbrev change_5 : Change
change_5 = record {
  id = 5;
  task_id = 1;
  option_id = 2;
  base_sha = 13;
  objective = 7 ∷ [];
  objective_revision = pos 0;
  artifact_id = 8;
  ci_run_id = 12;
  review_attempt_id = 7;
  stage = Stage.promotion;
  state = ChangeState.running;
  reason = "";
  timeout_streak = 0;
  timeout_reset_at = 0;
  started = true;
  created = 600;
  updated = 610;
}

abbrev artifact_8 : Artifact
artifact_8 = record {
  change_id = 5;
  id = 8;
  task_id = 1;
  anchor = 2;
  attempt_id = 6;
  blob_path = 30;
  sha256 = 31;
  size = pos 10;
  base_sha = 13;
  created = 602;
}

abbrev run_12 : CiRun
run_12 = record (queued_run 12 5 8 603) { status = CiStatus.pass; started = 604; ended = 605 }

abbrev approval : Review
approval = record {
  ci_run_id = 12;
  artifact_id = 8;
  attempt_id = 7;
  verdict = Verdict.approve;
  findings = [];
  created = 606;
}

abbrev journal_14 : Journal
journal_14 = record {
  id = 14;
  task_id = 1;
  artifact_id = 8;
  ref = 12;
  old_sha = 13;
  new_sha = 19;
  state = JournalState.prepared;
  created = 607;
}

abbrev promotion : Step
promotion = record {
  change_id = 5;
  ci_run_id = 0;
  request_id = 0;
  task_id = 1;
  option_id = 2;
  operation = Operation.promotion;
  target_type = Kind.artifact;
  target_id = 8;
  participants = [];
}

abbrev approved : State
approved = record funded {
  changes = (5, change_5) ∷ [];
  artifacts = (8, artifact_8) ∷ [];
  ci_runs = (12, run_12) ∷ [];
  reviews = (8, approval) ∷ [];
  slot = record { kind = Operation.promotion; state = SlotState.busy; owner = none };
  slot_task = 1;
  slot_owner = 77;
  pending = (1, promotion) ∷ [];
}

abbrev state_of : Result (Unit {0} × State) → State
state_of (ok r) = r.1
state_of (err e) = empty
state_of panic = empty

abbrev journalled : State
journalled = state_of (prepare_promotion_in journal_14 approved)

prepare-approved : prepare_promotion_in journal_14 approved ≡ ok (tt, journalled)
unfolding prepare_promotion_in promotion_evidence latest_ci latest_from lookup insert any_entry
    touch add64 wrap64 ◌+ℤ◌ ◌-ℤ◌ new_state
prepare-approved = refl

abbrev applied : State
applied = state_of (apply_promotion_in 14 journalled)

apply-journalled : apply_promotion_in 14 journalled ≡ ok (tt, applied)
unfolding prepare_promotion_in apply_promotion_in promotion_evidence latest_ci latest_from
    set_change_now set_change finish_activity release requeue audit lookup insert erase any_entry
    touch add64 wrap64 ◌+ℤ◌ ◌-ℤ◌ new_state
apply-journalled = refl

apply_promotion_in-Promoted_example : Promoted 14 journalled applied
apply_promotion_in-Promoted_example = apply_promotion_in-Promoted 14 journalled apply-journalled

-- The core stops before the promotion is applied, and the ref has moved to the new SHA.
abbrev reconciled : State
reconciled = state_of (reconcile_in journal_14 (outcome_of 19 journal_14) journalled)

reconcile-journalled :
    reconcile_in journal_14 (outcome_of 19 journal_14) journalled ≡ ok (tt, reconciled)
unfolding reconcile_in rebase_applied resume_change prepare_promotion_in promotion_evidence
    latest_ci latest_from set_change_now set_change audit lookup insert erase any_entry touch add64
    wrap64 ◌+ℤ◌ ◌-ℤ◌ new_state
reconcile-journalled = refl

reconcile_in-Reconciled_example : Reconciled journal_14 19 journalled reconciled
reconcile_in-Reconciled_example =
    reconcile_in-Reconciled journal_14 19 journalled reconcile-journalled

journal_14-prepared : is_prepared journal_14.state ≡ true
journal_14-prepared = refl

prepared_settles_example :
    (a : Artifact) × (s2 : State) × (s3 : State) × (lookup 8 approved.artifacts ≡ some a)
    × (apply_promotion_in 14 journalled ≡ ok (tt, s2))
    × (reconcile_in journal_14 (outcome_of 19 journal_14) journalled ≡ ok (tt, s3))
    × Promotes journal_14 a s2
    × Promotes journal_14 a s3
unfolding lookup
prepared_settles_example =
    prepared_settles journal_14 task_1 approved journal_14-prepared refl prepare-approved
