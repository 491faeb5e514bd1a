-- ===== src/Scheduler/Rounds.antt =====
-- Step and the loop of Run of internal/scheduler/scheduler.go.
use scp_harness.Base.{
  ℕ, ◌+◌, Bool, true, false, not, ◌&&◌, ◌||◌, Option, none, some, lookup, any_entry, Result, ok,
  err, panic, Code, ◌>>=◌, fail_if, deref, ◌==◌, if◌then◌else◌,
}
use scp_harness.Model.{
  Key, State, Task, Step, ChangeState, Operation, Config, Message, active_attempt, exit, fail_stop,
  is_idle, is_aborted, is_paused, flagged, is_ci, is_promotion_op, is_stale, now, profile_of,
  terminal,
}
use scp_harness.Store.{Disk, read, update}
use scp_harness.Core.{block, core_update, end_promotion, next, release_owned, set_change_now}
use scp_harness.Scheduler.Recovery.{and_then, asking}
use scp_harness.Scheduler.Executions.{Workshop, TestBench, attempt, run_ci}
use scp_harness.Scheduler.Promotions.{Promoter, promote}

-- What the machine answers in one round.
pub record Site : Type 0 where
  pub signalled : Bool
  pub resolve : Key → Key → Result Key
  pub workshop : Workshop
  pub bench : TestBench
  pub promoter : Promoter

-- `ch != nil && !ch.Terminal() && ch.State != "STALE"`
unfoldable pub pause_signalled_in : Key → State → Result (Unit {0} × State)
pause_signalled_in id s = elim (lookup id s.changes) [
  | none ↦ ok (tt, s)
  | some ch ↦ ok (
    tt,
    if terminal ch || is_stale ch.state
        then s
        else set_change_now id ch ch.stage ChangeState.paused "" s,
  )
]

-- `if err == nil { err = later }`
abbrev pub with_later : {A : Type 0} → Result A → Result (Unit {0}) × State → Result A × State
with_later (ok a) (ok _, db) = (ok a, db)
with_later (ok a) (err e, db) = (err e, db)
with_later (ok a) (panic, db) = (panic, db)
with_later (err e) (panic, db) = (panic, db)
with_later (err e) (_, db) = (err e, db)
with_later panic (_, db) = (panic, db)

-- The deferred part of Step: a Change whose activity was signalled pauses, and the slot is free.
unfoldable pub leave_step :
    {A : Type 0} → Disk → Key → Bool → Step → Result A × State → Result A × State
leave_step disk owner signalled p (r, db) =
    let (r1, db1) =
      if signalled && not (p.change_id == 0)
      then with_later r (update disk (pause_signalled_in p.change_id) db)
      else (r, db) in
    with_later r1 (release_owned disk owner db1)

-- A repository that cannot be read blocks its task.
unfoldable pub resolve_task : Disk → Site → Task → State → Result Key × State
resolve_task disk m t db = elim (m.resolve t.repo_path t.repo_ref) [
  | ok sha ↦ (ok sha, db)
  | err e ↦ (err e, (block disk e t.id 0 0 (Message.error_text e) db).1)
  | panic ↦ (panic, db)
]

-- The activity by its operation.
unfoldable pub dispatch : Config → Disk → Site → Key → Step → State → Result (Unit {0}) × State
dispatch cfg disk m owner p db =
    if is_ci p.operation
    then run_ci cfg disk m.bench owner p db
    else if is_promotion_op p.operation
    then promote disk m.promoter p db
    else attempt cfg disk m.workshop owner p db

abbrev pub blocks_on : Code → Bool
blocks_on Code.worker_unavailable = true
blocks_on Code.runner_unavailable = true
blocks_on Code.repository_unavailable = true
blocks_on Code.storage_failure = true
blocks_on Code.core_inconsistent = true
blocks_on _ = false

-- The worker profile and the runner that an error is charged to.
abbrev pub charged_to : Config → Operation → Result (Key × Key)
charged_to cfg Operation.ci = ok (0, cfg.test_distro)
charged_to cfg Operation.promotion = ok (0, 0)
charged_to cfg op = do p ← profile_of op cfg; ok (p.id, cfg.distro)

-- What Step does with an error of the activity: it may block, and the slot is released.
unfoldable pub handle_error : Config → Disk → Key → Step → Code → State → Result (Unit {0}) × State
handle_error cfg disk owner p e db =
    let after_block : Result (Unit {0}) × State =
      if not (blocks_on e)
      then (ok tt, db)
      else asking (charged_to cfg p.operation) db
          λ at. block disk e p.task_id at.0 at.1 (Message.error_text e) db in
    and_then after_block λ _ db1. (err e, (release_owned disk owner db1).1)

unfoldable pub handled :
    Config → Disk → Key → Step → Result (Unit {0}) × State → Result Bool × State
handled cfg disk owner p (ok _, db) = (ok true, db)
handled cfg disk owner p (err e, db) =
    and_then (handle_error cfg disk owner p e db) λ _ db1. (ok true, db1)
handled cfg disk owner p (panic, db) = (panic, db)

-- The body of Step for the step that Next chose.
unfoldable pub run_step : Config → Disk → Site → Key → Step → State → Result Bool × State
run_step cfg disk m owner p db =
    let act : Result Bool × State = handled cfg disk owner p (dispatch cfg disk m owner p db) in
    if (p.change_id == 0) || is_ci p.operation
    then act
    else asking (read disk db) db λ s. asking (deref (lookup p.task_id s.tasks)) db λ t.
      and_then (resolve_task disk m t db) λ sha db1.
        asking (deref (lookup p.change_id s.changes)) db1 λ ch.
          if sha == ch.base_sha
          then handled cfg disk owner p (dispatch cfg disk m owner p db1)
          else and_then (end_promotion disk p sha "BASE_CHANGED" db1) λ _ db2. (ok true, db2)

-- Step: whether an activity ran.
unfoldable pub step : Config → Disk → Site → Key → ℕ → State → Result Bool × State
step cfg disk m owner pid db = and_then (next cfg disk owner pid db) λ chosen db1. elim chosen [
  | none ↦ (ok false, db1)
  | some p ↦ leave_step disk owner m.signalled p (run_step cfg disk m owner p db1)
]

-- How Run goes on after a round: it ends, with its lock removed if it ends clean, or it goes on.
pub data RunEnd : Type 0 where
  ended : Bool → Result (Unit {0}) → RunEnd
  goes_on : RunEnd

abbrev pub is_tolerable : Code → Bool
is_tolerable Code.limit_exceeded = true
is_tolerable Code.precondition_changed = true
is_tolerable e = exit e == 4

-- `clean = blockErr == nil`
abbrev pub is_written : Result (Unit {0}) → Bool
is_written (ok _) = true
is_written _ = false

-- What Run does with the result of a step.
unfoldable pub after_step : Disk → Key → Result Bool × State → RunEnd × State
after_step disk owner (ok ran, db) = (RunEnd.goes_on, db)
after_step disk owner (panic, db) = (RunEnd.ended false panic, db)
after_step disk owner (err e, db) =
    let (written, db1) = block disk e 0 0 0 (Message.error_text e) db in
    if exit e == 5
    then (RunEnd.ended (is_written written) (err e), db1)
    else if is_tolerable e
    then (RunEnd.goes_on, db)
    else (RunEnd.ended true (err e), (release_owned disk owner db).1)

-- One round of the loop of Run. `stop` tells that the process was signalled.
unfoldable pub run_round : Config → Disk → Site → Bool → Key → ℕ → State → RunEnd × State
run_round cfg disk m stop owner pid db =
    let (released, db1) = release_owned disk owner db in
    if stop then (RunEnd.ended (is_written released) released, db1) else elim (read disk db) [
      | err e ↦ (RunEnd.ended false (err e), db)
      | panic ↦ (RunEnd.ended false panic, db)
      | ok s ↦
          if fail_stop s
          then (RunEnd.ended true (ok tt), db)
          else after_step disk owner (step cfg disk m owner pid db)
    ]

-- The start of Run: nothing is left of an earlier scheduler, and this one is written down.
unfoldable pub start_in : Config → Key → State → Result (Unit {0} × State)
start_in cfg disk_hash s = ok (
  tt,
  record s {
    scheduler_config_hash = cfg.hash;
    scheduler_disk_hash = disk_hash;
    scheduler_started = now s;
    draws = s.draws + 1;
  },
)

unfoldable pub start_run : Config → Disk → Key → State → Result (Unit {0}) × State
start_run cfg disk disk_hash db = asking (read disk db) db λ s.
    asking (fail_if (any_entry (λ _ a. active_attempt a) s.attempts) Code.blocked) db λ _.
      asking (fail_if (not (is_idle s.slot.state)) Code.blocked) db
        λ _. core_update disk (start_in cfg disk_hash) db

-- The Change of the pending step is paused or aborted.
abbrev pub pending_halted : Option Step → State → Bool
pending_halted none s = false
pending_halted (some p) s = elim (lookup p.change_id s.changes) [
  | none ↦ false
  | some ch ↦ is_paused ch.state || is_aborted ch.state
]

-- The predicate of monitor: whether the one process that runs is to be stopped.
unfoldable pub monitor_stops : Disk → Key → Key → State → Bool
monitor_stops disk task id db = elim (read disk db) [
  | ok s ↦
      pending_halted (lookup task s.pending) s
      || flagged task s.cancellations
      || not (id == 0) && flagged id s.interrupts
      || fail_stop s
  | _ ↦ true
]
