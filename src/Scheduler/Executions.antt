-- ===== src/Scheduler/Executions.antt =====
-- attempt and runCI of internal/scheduler/scheduler.go: one activity from its lease to its end.
use scp_harness.Base.{
  ℤ, Bool, false, not, ◌&&◌, ◌||◌, Option, none, some, lookup, insert, Result, ok, err, panic, Code,
  ◌>>=◌, deref, ◌==◌, if◌then◌else◌, present,
}
use scp_harness.Model.{
  Key, State, Task, Step, Attempt, AttemptStatus, Artifact, CiRun, CiStatus, Config, Kind, Profile,
  is_artifact, ci_timed_out, profile_of, touch,
}
use scp_harness.Store.{Disk, read}
use scp_harness.Core.{
  Completion, complete, core_update, finish_ci, is_absent, is_writable, mark_running,
  prepare_attempt, prepare_ci,
}
use scp_harness.Worker.{Document, parse}
use scp_harness.Scheduler.Captures.{Submitted, capture}
use scp_harness.Scheduler.Recovery.{and_then, asking}
use scp_harness.Scheduler.Verdicts.{
  WorkerOutcome, Ending, Aftermath, Execution, TestAftermath, first_error, is_uncertain,
  judge_attempt, judge_test,
}

-- What the machine answers while attempt runs. `ready` and `uploaded` are the first errors of what
-- is done before and after the source of the workspace is looked up, `late` tells that the lease
-- was used up by then.
pub record Workshop : Type 0 where
  pub resolve : Key → Key → Result Key
  pub ready : Option Code
  pub uploaded : Option Code
  pub has_directory : Bool
  pub late : Bool
  pub outcome : WorkerOutcome
  pub run_error : Option Code
  pub stopped : Option Code
  pub deadline : Bool
  pub cancelled : Bool
  pub submitted : Submitted
  pub result : Result Document
  pub logs : Option Code
  pub elapsed : ℤ
  pub visible : Kind → Key → Bool
  pub locked : Bool

-- `st.Tasks[p.TaskID].SHA = sha; st.Touch(p.TaskID)`
unfoldable pub move_sha_in : Key → Key → State → Result (Unit {0} × State)
move_sha_in task sha s = do
  t ← deref (lookup task s.tasks)
  let t' : Task = record t { sha = sha }
  ok (tt, touch task (record s { tasks = insert task t' s.tasks }))

-- The commit that the activity works on: a Change keeps to the one of its task.
unfoldable pub follow_ref : Config → Disk → Workshop → Step → State → Result (Unit {0}) × State
follow_ref cfg disk w p db = asking (read disk db) db λ s.
    asking (deref (lookup p.task_id s.tasks)) db λ t.
      asking (if p.change_id == 0 then w.resolve t.repo_path t.repo_ref else ok t.sha) db
        λ sha. if sha == t.sha then (ok tt, db) else core_update disk (move_sha_in p.task_id sha) db

-- The artifact that the workspace is made from is looked up, if there is one.
unfoldable pub find_source : Disk → Workshop → Profile → Step → State → Result (Unit {0})
find_source disk w profile p db =
    if present w.ready || is_absent profile.workspace || not (is_artifact p.target_type)
    then ok tt
    else (do s ← read disk db; a ← deref (lookup p.target_id s.artifacts); ok tt)

-- An error as a value, as the code keeps it in `e`.
abbrev pub kept_error : Result (Unit {0}) × State → Result (Option Code) × State
kept_error (ok _, db) = (ok none, db)
kept_error (err e, db) = (ok (some e), db)
kept_error (panic, db) = (panic, db)

-- Only what is ready is marked as running.
unfoldable pub start_worker : Disk → Option Code → Key → State → Result (Option Code) × State
start_worker disk none id db = kept_error (mark_running disk id db)
start_worker disk (some e) id db = (ok (some e), db)

abbrev pub not_run : AttemptStatus → WorkerOutcome
not_run status = record { status = status; reason = none; exit_code = none }

-- How the worker's process ended, and with which error.
abbrev pub outcome_of_run : Workshop → Option Code → WorkerOutcome × Option Code
outcome_of_run w (some e) = (not_run AttemptStatus.terminated, some e)
outcome_of_run w none =
    if w.late then (not_run AttemptStatus.timed_out, none) else (w.outcome, w.run_error)

abbrev pub aftermath : Config → Disk → Workshop → Step → Attempt → State → Aftermath
aftermath cfg disk w p a db = record {
  stopped = w.stopped;
  deadline = w.deadline;
  cancelled = w.cancelled;
  capture = capture disk w.submitted a p db;
  answer = (do d ← w.result; parse d p.operation cfg.result_max);
  logs = w.logs;
}

abbrev pub completion_of : Workshop → Step → Attempt → Option ℤ → Ending → Completion
completion_of w p a exit_code x = record {
  attempt_id = a.id;
  step = p;
  artifact = x.captured;
  answer = x.answer;
  valid = x.valid;
  status = x.status;
  reason = x.reason;
  exit_code = exit_code;
  stdout = a.stdout;
  stderr = a.stderr;
  elapsed = w.elapsed;
  uncertain = is_uncertain x;
  visible = w.visible;
}

-- `if ce := c.Complete(v); ce != nil { return ce }; return e`
abbrev pub error_result : Option Code → Result (Unit {0})
error_result none = ok tt
error_result (some e) = err e

-- attempt, after the Attempt is prepared.
unfoldable pub execute :
    Config → Disk → Workshop → Step → Profile → Attempt → State → Result (Unit {0}) × State
execute cfg disk w p profile a db =
    let before : Option Code = first_error w.ready w.uploaded in
    and_then (start_worker disk before a.id db) λ e db1.
      let (out, e') = outcome_of_run w e in
      asking
        (judge_attempt (not (present before)) (w.has_directory && is_writable profile.workspace) out
          e' (aftermath cfg disk w p a db1))
        db1
        λ x.
          and_then (complete cfg disk w.locked (completion_of w p a out.exit_code x) db1)
            λ _ db2. (error_result x.error, db2)

unfoldable pub attempt : Config → Disk → Workshop → Key → Step → State → Result (Unit {0}) × State
attempt cfg disk w owner p db = and_then (follow_ref cfg disk w p db) λ _ db1.
    and_then (prepare_attempt cfg disk p owner db1) λ a db2.
      asking (profile_of p.operation cfg) db2 λ profile.
        asking (find_source disk w profile p db2) db2 λ _. execute cfg disk w p profile a db2

-- What the machine answers while runCI runs; `opened` and `ready` are the first errors of what is
-- done before and after the artifact is restored.
pub record TestBench : Type 0 where
  pub opened : Option Code
  pub ready : Option Code
  pub execution : Execution
  pub run_error : Option Code
  pub after : TestAftermath
  pub elapsed : ℤ

-- `st.CIRuns[id].Status = "RUNNING"`
unfoldable pub run_started_in : Key → State → Result (Unit {0} × State)
run_started_in id s = do
  r ← deref (lookup id s.ci_runs)
  let r' : CiRun = record r { status = CiStatus.running }
  ok (tt, record s { ci_runs = insert id r' s.ci_runs })

abbrev pub not_started : Execution
not_started = record {
  started = false;
  exit_code = ℤ.negsuc 0;
  timed_out = false;
  canceled = false;
  stdout_truncated = false;
  stderr_truncated = false;
}

-- The artifact is restored, unless an error came before.
abbrev pub restored : Option Code → Option Artifact → Result (Unit {0})
restored none a = do _ ← deref a; ok tt
restored (some e) a = ok tt

-- The command runs once its run is marked as running; an error of the mark ends runCI at once.
unfoldable pub run_command :
    Disk → TestBench → Key → State → Result (Execution × Option Code) × State
run_command disk b id db = elim (first_error b.opened b.ready) [
  | some e ↦ (ok (not_started, some e), db)
  | none ↦
      and_then (core_update disk (run_started_in id) db)
        λ _ db1. (ok (b.execution, b.run_error), db1)
]

-- The run as runCI hands it to FinishCI.
abbrev pub ended_run : TestBench → CiRun → Execution → CiStatus → CiRun
ended_run b r x status = record r {
  status = status;
  elapsed = b.elapsed;
  exit_code = if x.started then some x.exit_code else r.exit_code;
  stdout_truncated = x.stdout_truncated;
  stderr_truncated = x.stderr_truncated;
}

unfoldable pub run_ci : Config → Disk → TestBench → Key → Step → State → Result (Unit {0}) × State
run_ci cfg disk b owner p db = and_then (prepare_ci cfg disk p owner db) λ r db1.
    asking (read disk db1) db1 λ s.
      asking (restored b.opened (lookup p.target_id s.artifacts)) db1 λ _.
        and_then (run_command disk b r.id db1) λ run db2.
          let (status, e) = judge_test run.0 run.1 b.after in
          and_then
            (finish_ci disk p (ended_run b r run.0 status)
              (ci_timed_out status || present b.after.stopped) db2)
            λ _ db3. (error_result e, db3)
