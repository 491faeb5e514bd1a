-- ===== src/Scheduler/Verdicts.antt =====
-- How attempt and runCI of internal/scheduler/scheduler.go judge what an execution came to.
use scp_harness.Base.{
  ℕ, ◌>>=◌, ℤ, pos, Bool, true, false, not, ◌&&◌, ◌||◌, Option, none, some, Result, ok, err, panic,
  Code, leb, ltb, if◌then◌else◌, present, eq_ℤ,
}
use scp_harness.Model.{AttemptStatus, CiStatus, Artifact, exit, same, Code-discrete}
use scp_harness.Core.{is_returned}
use scp_harness.Worker.{Answer, no_answer}

-- worker.Outcome: how the worker's process ended, with its exit code if it was started.
pub record WorkerOutcome : Type 0 where
  pub status : AttemptStatus
  pub reason : Option Code
  pub exit_code : Option ℤ

-- What attempt keeps in its local variables.
pub record Ending : Type 0 where
  pub status : AttemptStatus
  pub reason : Option Code
  pub error : Option Code
  pub captured : Option Artifact
  pub answer : Answer
  pub valid : Bool
  pub unstopped : Option Code

-- What the machine answers after the worker's process: whether the distribution stopped, whether
-- the lease or the monitor ended the context, the capture, the result file and the logs.
pub record Aftermath : Type 0 where
  pub stopped : Option Code
  pub deadline : Bool
  pub cancelled : Bool
  pub capture : Result Artifact
  pub answer : Result Answer
  pub logs : Option Code

abbrev pub is_code : Code → Option Code → Bool
is_code c none = false
is_code c (some d) = same Code-discrete c d

-- `model.Exit(model.Code(e))`, where the code of nil is one of exit status 1.
abbrev pub severity : Option Code → ℕ
severity none = 1
severity (some c) = exit c

abbrev pub is_severe : Option Code → Bool
is_severe e = leb 4 (severity e)

-- `launchFailure`
abbrev pub launch_failed : WorkerOutcome → Option Code → Bool
launch_failed out e = present e && is_code Code.runner_unavailable out.reason

abbrev pub first_error : Option Code → Option Code → Option Code
first_error none later = later
first_error (some e) later = some e

-- The status, the reason and the error, once the distribution has been told to stop.
unfoldable pub judge_process : WorkerOutcome → Option Code → Option Code → Ending
judge_process out e stopped =
    let known : Option Code = first_error stopped e in
    let error : Option Code = first_error known out.reason in
    record {
      status = if present error && is_severe error then AttemptStatus.terminated else out.status;
      reason = error;
      error = error;
      captured = none;
      answer = no_answer;
      valid = false;
      unstopped = stopped;
    }

-- The lease or the monitor overrules what is not fatal.
unfoldable pub judge_context : Bool → Aftermath → Ending → Ending
judge_context launch m x =
    if not launch && m.deadline && ltb (severity x.error) 5
    then record x { status = AttemptStatus.timed_out; reason = none; error = none }
    else if not launch && m.cancelled && ltb (severity x.error) 5
    then record x { status = AttemptStatus.interrupted; reason = none; error = none }
    else x

-- A distribution that did not stop overrules both.
unfoldable pub judge_stop : Ending → Ending
judge_stop x = if not (present x.unstopped) then x else record x {
  status = AttemptStatus.terminated;
  reason = some Code.runner_unavailable;
  error = x.unstopped;
}

-- A capture that fails ends the Attempt if it must.
unfoldable pub failed_capture : Code → Ending → Ending
failed_capture c x =
    if leb 4 (exit c)
    then record x {
      status = AttemptStatus.terminated;
      reason = some c;
      error = some c;
      unstopped = some c;
    }
    else if present x.error
    then record x { unstopped = some c }
    else record x { reason = some c; unstopped = some c }

unfoldable pub take_capture : Result Artifact → Ending → Result Ending
take_capture (ok f) x = ok (record x { captured = some f })
take_capture (err c) x = ok (failed_capture c x)
take_capture panic x = panic

-- What was written is captured, where there is something and nothing runs any more.
unfoldable pub judge_capture : Bool → Result Artifact → Ending → Result Ending
judge_capture captures capture x =
    if captures && not (present x.unstopped) then take_capture capture x else ok x

-- What the result file says; a runner that cannot be asked ends the Attempt.
unfoldable pub read_answer : Result Answer → Ending → Result Ending
read_answer (ok a) x = ok (record x { answer = a; valid = true })
read_answer (err c) x = ok (
    if same Code-discrete c Code.runner_unavailable
    then record x {
      status = AttemptStatus.terminated;
      reason = some Code.runner_unavailable;
      error = some Code.runner_unavailable;
    }
    else x)
read_answer panic x = panic

-- It is read only after a clean return.
unfoldable pub judge_answer : Bool → Result Answer → Ending → Result Ending
judge_answer prepared answer x =
    if prepared && is_returned x.status && not (present x.error) then read_answer answer x else ok x

unfoldable pub judge_logs : Option Code → Ending → Ending
judge_logs none x = x
judge_logs (some c) x = record x {
  status = AttemptStatus.terminated;
  reason = some Code.storage_failure;
  error = some c;
}

-- `status == "TIMED_OUT" || terminateErr != nil && model.Code(terminateErr) == "RUNNER_UNAVAILABLE"`
abbrev pub is_timed_out : AttemptStatus → Bool
is_timed_out AttemptStatus.timed_out = true
is_timed_out _ = false

abbrev pub is_uncertain : Ending → Bool
is_uncertain x = is_timed_out x.status || is_code Code.runner_unavailable x.unstopped

-- The part of attempt between the worker's end and Complete.
unfoldable pub judge_attempt : Bool → Bool → WorkerOutcome → Option Code → Aftermath → Result Ending
judge_attempt prepared captures out e m = do
  let x : Ending =
      judge_stop (judge_context (launch_failed out e) m (judge_process out e m.stopped))
  y ← judge_capture captures m.capture x
  z ← judge_answer prepared m.answer y
  ok (judge_logs m.logs z)

-- boundedexec.Result, as far as runCI reads it.
pub record Execution : Type 0 where
  pub started : Bool
  pub exit_code : ℤ
  pub timed_out : Bool
  pub canceled : Bool
  pub stdout_truncated : Bool
  pub stderr_truncated : Bool

-- What the machine answers after the test command.
pub record TestAftermath : Type 0 where
  pub stopped : Option Code
  pub cleanup : Option Code
  pub deadline : Bool
  pub cancelled : Bool
  pub logs : Option Code

-- The runner's files are discarded only where nothing runs any more.
abbrev pub test_error : Option Code → TestAftermath → Option Code
test_error e m = first_error m.stopped (first_error m.cleanup e)

abbrev pub passes : Option Code → Execution → Bool
passes error r =
    not (present error)
    && r.started
    && eq_ℤ r.exit_code (pos 0)
    && not r.timed_out
    && not r.canceled

-- `active.Err() == context.DeadlineExceeded && term == nil && cleanupErr == nil && …`
abbrev pub ran_out : Option Code → TestAftermath → Bool
ran_out error m =
    m.deadline && not (present m.stopped) && not (present m.cleanup) && ltb (severity error) 5

-- The verdict of runCI, with its error.
unfoldable pub judge_test : Execution → Option Code → TestAftermath → CiStatus × Option Code
judge_test r e m =
    let error : Option Code = test_error e m in
    let first : CiStatus =
      if passes error r
      then CiStatus.pass
      else if r.timed_out || m.deadline
      then CiStatus.timeout
      else CiStatus.fail in
    let second : CiStatus = if ran_out error m then CiStatus.timeout else first in
    let error' : Option Code = if ran_out error m then none else error in
    let third : CiStatus =
      if (m.cancelled && not m.deadline) || present error' then CiStatus.terminated else second in
    if present m.logs then (CiStatus.terminated, m.logs) else (third, error')
