-- ===== src/Scheduler/Judgements.antt =====
-- Proofs about the verdicts of attempt and runCI, internal/scheduler/scheduler.go.
use scp_harness.Base.{
  pos, ◌≡◌, refl, sym, ◌∙◌, ◌↔◌, Bool, true, false, not, ◌&&◌, Option, none, some, Result, ok,
  ok-inj, err, panic, Code, ◌>>=◌, >>=-eq-ok, arith, Bool-cases, inl, inr, present, eq_ℤ, subst,
}
use scp_harness.Model.{CiStatus, Artifact, same}
use scp_harness.Core.{is_returned}
use scp_harness.Worker.{Answer}
use scp_harness.Scheduler.Verdicts.{
  WorkerOutcome, Ending, Aftermath, launch_failed, judge_process, judge_context, judge_stop,
  failed_capture, take_capture, judge_capture, read_answer, judge_answer, judge_logs, judge_attempt,
  Execution, TestAftermath, judge_test,
}

-- A test run passes exactly when the command was started, ended with the status 0 by itself and in
-- time, and nothing failed or interfered on the way.
pub record PassedTest (r : Execution) (e : Option Code) (m : TestAftermath) : Type 0 where
  pub ran : e ≡ none
  pub started : r.started ≡ true
  pub success : eq_ℤ r.exit_code (pos 0) ≡ true
  pub in_time : r.timed_out ≡ false
  pub not_canceled : r.canceled ≡ false
  pub stopped : m.stopped ≡ none
  pub cleaned : m.cleanup ≡ none
  pub before_deadline : m.deadline ≡ false
  pub not_cancelled : m.cancelled ≡ false
  pub logged : m.logs ≡ none

judge_test-pass_only :
    (r : Execution) (e : Option Code) (m : TestAftermath)
    → (judge_test r e m).0 ≡ CiStatus.pass
    → PassedTest r e m
unfolding judge_test
judge_test-pass_only r e m h = record {
  ran = ground arith;
  started = ground arith;
  success = ground arith;
  in_time = ground arith;
  not_canceled = ground arith;
  stopped = ground arith;
  cleaned = ground arith;
  before_deadline = ground arith;
  not_cancelled = ground arith;
  logged = ground arith;
}

judge_test-pass_if :
    (r : Execution) (e : Option Code) (m : TestAftermath)
    → PassedTest r e m
    → (judge_test r e m).0 ≡ CiStatus.pass
unfolding judge_test
judge_test-pass_if r e m h = ground (
  arith, h.ran, h.started, h.success, h.in_time, h.not_canceled, h.stopped, h.cleaned,
  h.before_deadline, h.not_cancelled, h.logged,
)

-- The verdict of runCI is PASS exactly when the test command was started and ended with the status
-- 0, neither timed out nor was cancelled, no error occurred before, in or after it, neither its
-- lease nor the monitor ended it, and the logs were closed.
pub judge_test-pass_iff :
    (r : Execution) (e : Option Code) (m : TestAftermath)
    → ((judge_test r e m).0 ≡ CiStatus.pass) ↔ PassedTest r e m
judge_test-pass_iff r e m = (judge_test-pass_only r e m, judge_test-pass_if r e m)

-- An answer counts, for Complete, only if the worker returned by itself and nothing failed.
pub record CleanAnswer (prepared : Bool) (out : WorkerOutcome) (e : Option Code) (m : Aftermath)
    (answer : Answer) : Type 0 where
  pub ready : prepared ≡ true
  pub returned : is_returned out.status ≡ true
  pub available : out.reason ≡ none
  pub ran : e ≡ none
  pub stopped : m.stopped ≡ none
  pub before_deadline : m.deadline ≡ false
  pub not_cancelled : m.cancelled ≡ false
  pub parsed : m.answer ≡ ok answer
  pub logged : m.logs ≡ none

judge_logs-returned :
    (logs : Option Code) (x : Ending)
    → is_returned (judge_logs logs x).status ≡ true
    → (logs ≡ none) × (judge_logs logs x ≡ x)
unfolding judge_logs
judge_logs-returned none x h = (refl, refl)
judge_logs-returned (some c) x h = absurd (ground arith)

read_answer-valid :
    (answer : Result Answer) (x y : Ending)
    → x.valid ≡ false
    → read_answer answer x ≡ ok y
    → y.valid ≡ true
    → answer ≡ ok y.answer
unfolding read_answer
read_answer-valid (ok a) x y old e h = ground arith
read_answer-valid (err c) x y old e h = absurd (ground arith)
read_answer-valid panic x y old e h = absurd (ground arith)

judge_answer-valid :
    (prepared : Bool) (answer : Result Answer) (x y : Ending)
    → x.valid ≡ false
    → judge_answer prepared answer x ≡ ok y
    → y.valid ≡ true
    → (prepared ≡ true) × (is_returned x.status ≡ true) × (x.error ≡ none) × (answer ≡ ok y.answer)
unfolding judge_answer
judge_answer-valid prepared answer x y old e h =
    elim (Bool-cases (prepared && is_returned x.status && not (present x.error))) [
      | inr skipped ↦ absurd (ground arith)
      | inl clean ↦ (
        ground arith,
        ground arith,
        ground arith,
        read_answer-valid answer x y old (ground arith) h,
      )
    ]

take_capture-returned :
    (capture : Result Artifact) (x y : Ending)
    → take_capture capture x ≡ ok y
    → is_returned y.status ≡ true
    → y.error ≡ none
    → (is_returned x.status ≡ true) × (x.error ≡ none)
unfolding take_capture failed_capture
take_capture-returned (ok f) x y e h none_in = (ground arith, ground arith)
take_capture-returned (err c) x y e h none_in = (ground arith, ground arith)
take_capture-returned panic x y e h none_in = absurd (ground arith)

judge_capture-returned :
    (captures : Bool) (capture : Result Artifact) (x y : Ending)
    → judge_capture captures capture x ≡ ok y
    → is_returned y.status ≡ true
    → y.error ≡ none
    → (is_returned x.status ≡ true) × (x.error ≡ none)
unfolding judge_capture
judge_capture-returned captures capture x y e h none_in =
    elim (Bool-cases (captures && not (present x.unstopped))) [
      | inl taken ↦ take_capture-returned capture x y (ground arith) h none_in
      | inr left ↦ (ground arith, ground arith)
    ]

take_capture-valid :
    (capture : Result Artifact) (x y : Ending) → take_capture capture x ≡ ok y → y.valid ≡ x.valid
unfolding take_capture failed_capture
take_capture-valid (ok f) x y e = ground arith
take_capture-valid (err c) x y e = ground arith
take_capture-valid panic x y e = absurd (ground arith)

judge_capture-valid :
    (captures : Bool) (capture : Result Artifact) (x y : Ending)
    → judge_capture captures capture x ≡ ok y
    → y.valid ≡ x.valid
unfolding judge_capture
judge_capture-valid captures capture x y e =
    elim (Bool-cases (captures && not (present x.unstopped))) [
      | inl taken ↦ take_capture-valid capture x y (ground arith)
      | inr left ↦ ground arith
    ]

-- The ending before the capture is clean only if the process and its context were.
judge_stop-clean :
    (out : WorkerOutcome) (e : Option Code) (m : Aftermath)
    → (let x = judge_stop (judge_context (launch_failed out e) m (judge_process out e m.stopped)) in
        is_returned x.status ≡ true
        → x.error ≡ none
        → (is_returned out.status ≡ true)
          × (out.reason ≡ none)
          × (e ≡ none)
          × (m.stopped ≡ none)
          × (m.deadline ≡ false)
          × (m.cancelled ≡ false))
unfolding judge_stop judge_context judge_process
judge_stop-clean out e m h none_in =
    (ground arith, ground arith, ground arith, ground arith, ground arith, ground arith)

judge_stop-fresh :
    (out : WorkerOutcome) (e : Option Code) (m : Aftermath)
    → (judge_stop (judge_context (launch_failed out e) m (judge_process out e m.stopped))).valid
      ≡ false
unfolding judge_stop judge_context judge_process
judge_stop-fresh out e m = ground arith

-- When attempt ends with an answer that is valid and with the status RETURNED, which is what
-- Complete asks of an answer that counts, everything was prepared, the worker's process returned
-- and was available, it ran and stopped without an error, neither the lease nor the monitor ended
-- it, the result file was read and parsed as that answer, and the logs were closed.
pub judge_attempt-clean :
    (prepared captures : Bool) (out : WorkerOutcome) (e : Option Code) (m : Aftermath) (x : Ending)
    → judge_attempt prepared captures out e m ≡ ok x
    → x.valid ≡ true
    → is_returned x.status ≡ true
    → CleanAnswer prepared out e m x.answer
unfolding judge_attempt
judge_attempt-clean prepared captures out e m x call valid returned =
    let x0 : Ending =
      judge_stop (judge_context (launch_failed out e) m (judge_process out e m.stopped)) in
    let rest : Ending → Result Ending = λ z. ok (judge_logs m.logs z) in
    let (y, ey, later) =
      >>=-eq-ok (judge_capture captures m.capture x0)
        (λ y. judge_answer prepared m.answer y >>= rest) (sym call) in
    let (z, ez, last) = >>=-eq-ok (judge_answer prepared m.answer y) rest (sym later) in
    let is : x ≡ judge_logs m.logs z = sym (ok-inj last) in
    let (logged, same) =
      judge_logs-returned m.logs z
        (subst (λ (w : Ending). is_returned w.status ≡ true) is returned) in
    let is_z : z ≡ x = sym (is ∙ same) in
    let valid_z : z.valid ≡ true = rw is_z valid in
    let fresh : y.valid ≡ false =
      judge_capture-valid captures m.capture x0 y ey ∙ judge_stop-fresh out e m in
    let (ready, returned_y, none_in, parsed) =
      judge_answer-valid prepared m.answer y z fresh ez valid_z in
    let (returned_0, none_0) =
      judge_capture-returned captures m.capture x0 y ey returned_y none_in in
    let (a, b, c, d, f, g) = judge_stop-clean out e m returned_0 none_0 in
    record {
      ready = ready;
      returned = a;
      available = b;
      ran = c;
      stopped = d;
      before_deadline = f;
      not_cancelled = g;
      parsed = subst (λ (w : Ending). m.answer ≡ ok w.answer) is_z parsed;
      logged = logged;
    }
