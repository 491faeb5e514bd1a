-- ===== src/Tests/Recovery.antt =====
-- Recovery, verdicts, partitions and explorations at concrete inputs.
use scp_harness.Base.{
  pos, ◌+ℤ◌, ◌-ℤ◌, wrap64, add64, sub64, ◌≡◌, ◌≢◌, ◌↔◌, refl, true, false, none, some, [], ◌∷◌,
  lookup, insert, erase, Result, ok, err, panic, Code,
}
use scp_harness.Model.{Key, State, AttemptStatus, CiStatus, touch, new_state}
use scp_harness.Ledger.{settle}
use scp_harness.Core.Books.{Books}
use scp_harness.Core.Refinement.{Call, run_call, Refines, run_call-Refines}
use scp_harness.Worker.{no_answer, partition, mark, take_groups, take_group, discard}
use scp_harness.Worker.Partitioning.{IsPartition, partition_iff}
use scp_harness.Scheduler.{
  WorkerOutcome, Aftermath, Ending, judge_attempt, judge_process, judge_context, judge_stop,
  judge_capture, judge_answer, read_answer, judge_logs, Execution, TestAftermath, judge_test,
  retire_in, crash_attempt_in, keep_captured, pause_restart, count_crash,
}
use scp_harness.Scheduler.Retirement.{Retired, retire_in_total}
use scp_harness.Scheduler.Crashes.{Crashed, crash_attempt_in-Crashed}
use scp_harness.Scheduler.Judgements.{
  CleanAnswer, judge_attempt-clean, PassedTest, judge_test-pass_iff,
}
use scp_harness.Tests.Data.{empty, funded, funded-IsLedger}
use scp_harness.Tests.Controls.{state_of, funded-FreshIds, generation}
use scp_harness.Tests.Completions.{attempt_9, running, running-Books}

-- A split of three participants into two groups.
partition_iff_example :
    (partition ((1 ∷ 2 ∷ []) ∷ (3 ∷ []) ∷ []) (3 ∷ 1 ∷ 2 ∷ []) ≡ ok tt)
    ↔ IsPartition ((1 ∷ 2 ∷ []) ∷ (3 ∷ []) ∷ []) (3 ∷ 1 ∷ 2 ∷ [])
partition_iff_example = partition_iff ((1 ∷ 2 ∷ []) ∷ (3 ∷ []) ∷ []) (3 ∷ 1 ∷ 2 ∷ [])

partition_runs : partition ((1 ∷ 2 ∷ []) ∷ (3 ∷ []) ∷ []) (3 ∷ 1 ∷ 2 ∷ []) ≡ ok tt
unfolding partition mark take_groups take_group discard
partition_runs = refl

partition_repeats : partition ((1 ∷ 2 ∷ []) ∷ (1 ∷ []) ∷ []) (1 ∷ 2 ∷ []) ≡ err Code.schema_invalid
unfolding partition mark take_groups take_group discard
partition_repeats = refl

-- The lease 9 is left without an Attempt.
funded-Books : Books funded
funded-Books = record { ledger = funded-IsLedger; fresh = funded-FreshIds; keyed = (refl, tt) }

unattempted : (k : Key) → lookup k funded.leases ≢ none → lookup k funded.attempts ≡ none
unfolding lookup new_state
unattempted k there = refl

retire_in_total_example : (s' : State) × (retire_in funded ≡ ok (tt, s')) × Retired funded s'
retire_in_total_example = retire_in_total funded funded-Books unattempted

abbrev pub crashed : Result (Unit {0} × State)
crashed = crash_attempt_in attempt_9 generation none running

pub crash-running : crashed ≡ ok (tt, state_of crashed)
unfolding crash_attempt_in keep_captured settle lookup insert erase pause_restart count_crash touch
    new_state add64 sub64 wrap64 ◌+ℤ◌ ◌-ℤ◌
crash-running = refl

crash_attempt_in-Crashed_example : Crashed attempt_9 running (state_of crashed)
crash_attempt_in-Crashed_example =
    crash_attempt_in-Crashed attempt_9 generation none running running-Books crash-running

-- A worker that returned, and nothing failed.
abbrev returned : WorkerOutcome
returned = record { status = AttemptStatus.returned; reason = none; exit_code = some (pos 0) }

abbrev quiet : Aftermath
quiet = record {
  stopped = none;
  deadline = false;
  cancelled = false;
  capture = err Code.limit_exceeded;
  answer = ok no_answer;
  logs = none;
}

abbrev ending : Ending
ending = record {
  status = AttemptStatus.returned;
  reason = none;
  error = none;
  captured = none;
  answer = no_answer;
  valid = true;
  unstopped = none;
}

judge-returned : judge_attempt true false returned none quiet ≡ ok ending
unfolding judge_attempt judge_process judge_context judge_stop judge_capture judge_answer
    read_answer judge_logs
judge-returned = refl

judge_attempt-clean_example : CleanAnswer true returned none quiet no_answer
judge_attempt-clean_example =
    judge_attempt-clean true false returned none quiet ending judge-returned refl refl

abbrev execution : Execution
execution = record {
  started = true;
  exit_code = pos 0;
  timed_out = false;
  canceled = false;
  stdout_truncated = false;
  stderr_truncated = false;
}

abbrev test_after : TestAftermath
test_after = record {
  stopped = none;
  cleanup = none;
  deadline = false;
  cancelled = false;
  logs = none;
}

judge_test-pass_iff_example :
    ((judge_test execution none test_after).0 ≡ CiStatus.pass)
    ↔ PassedTest execution none test_after
judge_test-pass_iff_example = judge_test-pass_iff execution none test_after

-- The lease 9 is settled after 40 seconds.
abbrev settled_call : Result State
settled_call = run_call (Call.settles 9 (pos 40000) false) funded

abbrev settled_9 : State
settled_9 = elim settled_call [ ok s ↦ s | err e ↦ empty | panic ↦ empty ]

settle-funded : run_call (Call.settles 9 (pos 40000) false) funded ≡ ok settled_9
unfolding settle lookup insert erase new_state add64 sub64 wrap64 ◌+ℤ◌ ◌-ℤ◌
settle-funded = refl

run_call-Refines_example : Refines funded settled_9
run_call-Refines_example =
    run_call-Refines (Call.settles 9 (pos 40000) false) funded funded-IsLedger settle-funded
