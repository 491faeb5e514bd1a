-- ===== src/Core/Runs.antt =====
-- The runs of the machine verification: internal/core/ci.go.
use scp_harness.Base.{
  ℕ, ◌+◌, pos, Bool, false, not, ◌&&◌, ◌||◌, none, some, List, [], ◌∷◌, ◌++◌, lookup, insert,
  Result, ok, err, Code, ◌>>=◌, ◌>>◌, fail_if, or_fail, deref, ◌==◌, leb, ltb, if◌then◌else◌, min_ℤ,
  keep,
}
use scp_harness.Model.{
  Key, State, Step, Change, ChangeState, Stage, CiRun, CiStatus, Operation, Kind, LogPath, Slot,
  Config, Capability, is_active, is_busy, is_paused, is_aborted, ci_queued, ci_terminated,
  ci_timed_out, active_run, flagged, require, operator_card, touch, fresh_id, now, drawn,
}
use scp_harness.Ledger.{reserve, settle}
use scp_harness.Store.{Disk, update}
use scp_harness.Core.Common.{core_update, after_tests, set_change_now}
use scp_harness.Core.Steps.{anchor, runnable}
use scp_harness.Core.Slots.{finish_activity, sort, values}

-- A run that is only queued: its other fields are zero.
abbrev pub queued_run : Key → Key → Key → ℕ → CiRun
queued_run id change artifact created = record {
  id = id;
  change_id = change;
  artifact_id = artifact;
  status = CiStatus.queued;
  created = created;
  started = 0;
  ended = 0;
  exit_code = none;
  stdout = LogPath.unset;
  stderr = LogPath.unset;
  stdout_truncated = false;
  stderr_truncated = false;
  lease = pos 0;
  elapsed = pos 0;
  timeout = pos 0;
  command = [];
  config_hash = 0;
}

-- The transaction of QueueCI.
unfoldable pub queue_ci_in : Key → State → Result (CiRun × State)
queue_ci_in artifact s = do
  a ← or_fail (lookup artifact s.artifacts) Code.not_found
  t ← deref (lookup a.task_id s.tasks)
  fail_if (not (is_active t.status) || flagged a.task_id s.cancellations) Code.invalid_state
  let r : CiRun = queued_run (fresh_id s) 0 artifact (now (drawn s))
  let named : State = drawn (drawn s)
  let p : Step = record {
    change_id = 0;
    ci_run_id = r.id;
    request_id = fresh_id named;
    task_id = a.task_id;
    option_id = 0;
    operation = Operation.ci;
    target_type = Kind.artifact;
    target_id = artifact;
    participants = [];
  }
  ok (
    r,
    record named {
      ci_runs = insert r.id r s.ci_runs;
      requests = s.requests ++ (p ∷ []);
      draws = named.draws + 1;
    },
  )

unfoldable pub queue_ci : Config → Disk → Key → State → Result CiRun × State
queue_ci cfg disk artifact db =
    after_tests (require (Capability.ci_run ∷ []) (operator_card cfg)) db
      (core_update disk (queue_ci_in artifact) db)

-- The run that PrepareCI starts: the queued one of its id, or a new one.
unfoldable pub run_to_start : Step → Key → State → Result (CiRun × State)
run_to_start p id s = elim (lookup id s.ci_runs) [
  | none ↦ ok (queued_run id p.change_id p.target_id (now s), drawn s)
  | some r ↦ if ci_queued r.status then ok (r, s) else err Code.invalid_state
]

-- `ch.CIRunID = id; ch.ReviewAttemptID = ""`
abbrev pub bind_run : Key → Key → State → State
bind_run change id s = elim (lookup change s.changes) [
  | none ↦ s
  | some ch ↦
      let ch' : Change = record ch { ci_run_id = id; review_attempt_id = 0 } in
      record s { changes = insert change ch' s.changes }
]

-- The transaction of PrepareCI.
unfoldable pub prepare_ci_in : Config → Step → Key → State → Result (CiRun × State)
prepare_ci_in cfg p owner s = do
  fail_if (not (s.slot_owner == owner) || not (is_busy s.slot.state)) Code.blocked
  fit ← runnable cfg p s
  fail_if (not fit) Code.blocked
  k ← anchor p s
  let id : Key = if p.ci_run_id == 0 then fresh_id s else p.ci_run_id
  let named : State = if p.ci_run_id == 0 then drawn s else s
  (r, s1) ← run_to_start p id named
  a ← deref (lookup k s1.accounts)
  let r' : CiRun = record r {
    status = CiStatus.preparing;
    started = now s1;
    timeout = cfg.test_timeout;
    command = cfg.test_command;
    config_hash = cfg.hash;
    lease = min_ℤ a.remaining cfg.test_timeout;
    stdout = LogPath.stdout_of id;
    stderr = LogPath.stderr_of id;
  }
  let written : State = record s1 { ci_runs = insert id r' s1.ci_runs; draws = s1.draws + 1 }
  s2 ← reserve id k r'.lease written
  let bound : State = bind_run p.change_id id s2
  let slot : Slot = record bound.slot { owner = some id }
  ok (r', record bound { slot = slot })

unfoldable pub prepare_ci : Config → Disk → Step → Key → State → Result CiRun × State
prepare_ci cfg disk p owner db = core_update disk (prepare_ci_in cfg p owner) db

-- The finished runs of a Change since its last explicit recovery, the latest first.
abbrev pub counts_for : Change → CiRun → Bool
counts_for ch r = (r.change_id == ch.id) && not (r.ended == 0) && leb ch.timeout_reset_at r.started

abbrev pub started_after : CiRun → CiRun → Bool
started_after a b = ltb b.started a.started

-- How many runs at the front of a list timed out.
unfoldable pub streak_of : List CiRun → ℕ
streak_of [] = 0
streak_of (r ∷ rs) = let rest = streak_of rs in if ci_timed_out r.status then rest + 1 else 0

unfoldable pub timeout_streak : Change → State → ℕ
timeout_streak ch s = streak_of (sort started_after (keep (counts_for ch) (values s.ci_runs)))

-- What a finished run does to its Change.
unfoldable pub advance_change : Key → Change → CiRun → Key → State → State
advance_change id ch r task s =
    let streak : ℕ = timeout_streak ch s in
    let ch' : Change = record ch { timeout_streak = streak } in
    if is_paused ch.state
      || is_aborted ch.state
      || flagged task s.cancellations
      || ci_terminated r.status
    then (if is_aborted ch.state then s else set_change_now id ch ch.stage ChangeState.paused "" s)
    else if leb 2 streak
    then set_change_now id ch' Stage.ci ChangeState.blocked "REPEATED_CI_TIMEOUT" s
    else set_change_now id ch' Stage.review ChangeState.queued "" s

-- The transaction of FinishCI.
unfoldable pub finish_ci_in : Step → CiRun → Bool → State → Result (Unit {0} × State)
finish_ci_in p result uncertain s = do
  r ← or_fail (lookup result.id s.ci_runs) Code.core_inconsistent
  fail_if (not (active_run r)) Code.core_inconsistent
  settled ← settle r.id result.elapsed uncertain s
  let r' : CiRun = record result { ended = now settled }
  let ended : State = record settled {
    ci_runs = insert result.id r' settled.ci_runs;
    draws = settled.draws + 1;
  }
  let advanced : State = elim (lookup p.change_id ended.changes) [
    | none ↦ ended
    | some ch ↦ advance_change p.change_id ch r' p.task_id ended
  ]
  ok (tt, touch p.task_id (finish_activity p advanced))

unfoldable pub finish_ci : Disk → Step → CiRun → Bool → State → Result (Unit {0}) × State
finish_ci disk p result uncertain db = update disk (finish_ci_in p result uncertain) db
