-- ===== src/Core/Changes.antt =====
-- ChangeAction of internal/core/change.go. A call that takes the lock of a task's control has what
-- the lock answers as an argument, `gate`.
use scp_harness.Base.{
  Map, Bool, true, false, not, ◌&&◌, ◌||◌, Option, none, some, [], ◌∷◌, lookup, insert, Result, ok,
  err, Code, ◌>>=◌, ◌>>◌, fail_if, or_fail, deref, ◌==◌, if◌then◌else◌,
}
use scp_harness.Model.{
  Attempt, Key, State, Change, ChangeState, Stage, Config, Capability, Card, Message, is_active,
  is_queued, is_paused, is_blocked, is_stale, is_await_promotion, terminal, flagged, active_attempt,
  require, operator_card, audit, touch, now, drawn, latest_ci,
}
use scp_harness.Store.{Disk, read}
use scp_harness.Core.Common.{core_update, after_tests, set_change_now}
use scp_harness.Core.Steps.{promotion_evidence, change_active}
use Prim.Native.String.{String}

-- The actions on a Change; any other word is `unknown`.
pub data ChangeCommand : Type 0 where
  pause abort promote resume retry_ci retry_review rework unknown : ChangeCommand

-- `"change." + action`; no card has a capability of an unknown name.
abbrev pub command_capability : ChangeCommand → Option Capability
command_capability ChangeCommand.pause = some Capability.change_pause
command_capability ChangeCommand.abort = some Capability.change_abort
command_capability ChangeCommand.promote = some Capability.change_promote
command_capability ChangeCommand.resume = some Capability.change_resume
command_capability ChangeCommand.retry_ci = some Capability.change_retry_ci
command_capability ChangeCommand.retry_review = some Capability.change_retry_review
command_capability ChangeCommand.rework = some Capability.change_rework
command_capability ChangeCommand.unknown = none

abbrev pub command_allowed : ChangeCommand → Card → Result (Unit {0})
command_allowed command card = elim (command_capability command) [
  | none ↦ err Code.capability_denied
  | some cap ↦ require (cap ∷ []) card
]

-- `action == "pause" || action == "abort"`
abbrev pub interrupts_activity : ChangeCommand → Bool
interrupts_activity ChangeCommand.pause = true
interrupts_activity ChangeCommand.abort = true
interrupts_activity _ = false

abbrev pub command_event : ChangeCommand → String
command_event ChangeCommand.pause = "CHANGE_PAUSE"
command_event ChangeCommand.abort = "CHANGE_ABORT"
command_event ChangeCommand.promote = "CHANGE_PROMOTE"
command_event ChangeCommand.resume = "CHANGE_RESUME"
command_event ChangeCommand.retry_ci = "CHANGE_RETRY-CI"
command_event ChangeCommand.retry_review = "CHANGE_RETRY-REVIEW"
command_event ChangeCommand.rework = "CHANGE_REWORK"
command_event ChangeCommand.unknown = "CHANGE_UNKNOWN"

-- The tests that ChangeAction makes before its switch.
unfoldable pub change_admits : ChangeCommand → Key → Change → State → Result (Unit {0})
change_admits command id ch s = do
  fail_if (terminal ch) Code.invalid_state
  if interrupts_activity command then ok tt else (do
    t ← deref (lookup ch.task_id s.tasks)
    fail_if (not (is_active t.status)) Code.invalid_state)
  fail_if (flagged ch.task_id s.cancellations) Code.blocked
  fail_if (not (interrupts_activity command) && change_active id s) Code.blocked

-- `s.Interrupts[a.ID] = true` for the attempts that pass a test
unfoldable pub interrupt_own : (Attempt → Bool) → Map Attempt → Map Bool → Map Bool
interrupt_own p [] m = m
interrupt_own p ((_, a) ∷ as') m = interrupt_own p as' (if p a then insert a.id true m else m)

-- The case "pause", "abort" of its switch.
unfoldable pub halt_change : ChangeState → Key → Change → State → State
halt_change state id ch s =
    let s' : State = set_change_now id ch ch.stage state "" s in
    record s' {
      interrupts =
          interrupt_own (λ a. (a.change_id == id) && active_attempt a) s'.attempts s'.interrupts;
    }

-- What the case "resume", "retry-ci", "retry-review", "rework" does to the Change before it queues
-- it: a retry goes back to a stage, for an Artifact of the Change.
unfoldable pub rewind : ChangeCommand → Key → Change → State → Result Change
rewind ChangeCommand.resume id ch s = do
  fail_if (not (is_paused ch.state) && not (is_blocked ch.state)) Code.invalid_state
  ok ch
rewind command id ch s = do
  a ← or_fail (lookup ch.artifact_id s.artifacts) Code.precondition_failed
  fail_if (not (a.change_id == id)) Code.precondition_failed
  elim command [
    | ChangeCommand.retry_ci ↦ ok (record ch { stage = Stage.ci; review_attempt_id = 0 })
    | ChangeCommand.retry_review ↦ do
      ci ← or_fail (latest_ci a.id s) Code.precondition_failed
      ok (record ch { ci_run_id = ci.id; stage = Stage.review; review_attempt_id = 0 })
    | _ ↦ ok (record ch { stage = Stage.mutation; review_attempt_id = 0 })
  ]

unfoldable pub requeue_change : ChangeCommand → Key → Change → State → Result State
requeue_change command id ch s = do
  fail_if (is_stale ch.state) Code.invalid_state
  ch' ← rewind command id ch s
  let reset : Change = record ch' { timeout_reset_at = now s }
  ok (set_change_now id reset reset.stage ChangeState.queued "" (drawn s))

-- The case "promote".
unfoldable pub promote_change : Key → Change → State → Result State
promote_change id ch s = do
  fail_if
      (not (is_await_promotion ch.stage)
        || not (is_queued ch.state)
        || not (promotion_evidence ch s))
      Code.precondition_failed
  ok (set_change_now id ch Stage.promotion ChangeState.queued "" s)

-- The switch of ChangeAction.
unfoldable pub switch_change : ChangeCommand → Key → Change → State → Result State
switch_change ChangeCommand.pause id ch s = ok (halt_change ChangeState.paused id ch s)
switch_change ChangeCommand.abort id ch s = ok (halt_change ChangeState.aborted id ch s)
switch_change ChangeCommand.promote id ch s = promote_change id ch s
switch_change ChangeCommand.unknown id ch s = err Code.usage_error
switch_change ChangeCommand.resume id ch s = requeue_change ChangeCommand.resume id ch s
switch_change ChangeCommand.retry_ci id ch s = requeue_change ChangeCommand.retry_ci id ch s
switch_change ChangeCommand.retry_review id ch s = requeue_change ChangeCommand.retry_review id ch s
switch_change ChangeCommand.rework id ch s = requeue_change ChangeCommand.rework id ch s

-- The transaction of ChangeAction.
unfoldable pub change_action_in : ChangeCommand → Key → State → Result (Change × State)
change_action_in command id s = do
  ch ← or_fail (lookup id s.changes) Code.not_found
  change_admits command id ch s
  s' ← switch_change command id ch s
  let after : State =
      touch ch.task_id (audit ch.task_id (command_event command) (Message.about ch.id) s')
  ch' ← deref (lookup id after.changes)
  ok (ch', after)

-- ChangeAction up to the end of its transaction; it then waits for the activity to settle.
unfoldable pub change_action :
    Config → Disk → Result (Unit {0}) → ChangeCommand → Key → State → Result Change × State
change_action cfg disk gate command id db =
    after_tests
      (do
        command_allowed command (operator_card cfg)
        snapshot ← read disk db
        _ ← or_fail (lookup id snapshot.changes) Code.not_found
        gate)
      db (core_update disk (change_action_in command id) db)
