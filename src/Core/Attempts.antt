-- ===== src/Core/Attempts.antt =====
-- PrepareAttempt of internal/core/runtime.go.
use scp_harness.Base.{
  ℤ, pos, Bool, true, false, not, ◌&&◌, ◌||◌, Option, none, some, [], ◌∷◌, lookup, insert,
  any_entry, all, Result, ok, err, panic, Code, ◌>>=◌, ◌>>◌, fail_if, deref, ◌==◌, if◌then◌else◌,
  min_ℤ, le_ℤ, present, Text,
}
use scp_harness.Model.{
  Key, State, Task, Step, Change, Attempt, AttemptStatus, Kind, LogPath, Slot, Config, Card,
  Profile, Workspace, Capability, Channel, Proposal, is_busy, is_option, is_artifact,
  is_mutation_op, is_review, is_open, active_attempt, profile_of, card_named, require, sees, touch,
  fresh_id, now, drawn, same, Operation-discrete,
}
use scp_harness.Ledger.{reserve}
use scp_harness.Store.{Disk}
use scp_harness.Core.Common.{core_update, after_tests}
use scp_harness.Core.Steps.{anchor, runnable, change_step, input_usable}

abbrev pub is_writable : Workspace → Bool
is_writable Workspace.writable = true
is_writable _ = false

abbrev pub is_absent : Workspace → Bool
is_absent Workspace.absent = true
is_absent _ = false

abbrev pub require_if : Bool → Capability → Card → Result (Unit {0})
require_if false cap card = ok tt
require_if true cap card = require (cap ∷ []) card

-- What the card of an activity's profile must grant before its Attempt is prepared.
unfoldable pub attempt_allowed : Step → Profile → Card → Result (Unit {0})
attempt_allowed p profile card = do
  require (Capability.process_execute ∷ []) card
  require_if (is_writable profile.workspace) Capability.sandbox_write card
  fail_if
      (is_mutation_op p.operation
        && is_artifact p.target_type
        && (not (sees Channel.ci_result card) || not (sees Channel.review_findings card)))
      Code.capability_denied
  fail_if (is_review p.operation && not (sees Channel.ci_result card)) Code.capability_denied
  require_if (not (is_absent profile.workspace) && not (is_artifact p.target_type))
      Capability.repository_read card

-- `expected != nil && expected.Operation == p.Operation && expected.TargetID == p.TargetID`
abbrev pub is_expected : Step → Option Step → Bool
is_expected p none = false
is_expected p (some q) =
    same Operation-discrete q.operation p.operation && (q.target_id == p.target_id)

-- A step that names a Change must be the one that the Change's stage stands for.
unfoldable pub change_authority : Step → State → Result (Unit {0})
change_authority p s = if p.change_id == 0 then ok tt else (do
  ch ← deref (lookup p.change_id s.changes)
  fail_if (not (is_expected p (change_step ch))) Code.precondition_failed)

abbrev pub participant_open : Option Proposal → Bool
participant_open none = false
participant_open (some o) = is_open o.status

-- The tests of the transaction, in their order.
unfoldable pub attempt_admits : Config → Step → Key → State → Result (Unit {0})
attempt_admits cfg p owner s = do
  fail_if
      ((is_mutation_op p.operation || is_review p.operation)
        && ((p.change_id == 0) || not (present (lookup p.change_id s.changes))))
      Code.precondition_failed
  change_authority p s
  fail_if (not (s.slot_owner == owner) || not (is_busy s.slot.state)) Code.blocked
  fit ← runnable cfg p s
  fail_if (not fit) Code.blocked
  fail_if (is_option p.target_type && not (input_usable p (lookup p.target_id s.options)))
      Code.invalid_state
  fail_if (not (all (λ id. participant_open (lookup id s.options)) p.participants))
      Code.invalid_state
  fail_if (any_entry (λ _ a. active_attempt a) s.attempts) Code.core_inconsistent

abbrev pub objective_of : Task → Option Change → Text
objective_of t none = t.objective
objective_of t (some ch) = ch.objective

-- `ch.ReviewAttemptID = id`, for a review
abbrev pub bind_review : Step → Key → State → State
bind_review p id s = elim (lookup p.change_id s.changes) [
  | none ↦ s
  | some ch ↦
      let ch' : Change = record ch { review_attempt_id = id } in
      if is_review p.operation then record s { changes = insert p.change_id ch' s.changes } else s
]

-- The Attempt that is prepared, under the next id.
unfoldable pub new_attempt : Profile → Card → Step → Key → ℤ → Task → State → Attempt
new_attempt profile card p k lease t s =
    let id : Key = fresh_id s in
    record {
      objective = objective_of t (lookup p.change_id s.changes);
      change_id = p.change_id;
      id = id;
      task_id = t.id;
      operation = p.operation;
      target_type = p.target_type;
      target_id = p.target_id;
      actor = card.id;
      profile = profile.id;
      anchor_type = if k == p.task_id then Kind.task else Kind.option;
      anchor_id = k;
      lease = lease;
      sha = t.sha;
      revision = t.revision;
      started = now (drawn s);
      ended = none;
      status = AttemptStatus.preparing;
      exit_code = none;
      reason = none;
      stdout = LogPath.stdout_of id;
      stderr = LogPath.stderr_of id;
      artifact_id = none;
    }

-- The state after the reservation, with the Attempt in it.
unfoldable pub attach : Step → Key → Attempt → State → State
attach p id a s =
    let bound : State = bind_review p id (record s { attempts = insert id a s.attempts }) in
    let slot : Slot = record bound.slot { owner = some id } in record bound { slot = slot }

-- The transaction of PrepareAttempt.
unfoldable pub prepare_attempt_in :
    Config → Profile → Card → Step → Key → State → Result (Attempt × State)
prepare_attempt_in cfg profile card p owner s = do
  attempt_admits cfg p owner s
  k ← anchor p s
  account ← deref (lookup k s.accounts)
  let lease : ℤ = min_ℤ (min_ℤ account.remaining profile.timeout) card.lease
  fail_if (le_ℤ lease (pos 0)) Code.insufficient_resource
  t ← deref (lookup p.task_id s.tasks)
  let a : Attempt = new_attempt profile card p k lease t s
  s1 ← reserve (fresh_id s) k lease (drawn (drawn s))
  ok (a, touch t.id (attach p (fresh_id s) a s1))

unfoldable pub prepare_attempt : Config → Disk → Step → Key → State → Result Attempt × State
prepare_attempt cfg disk p owner db = elim (profile_of p.operation cfg) [
  | ok profile ↦
      let card : Card = card_named profile.card cfg in
      after_tests (attempt_allowed p profile card) db
        (core_update disk (prepare_attempt_in cfg profile card p owner) db)
  | err e ↦ (err e, db)
  | panic ↦ (panic, db)
]
