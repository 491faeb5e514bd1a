-- ===== src/Core/Lifecycles.antt =====
-- The life of a task, of internal/core/core.go: requestCancellation and finishLifecycle.
use scp_harness.Base.{
  ℕ, ◌+◌, Bool, true, false, not, ◌&&◌, Option, none, some, List, [], ◌∷◌, Map, lookup, insert,
  erase, any_entry, Result, ok, Code, ◌>>=◌, ◌>>◌, fail_if, or_fail, deref, ◌==◌, if◌then◌else◌,
}
use scp_harness.Model.{
  Key, Time, State, Task, TaskStatus, CiRun, CiStatus, Attempt, Step, ChangeState, Config, Kind,
  ClaimType, empty_object, is_active, is_suspended, set_change, terminal, operator_card, touch,
  ci_queued, active_attempt,
}
use scp_harness.Store.{Disk, update, identity_of, task_quiescent}
use scp_harness.Core.Common.{find_task, core_update, set_changes}
use scp_harness.Core.Claims.{add_claim}

pub data Action : Type 0 where
  suspend resume close : Action

-- One case of the switch of finishLifecycle.
unfoldable pub resume_in : Key → Key → Key → Task → State → Result State
resume_in id sha identity t s = do
  fail_if (not (is_suspended t.status)) Code.invalid_state
  fail_if
      (any_entry
        (λ _ other.
          not (other.id == id)
          && is_active other.status
          && (identity_of other.id s.repository_identities == identity))
        s.tasks)
      Code.precondition_failed
  let t' : Task = record t { status = TaskStatus.active; sha = sha }
  let active : State = record s {
    tasks = insert id t' s.tasks;
    repository_identities = insert id identity s.repository_identities;
  }
  ok (
      set_changes (λ ch. (ch.task_id == id) && not (terminal ch) && not (ch.base_sha == sha))
        (λ time ch. set_change ch.stage ChangeState.stale "BASE_CHANGED" time ch) active)

unfoldable pub suspend_in : Key → Task → State → Result State
suspend_in id t s = do
  fail_if (not (is_active t.status)) Code.invalid_state
  fail_if (not (task_quiescent id s)) Code.blocked
  let t' : Task = record t { status = TaskStatus.suspended }
  ok (record s {
    tasks = insert id t' s.tasks;
    pending = erase id s.pending;
    cancellations = erase id s.cancellations;
  })

unfoldable pub act : Config → Key → Action → Key → Key → Task → State → Result State
act cfg id Action.resume sha identity t s = resume_in id sha identity t s
act cfg id Action.suspend sha identity t s = suspend_in id t s
act cfg id Action.close sha identity t s = do
  (_, s') ←
      add_claim t (operator_card cfg) Kind.task id ClaimType.fulfilled empty_object t.sha t.revision
        s
  ok s'

-- The transaction of finishLifecycle.
unfoldable pub finish_lifecycle_in :
    Config → Key → Action → Key → Key → State → Result (Task × State)
finish_lifecycle_in cfg id action sha identity s = do
  t ← find_task id s
  s' ← act cfg id action sha identity t s
  let after : State = touch id s'
  t' ← deref (lookup id after.tasks)
  ok (t', after)

unfoldable pub finish_lifecycle :
    Config → Disk → Key → Action → Key → Key → State → Result Task × State
finish_lifecycle cfg disk id action sha identity db =
    core_update disk (finish_lifecycle_in cfg id action sha identity) db

-- The loop of requestCancellation over the requests: those of other tasks are kept, and the queued
-- runs of the task's own are terminated, each at its own time.
unfoldable pub drop_requests :
    Key → (ℕ → Time) → ℕ → List Step → Map CiRun → List Step × Map CiRun × ℕ
drop_requests task times n [] runs = ([], runs, n)
drop_requests task times n (p ∷ ps) runs =
    let queued : Option CiRun = elim (lookup p.ci_run_id runs) [
      | none ↦ none
      | some r ↦ if ci_queued r.status then some r else none
    ] in
    let mine : Bool = p.task_id == task in
    let ends : Bool = mine && (elim queued [ none ↦ false | some _ ↦ true ]) in
    let runs' : Map CiRun =
      if mine
      then elim queued [
        | none ↦ runs
        | some r ↦
            let r' : CiRun = record r { status = CiStatus.terminated; ended = times n } in
            insert p.ci_run_id r' runs
      ]
      else runs in
    let (ps', after, n') = drop_requests task times (if ends then n + 1 else n) ps runs' in
    (if mine then ps' else p ∷ ps', after, n')

-- `s.Interrupts[id] = true` for the attempts that pass a test
unfoldable pub interrupt_attempts : (Attempt → Bool) → Map Attempt → Map Bool → Map Bool
interrupt_attempts p [] m = m
interrupt_attempts p ((id, a) ∷ as') m =
    interrupt_attempts p as' (if p a then insert id true m else m)

-- The transaction of requestCancellation.
unfoldable pub request_cancellation_in : Key → State → Result (Unit {0} × State)
request_cancellation_in task s = do
  t ← or_fail (lookup task s.tasks) Code.not_found
  let flagged : State = record s { cancellations = insert task true s.cancellations }
  let paused : State =
      set_changes (λ ch. (ch.task_id == task) && not (terminal ch))
        (λ time ch. set_change ch.stage ChangeState.paused "" time ch) flagged
  let pending : Map Step =
      if not (paused.slot_task == task) then erase task paused.pending else paused.pending
  let (requests, runs, n) =
      drop_requests task paused.times paused.draws paused.requests paused.ci_runs
  let interrupts : Map Bool =
      interrupt_attempts (λ a. (a.task_id == task) && active_attempt a) paused.attempts
        paused.interrupts
  ok (
    tt,
    record paused {
      pending = pending;
      requests = requests;
      ci_runs = runs;
      interrupts = interrupts;
      draws = n;
    },
  )

unfoldable pub request_cancellation : Disk → Key → State → Result (Unit {0}) × State
request_cancellation disk task db = update disk (request_cancellation_in task) db
