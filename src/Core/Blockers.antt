-- ===== src/Core/Blockers.antt =====
-- block, ResolveBlocker and the transaction of Interrupt of internal/core/core.go.
use scp_harness.Base.{
  ◌+◌, Bool, true, false, not, ◌&&◌, Option, none, some, lookup, insert, any_entry, Result, ok,
  Code, ◌>>=◌, ◌>>◌, fail_if, or_fail, ◌==◌, if◌then◌else◌, present,
}
use scp_harness.Model.{
  Key, State, Blocker, Scope, Message, fresh_id, now, drawn, audit, touch, active_attempt, same,
  Code-discrete, Scope-discrete,
}
use scp_harness.Store.{Disk, update}
use Prim.Native.String.{String}

-- The switch of block: what a blocker of a kind stands in the way of.
abbrev pub scope_of : Code → Scope
scope_of Code.worker_unavailable = Scope.worker_profile
scope_of Code.runner_unavailable = Scope.runner
scope_of Code.repository_unavailable = Scope.task
scope_of _ = Scope.global

abbrev pub subject_of : Code → Key → Key → Key → Option Key
subject_of Code.worker_unavailable task profile runner = some profile
subject_of Code.runner_unavailable task profile runner = some runner
subject_of Code.repository_unavailable task profile runner = some task
subject_of _ task profile runner = none

-- `b.Subject == nil && subject == nil || b.Subject != nil && subject != nil && …`
abbrev pub same_subject : Option Key → Option Key → Bool
same_subject none none = true
same_subject (some a) (some b) = a == b
same_subject _ _ = false

abbrev pub is_repeated : Code → Scope → Option Key → Blocker → Bool
is_repeated kind scope subject b =
    not (present b.resolved)
    && same Code-discrete b.kind kind
    && same Scope-discrete b.scope scope
    && same_subject b.subject subject

-- The string that the code of an error is.
abbrev pub code_name : Code → String
code_name Code.internal_error = "INTERNAL_ERROR"
code_name Code.usage_error = "USAGE_ERROR"
code_name Code.invalid_config = "INVALID_CONFIG"
code_name Code.invalid_json = "INVALID_JSON"
code_name Code.schema_invalid = "SCHEMA_INVALID"
code_name Code.ambiguous_id = "AMBIGUOUS_ID"
code_name Code.not_found = "NOT_FOUND"
code_name Code.capability_denied = "CAPABILITY_DENIED"
code_name Code.precondition_failed = "PRECONDITION_FAILED"
code_name Code.invalid_state = "INVALID_STATE"
code_name Code.insufficient_resource = "INSUFFICIENT_RESOURCE"
code_name Code.limit_exceeded = "LIMIT_EXCEEDED"
code_name Code.precondition_changed = "PRECONDITION_CHANGED"
code_name Code.worker_unavailable = "WORKER_UNAVAILABLE"
code_name Code.runner_unavailable = "RUNNER_UNAVAILABLE"
code_name Code.repository_unavailable = "REPOSITORY_UNAVAILABLE"
code_name Code.blocked = "BLOCKED"
code_name Code.storage_failure = "STORAGE_FAILURE"
code_name Code.core_inconsistent = "CORE_INCONSISTENT"

-- The blocker that block writes under the next id.
abbrev pub blocker_of : Code → Key → Key → Key → Message → State → Blocker
blocker_of kind task profile runner message s = record {
  id = fresh_id s;
  kind = kind;
  scope = scope_of kind;
  subject = subject_of kind task profile runner;
  message = message;
  created = now (drawn s);
  resolved = none;
}

unfoldable pub block_in : Code → Key → Key → Key → Message → State → State
block_in kind task profile runner message s =
    let b : Blocker = blocker_of kind task profile runner message s in
    let written : State = record s { blockers = insert b.id b s.blockers; draws = s.draws + 2 } in
    let audited : State = audit task (code_name kind) message written in
    if any_entry (λ _ other. is_repeated kind b.scope b.subject other) s.blockers
    then s
    else if task == 0
    then audited
    else touch task audited

-- (*Core).Block, which does not ask for the fail-stop.
unfoldable pub block : Disk → Code → Key → Key → Key → Message → State → Result (Unit {0}) × State
block disk kind task profile runner message db =
    update disk (λ s. ok (tt, block_in kind task profile runner message s)) db

unfoldable pub resolve_blocker_in : Key → State → Result (Blocker × State)
resolve_blocker_in id s = do
  b ← or_fail (lookup id s.blockers) Code.not_found
  fail_if (present b.resolved) Code.invalid_state
  let b' : Blocker = record b { resolved = some (now s) }
  let resolved : State = record s { blockers = insert id b' s.blockers; draws = s.draws + 1 }
  ok (b', audit 0 "BLOCKER_RESOLVED" (Message.about id) resolved)

unfoldable pub resolve_blocker : Disk → Key → State → Result Blocker × State
resolve_blocker disk id db = update disk (resolve_blocker_in id) db

-- The transaction of Interrupt.
unfoldable pub interrupt_in : Key → State → Result (Unit {0} × State)
interrupt_in id s = do
  a ← or_fail (lookup id s.attempts) Code.not_found
  fail_if (not (active_attempt a)) Code.invalid_state
  ok (
    tt,
    audit a.task_id "INTERRUPT_REQUESTED" (Message.about id)
        (record s { interrupts = insert id true s.interrupts }),
  )
