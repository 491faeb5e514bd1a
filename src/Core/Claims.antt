-- ===== src/Core/Claims.antt =====
-- closeOption, closeTask and addClaim of internal/core/core.go.
use scp_harness.Base.{
  ◌+◌, ℤ, pos, Bool, true, false, not, ◌&&◌, ◌||◌, Option, none, some, [], ◌∷◌, Map, lookup, insert,
  erase, any_entry, map_values, Result, ok, Code, ◌>>=◌, ◌>>◌, fail_if, or_fail, deref, ◌==◌,
  if◌then◌else◌, blank, add64,
}
use scp_harness.Model.{
  Key, State, Task, TaskStatus, Account, Claim, Step, Exploration, Payload, Card, Capability, Kind,
  ClaimType, ChangeState, CloseReason, is_active, is_closed, is_open, fresh_id, now, drawn,
  set_change, terminal, has, require, discussion_text, is_discussion_type, is_resource_propose,
  is_option, is_task, is_fulfilled, blank_type,
}
use scp_harness.Ledger.{move}
use scp_harness.Store.{is_subject}
use scp_harness.Core.Common.{close_proposal, set_changes}

abbrev pub pending_on : Key → Option Step → Bool
pending_on id none = false
pending_on id (some p) = p.option_id == id

unfoldable pub close_option : Key → State → Result State
close_option id s = do
  o ← or_fail (lookup id s.options) Code.not_found
  fail_if (not (is_open o.status)) Code.invalid_state
  t ← deref (lookup o.task_id s.tasks)
  fail_if (not (is_active t.status)) Code.invalid_state
  fail_if (any_entry (λ _ l. l.anchor == id) s.leases) Code.precondition_failed
  a ← deref (lookup id s.accounts)
  s' ← move id o.parent a.remaining s
  let closed : State = record s' {
    options = insert id (close_proposal CloseReason.fulfilled o) s'.options;
  }
  ok (
      if pending_on id (lookup o.task_id closed.pending)
      then record closed { pending = erase o.task_id closed.pending }
      else closed)

-- `n += a.Remaining` over the accounts of a task
unfoldable pub task_remaining : Key → Map Account → ℤ → ℤ
task_remaining id [] n = n
task_remaining id ((_, a) ∷ m) n =
    task_remaining id m (if a.task_id == id then add64 n a.remaining else n)

abbrev pub emptied : Key → Account → Account
emptied id a = if a.task_id == id then record a { remaining = pos 0 } else a

abbrev pub retire : ℤ → Task → Task
retire n t = record t {
  status = TaskStatus.closed;
  resources = record t.resources { retired = add64 t.resources.retired n };
}

unfoldable pub close_task : Key → State → Result State
close_task id s = do
  t ← or_fail (lookup id s.tasks) Code.not_found
  fail_if (is_closed t.status) Code.invalid_state
  fail_if (any_entry (λ _ l. l.task_id == id) s.leases) Code.core_inconsistent
  let n : ℤ = task_remaining id s.accounts (pos 0)
  let drained : State = record s {
    accounts = map_values (λ _ a. emptied id a) s.accounts;
    tasks = insert id (retire n t) s.tasks;
  }
  let paused : State =
      set_changes (λ ch. (ch.task_id == id) && not (terminal ch))
        (λ now ch. set_change ch.stage ChangeState.paused "TASK_CLOSED" now ch) drained
  x ← deref (lookup id paused.exploration)
  let x' : Exploration = record x { done = true }
  ok (record paused {
    pending = erase id paused.pending;
    cancellations = erase id paused.cancellations;
    exploration = insert id x' paused.exploration;
  })

-- `config.Strict(payload, &v)` into discussionText, and the tests on it
abbrev pub discussion_rejected : Kind → Payload → Bool
discussion_rejected kind payload = elim (discussion_text payload) [
  | none ↦ true
  | some text ↦ not (is_option kind) || blank text
]

-- The closings that a claim of type "fulfilled" brings about.
unfoldable pub fulfil : Card → Kind → Key → State → Result State
fulfil card kind id s = do
  s' ← if is_option kind && has Capability.option_complete card then close_option id s else ok s
  if is_task kind && has Capability.task_complete card then close_task id s' else ok s'

unfoldable pub add_claim :
    Task → Card → Kind → Key → ClaimType → Payload → Key → ℤ → State → Result (Claim × State)
add_claim t card kind id typ payload sha rev s = do
  fail_if (is_discussion_type typ && discussion_rejected kind payload) Code.schema_invalid
  if is_resource_propose typ
      then require (Capability.claim_publish ∷ Capability.resource_propose ∷ []) card
      else ok tt
  fail_if (not (is_subject t.id kind id s) || blank_type typ) Code.precondition_failed
  let claim : Claim = record {
    id = fresh_id s;
    task_id = t.id;
    subject_type = kind;
    subject_id = id;
    type = typ;
    payload = payload;
    issuer = card.id;
    sha = sha;
    revision = rev;
    created = now (drawn s);
  }
  let named : State = record s { draws = s.draws + 2 }
  s' ← if is_fulfilled typ then fulfil card kind id named else ok named
  ok (claim, record s' { claims = insert claim.id claim s'.claims })

-- qualifyingClaim of internal/core/control.go
unfoldable pub qualifying_claim : Card → Kind → ClaimType → Bool
qualifying_claim card kind typ =
    is_fulfilled typ
    && ((is_task kind && has Capability.task_complete card)
        || (is_option kind && has Capability.option_complete card))
