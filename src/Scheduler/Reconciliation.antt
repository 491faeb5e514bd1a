-- ===== src/Scheduler/Reconciliation.antt =====
-- The transactions of Recover, internal/scheduler/recover.go.
use scp_harness.Base.{
  ◌+◌, pos, Bool, true, false, not, ◌&&◌, Option, none, some, List, [], ◌∷◌, Map, lookup, insert,
  erase, keep, Result, ok, Code, ◌>>=◌, ◌>>◌, fail_if, deref, ◌==◌, if◌then◌else◌, add64, present,
}
use scp_harness.Model.{
  Key, State, Task, Step, Change, ChangeState, Stage, CiRun, CiStatus, Journal, JournalState,
  Artifact, Time, Attempt, AttemptStatus, Lease, Operation, Slot, SlotState, Exploration, Message,
  is_running, flagged, set_change, terminal, touch, audit, now,
}
use scp_harness.Ledger.{settle}
use scp_harness.Store.{task_quiescent}
use scp_harness.Core.{set_change_now, set_changes, bind_artifact}
use Prim.Native.String.{String}

-- The recovery takes the slot, unless the process that holds it is alive.
unfoldable pub seize_slot : (Key → Bool) → Key → Key → State → Result (Unit {0} × State)
seize_slot alive owner pid s = do
  fail_if (not (s.slot_pid == 0) && alive s.slot_pid) Code.blocked
  let slot : Slot = record { kind = Operation.recovery; state = SlotState.busy; owner = none }
  ok (tt, record s { slot = slot; slot_task = 0; slot_owner = owner; slot_pid = pid })

-- What a crashed Attempt had written, if it was captured.
unfoldable pub keep_captured : Option Artifact → Attempt → State → Result State
keep_captured none a s = ok s
keep_captured (some f) a s = do
  v ← deref (lookup a.id s.attempts)
  let v' : Attempt = record v { artifact_id = some f.id }
  ok (
      bind_artifact a.change_id f.id
        (record s { artifacts = insert f.id f s.artifacts; attempts = insert a.id v' s.attempts }))

unfoldable pub pause_restart : Key → State → State
pause_restart id s = elim (lookup id s.changes) [
  | none ↦ s
  | some ch ↦
      if terminal ch then s else set_change_now id ch ch.stage ChangeState.paused "CORE_RESTART" s
]

-- The exploration counts the crashed activity as one that is over.
abbrev pub crash_exploration : Operation → Exploration → Exploration
crash_exploration Operation.option_generation x = record x { count = add64 x.count (pos 1) }
crash_exploration Operation.merge_judge x = record x { judged = true; groups = [] }
crash_exploration Operation.merge_synth x = record x { group_index = x.group_index + 1 }
crash_exploration _ x = x

abbrev pub explores : Operation → Bool
explores Operation.option_generation = true
explores Operation.merge_judge = true
explores Operation.merge_synth = true
explores _ = false

unfoldable pub count_crash : Attempt → State → Result State
count_crash a s = if not (explores a.operation) then ok s else (do
  x ← deref (lookup a.task_id s.exploration)
  ok (record s { exploration = insert a.task_id (crash_exploration a.operation x) s.exploration }))

-- The transaction that ends an Attempt which was active when the core stopped.
unfoldable pub crash_attempt_in :
    Attempt → Step → Option Artifact → State → Result (Unit {0} × State)
crash_attempt_in a p captured s = do
  kept ← keep_captured captured a s
  settled ← settle a.id (pos 0) true kept
  v ← deref (lookup a.id settled.attempts)
  let v' : Attempt = record v {
    status = AttemptStatus.crashed;
    ended = some (now settled);
    reason = some "CORE_RESTART";
  }
  let paused : State = pause_restart a.change_id (record settled {
    attempts = insert a.id v' settled.attempts;
    interrupts = erase a.id settled.interrupts;
    pending = erase a.task_id settled.pending;
    draws = settled.draws + 1;
  })
  counted ←
      count_crash a (record paused {
        requests = keep (λ r. not (r.request_id == p.request_id)) paused.requests;
      })
  ok (tt, touch a.task_id counted)

-- The run of a retired lease, if the lease is one of a run.
unfoldable pub retire_run : Key → Key → State → State
retire_run id task s = elim (lookup id s.ci_runs) [
  | none ↦ s
  | some r ↦
      let r' : CiRun = record r {
        status = CiStatus.terminated;
        ended = now s;
        elapsed = r.lease;
      } in
      record s {
        ci_runs = insert id r' s.ci_runs;
        requests = keep (λ q. not (q.ci_run_id == id)) s.requests;
        pending = erase task s.pending;
        draws = s.draws + 1;
      }
]

-- The loop over the leases that are left: each is charged in full.
unfoldable pub retire_leases : Map Lease → State → Result State
retire_leases [] s = ok s
retire_leases ((id, l) ∷ m) s = do
  fail_if (present (lookup id s.attempts)) Code.core_inconsistent
  settled ← settle id (pos 0) true s
  retire_leases m (touch l.task_id (retire_run id l.task_id settled))

abbrev pub restart_change : Time → Change → Change
restart_change t ch = set_change ch.stage ChangeState.paused "CORE_RESTART" t ch

unfoldable pub retire_in : State → Result (Unit {0} × State)
retire_in s = do
  retired ← retire_leases s.leases s
  ok (tt, set_changes (λ ch. is_running ch.state) restart_change retired)

-- What became of a promotion, by where the ref points now.
abbrev pub outcome_of : Key → Journal → JournalState
outcome_of sha j =
    if sha == j.new_sha
    then JournalState.applied
    else if sha == j.old_sha
    then JournalState.not_applied
    else JournalState.conflict

abbrev pub outcome_name : JournalState → String
outcome_name JournalState.applied = "APPLIED"
outcome_name JournalState.not_applied = "NOT_APPLIED"
outcome_name JournalState.conflict = "CONFLICT"
outcome_name _ = ""

unfoldable pub rebase_applied : JournalState → Key → Key → State → Result State
rebase_applied JournalState.applied task sha s = do
  t ← deref (lookup task s.tasks)
  let t' : Task = record t { sha = sha }
  ok (record s { tasks = insert task t' s.tasks })
rebase_applied _ task sha s = ok s

-- The Change of a promotion goes where the outcome sends it.
unfoldable pub resume_change : JournalState → Key → Change → State → State
resume_change JournalState.applied id ch s =
    set_change_now id ch Stage.promotion ChangeState.done "" s
resume_change JournalState.not_applied id ch s =
    set_change_now id ch Stage.await_promotion ChangeState.queued "" s
resume_change _ id ch s = set_change_now id ch ch.stage ChangeState.stale "BASE_CHANGED" s

-- The transaction that settles a journal `j`, as it was read, by an outcome.
unfoldable pub reconcile_in : Journal → JournalState → State → Result (Unit {0} × State)
reconcile_in j outcome s = do
  stored ← deref (lookup j.id s.journals)
  let j' : Journal = record stored { state = outcome }
  based ←
      rebase_applied outcome j.task_id j.new_sha (record s { journals = insert j.id j' s.journals })
  a ← deref (lookup j.artifact_id based.artifacts)
  let resumed : State = elim (lookup a.change_id based.changes) [
    | none ↦ based
    | some ch ↦ resume_change outcome a.change_id ch based
  ]
  let idle : State = record resumed { pending = erase j.task_id resumed.pending }
  ok (
    tt,
    touch j.task_id
        (audit j.task_id "PROMOTION_RECOVERED" (Message.words (outcome_name outcome)) idle),
  )

-- The last transaction: no task that was controlled is executed, and its cancellation is over.
unfoldable pub release_controls : List Task → State → Result State
release_controls [] s = ok s
release_controls (t ∷ ts) s = do
  fail_if (not (task_quiescent t.id s)) Code.blocked
  let cleared : State = record s {
    cancellations = erase t.id s.cancellations;
    pending = erase t.id s.pending;
  }
  release_controls ts (
      if flagged t.id s.cancellations
      then audit t.id "CANCELLATION_RECOVERED" (Message.words "execution terminated and settled")
          cleared
      else s)
