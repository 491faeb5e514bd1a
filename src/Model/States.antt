-- ===== src/Model/States.antt =====
-- model.State, its methods, and the random ids and times that the operations read.
use scp_harness.Base.{
  ℕ, ◌+◌, pos, Bool, true, false, not, ◌&&◌, ◌||◌, Option, none, some, List, [], ◌∷◌, ◌++◌, Map,
  lookup, insert, any_entry, ◌==◌, ltb, if◌then◌else◌, present, add64,
}
use scp_harness.Model.Enums.{
  Stage, ChangeState, AttemptStatus, CiStatus, Operation, SlotState, Scope, is_global,
}
use scp_harness.Model.Names.{Key, Time, Message}
use scp_harness.Model.Records.{
  Task, Proposal, Claim, Artifact, Attempt, Blocker, Journal, Account, Lease, Edge, Exploration,
  Step, Review, Event, Slot, Change, CiRun, ObjectiveRevision,
}
use Prim.Native.String.{String}

-- The last three fields are no part of the stored state: the ids that model.ID will draw, the
-- times that model.Now will read, and how many of both have been taken. A repeated id or a clock
-- that runs back is not excluded here: what needs that is a hypothesis where it is needed.
pub record State : Type 0 where
  pub changes : Map Change
  pub ci_runs : Map CiRun
  pub requests : List Step
  pub objective_revisions : List ObjectiveRevision
  pub scheduler_config_hash : Key
  pub scheduler_disk_hash : Key
  pub scheduler_started : Time
  pub tasks : Map Task
  pub repository_identities : Map Key
  pub options : Map Proposal
  pub claims : Map Claim
  pub artifacts : Map Artifact
  pub attempts : Map Attempt
  pub accounts : Map Account
  pub leases : Map Lease
  pub edges : List Edge
  pub exploration : Map Exploration
  pub pending : Map Step
  pub reviews : Map Review
  pub interrupts : Map Bool
  pub cancellations : Map Bool
  pub slot : Slot
  pub slot_task : Key
  pub slot_pid : ℕ
  pub slot_owner : Key
  pub events : List Event
  pub blockers : Map Blocker
  pub journals : Map Journal
  pub ids : ℕ → Key
  pub times : ℕ → Time
  pub draws : ℕ

-- `new(State)` over a source of ids and times.
unfoldable pub new_state : (ℕ → Key) → (ℕ → Time) → State
new_state ids times = record {
  changes = [];
  ci_runs = [];
  requests = [];
  objective_revisions = [];
  scheduler_config_hash = 0;
  scheduler_disk_hash = 0;
  scheduler_started = 0;
  tasks = [];
  repository_identities = [];
  options = [];
  claims = [];
  artifacts = [];
  attempts = [];
  accounts = [];
  leases = [];
  edges = [];
  exploration = [];
  pending = [];
  reviews = [];
  interrupts = [];
  cancellations = [];
  slot = record { kind = Operation.other; state = SlotState.idle; owner = none };
  slot_task = 0;
  slot_pid = 0;
  slot_owner = 0;
  events = [];
  blockers = [];
  journals = [];
  ids = ids;
  times = times;
  draws = 0;
}

-- model.ID() and model.Now(): the next reading, and the state with it taken.
abbrev pub fresh_id : State → Key
fresh_id s = s.ids s.draws

abbrev pub now : State → Time
now s = s.times s.draws

abbrev pub drawn : State → State
drawn s = record s { draws = s.draws + 1 }

-- `m[k]` of a `map[string]bool`
abbrev pub flagged : Key → Map Bool → Bool
flagged k m = elim (lookup k m) [ none ↦ false | some b ↦ b ]

-- (*Change).Terminal
abbrev pub terminal_state : ChangeState → Bool
terminal_state ChangeState.done = true
terminal_state ChangeState.aborted = true
terminal_state _ = false

abbrev pub terminal : Change → Bool
terminal ch = terminal_state ch.state

-- (*Change).Set at a time
unfoldable pub set_change : Stage → ChangeState → String → Time → Change → Change
set_change stage state reason t ch = record ch {
  stage = stage;
  state = state;
  reason = reason;
  updated = t;
}

-- Attempt.Active
abbrev pub active_status : AttemptStatus → Bool
active_status AttemptStatus.preparing = true
active_status AttemptStatus.running = true
active_status _ = false

abbrev pub active_attempt : Attempt → Bool
active_attempt a = active_status a.status

-- (*CIRun).Active
abbrev pub active_ci_status : CiStatus → Bool
active_ci_status CiStatus.preparing = true
active_ci_status CiStatus.running = true
active_ci_status _ = false

abbrev pub active_run : CiRun → Bool
active_run r = active_ci_status r.status

-- (*State).Audit
unfoldable pub audit : Key → String → Message → State → State
audit task code message s =
    let e : Event = record {
      id = fresh_id s;
      task_id = task;
      code = code;
      message = message;
      created = now (drawn s);
    } in
    record s { events = s.events ++ (e ∷ []); draws = s.draws + 2 }

-- (*State).Touch
unfoldable pub touch : Key → State → State
touch task s = elim (lookup task s.tasks) [
  | none ↦ s
  | some t ↦ record s {
    tasks = insert task (record t { revision = add64 t.revision (pos 1); updated = now s }) s.tasks;
    draws = s.draws + 1;
  }
]

-- `b.Subject != nil && *b.Subject == name`
abbrev pub names : Option Key → Key → Bool
names none k = false
names (some j) k = j == k

abbrev pub scope_covers : Scope → Option Key → Key → Key → Key → Bool
scope_covers Scope.global subject task profile runner = true
scope_covers Scope.runner subject task profile runner = names subject runner
scope_covers Scope.task subject task profile runner = names subject task
scope_covers Scope.worker_profile subject task profile runner = names subject profile
scope_covers Scope.other subject task profile runner = false

-- One round of (*State).Blocked.
abbrev pub blocks : Key → Key → Key → Blocker → Bool
blocks task profile runner b =
    not (present b.resolved) && scope_covers b.scope b.subject task profile runner

-- (*State).Blocked
unfoldable pub is_blocked_for : Key → Key → Key → State → Bool
is_blocked_for task profile runner s = any_entry (λ _ b. blocks task profile runner b) s.blockers

-- (*State).FailStop
unfoldable pub fail_stop : State → Bool
fail_stop s = any_entry (λ _ b. is_global b.scope && not (present b.resolved)) s.blockers

-- One round of (*State).LatestCI: the better of the run so far and the next.
abbrev pub later_run : Key → CiRun → Option CiRun → Option CiRun
later_run artifact r none =
    if (r.artifact_id == artifact) && not (r.ended == 0) then some r else none
later_run artifact r (some l) =
    if (r.artifact_id == artifact)
      && (not (r.ended == 0) && (ltb l.ended r.ended || ((r.ended == l.ended) && ltb l.id r.id)))
    then some r
    else some l

unfoldable pub latest_from : Key → Map CiRun → Option CiRun → Option CiRun
latest_from artifact [] best = best
latest_from artifact ((_, r) ∷ m) best = latest_from artifact m (later_run artifact r best)

-- (*State).LatestCI
unfoldable pub latest_ci : Key → State → Option CiRun
latest_ci artifact s = latest_from artifact s.ci_runs none
