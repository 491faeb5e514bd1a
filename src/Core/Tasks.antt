-- ===== src/Core/Tasks.antt =====
-- The operations on tasks of internal/core/core.go and internal/core/change.go: CreateTask, Extend
-- and ReviseTask.
use scp_harness.Base.{
  ◌+◌, ℤ, pos, Bool, false, ◌&&◌, ◌||◌, [], ◌∷◌, ◌++◌, lookup, insert, any_entry, Result, ok, Code,
  ◌>>=◌, ◌>>◌, fail_if, deref, ◌==◌, Text, blank, add64, le_ℤ,
}
use scp_harness.Model.{
  Key, Time, State, Task, TaskStatus, Account, Resources, Exploration, Message, ObjectiveRevision,
  Config, Capability, is_active, is_closed, fresh_id, now, drawn, require, operator_card, audit,
  touch,
}
use scp_harness.Ledger.{add}
use scp_harness.Store.{Disk, identity_of}
use scp_harness.Core.Common.{find_task, core_update, after_tests}

-- What gitrepo.Identity and Git.Resolve return for a repository: its absolute path, its identity
-- and the SHA of the ref.
pub record Resolved : Type 0 where
  pub absolute : Key
  pub identity : Key
  pub sha : Key

-- `t.Status == "ACTIVE" && s.RepositoryIdentities[t.ID] == identity`, for some task
abbrev pub bound : Key → State → Bool
bound identity s =
    any_entry (λ _ t. is_active t.status && (identity_of t.id s.repository_identities == identity))
      s.tasks

-- The transaction of CreateTask.
unfoldable pub create_task_in : Resolved → Text → Key → Text → ℤ → State → Result (Task × State)
create_task_in repo objective ref responsible n s = do
  fail_if (bound repo.identity s) Code.precondition_failed
  let id : Key = fresh_id s
  let time : Time = now (drawn s)
  let resources : Resources = record {
    minted = n;
    remaining = pos 0;
    outstanding = pos 0;
    charged = pos 0;
    retired = pos 0;
  }
  let t : Task = record {
    objective_revision = pos 0;
    id = id;
    objective = objective;
    repo_path = repo.absolute;
    repo_ref = ref;
    responsible = responsible;
    status = TaskStatus.active;
    sha = repo.sha;
    revision = pos 1;
    resources = resources;
    created = time;
    updated = time;
  }
  let a : Account = record { task_id = id; parent = 0; remaining = n }
  let x : Exploration = record {
    done = false;
    count = pos 0;
    batch = [];
    judged = false;
    groups = [];
    group_index = 0;
  }
  let made : State = record s {
    tasks = insert id t s.tasks;
    repository_identities = insert id repo.identity s.repository_identities;
    accounts = insert id a s.accounts;
    exploration = insert id x s.exploration;
    draws = s.draws + 2;
  }
  ok (t, audit id "TASK_CREATED" (Message.words "explicit initial budget") made)

-- CreateTask, where `repo` is what the repository answered, or its error.
unfoldable pub create_task :
    Config → Disk → Text → Key → Key → Text → ℤ → Result Resolved → State → Result Task × State
create_task cfg disk objective path ref responsible n answer db =
    after_tests
      (do
        require (Capability.task_create ∷ []) (operator_card cfg)
        fail_if
            (blank objective || (path == 0) || (ref == 0) || blank responsible || le_ℤ n (pos 0))
            Code.precondition_failed
        repo ← answer
        ok tt)
      db
      (core_update disk (λ s. do repo ← answer; create_task_in repo objective ref responsible n s)
        db)

-- The transaction of Extend.
unfoldable pub extend_in : Key → ℤ → State → Result (Task × State)
extend_in id n s = do
  t ← find_task id s
  fail_if (is_closed t.status) Code.invalid_state
  fail_if (le_ℤ n (pos 0)) Code.precondition_failed
  v ← add t.resources.minted n
  a ← deref (lookup id s.accounts)
  r ← add a.remaining n
  let t' : Task = record t { resources = record t.resources { minted = v } }
  let a' : Account = record a { remaining = r }
  let funded : State = record s { tasks = insert id t' s.tasks; accounts = insert id a' s.accounts }
  let s' : State = audit id "TASK_EXTENDED" (Message.amount n) (touch id funded)
  t'' ← deref (lookup id s'.tasks)
  ok (t'', s')

unfoldable pub extend : Config → Disk → Key → ℤ → State → Result Task × State
extend cfg disk id n db =
    after_tests (require (Capability.task_extend ∷ []) (operator_card cfg)) db
      (core_update disk (extend_in id n) db)

-- The transaction of ReviseTask.
unfoldable pub revise_task_in : Key → Key → Text → State → Result (Task × State)
revise_task_in operator id objective s = do
  t ← find_task id s
  fail_if (is_closed t.status) Code.invalid_state
  let revision : ℤ = add64 t.objective_revision (pos 1)
  let entry : ObjectiveRevision = record {
    task_id = id;
    revision = revision;
    old = t.objective;
    new = objective;
    operator = operator;
    created = now s;
  }
  let t' : Task = record t { objective_revision = revision; objective = objective }
  let revised : State = record s {
    objective_revisions = s.objective_revisions ++ (entry ∷ []);
    tasks = insert id t' s.tasks;
    draws = s.draws + 1;
  }
  let s' : State = touch id revised
  t'' ← deref (lookup id s'.tasks)
  ok (t'', s')

unfoldable pub revise_task : Config → Disk → Key → Text → State → Result Task × State
revise_task cfg disk id objective db =
    after_tests
      (do
        require (Capability.task_revise ∷ []) (operator_card cfg)
        fail_if (blank objective) Code.usage_error)
      db (core_update disk (revise_task_in (operator_card cfg).id id objective) db)
