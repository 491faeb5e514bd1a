-- ===== src/Tests/Database.antt =====
-- Transactions at concrete inputs.
use scp_harness.Base.{
  none, pos, ◌+ℤ◌, ◌-ℤ◌, wrap64, add64, ◌≡◌, ◌≢◌, refl, true, some, [], ◌∷◌, lookup, insert,
  any_entry, all_entries, map_values, count_entries, Result, ok, err, Code,
}
use native.Mathlib.Decide.{ℕ_discrete}
use scp_harness.Model.{
  Message, State, Task, TaskStatus, Change, ChangeState, Stage, Claim, ClaimType, Kind, Proposal,
  Artifact, Attempt, AttemptStatus, Operation, LogPath, empty_object, new_state, audit, fail_stop,
  exit, Resources-discrete, ids_discrete, Proposal-discrete, Stage-discrete, ChangeState-discrete,
  Artifact-discrete, Claim-discrete, Operation-discrete, Kind-discrete,
}
use scp_harness.Ledger.{
  refresh, gather_accounts, gather_leases, mirror_accounts, accounted, balanced, settled_task, add,
  ancestors,
}
use scp_harness.Ledger.Totals.{balance, leased}
use scp_harness.Store.{
  working, update, transact, commit, keep_rows, validate, consistent, records_keyed, task_root,
  repositories_distinct, option_account, account_consistent, walk_ends, changes_valid,
  change_consistent, changes_distinct, activities, pending_consistent, is_subject, immutable,
  changes_kept, change_kept, option_kept, revisions_kept, artifact_consistent, attempt_consistent,
  attempt_authorized, artifact_owned, attempt_kept,
}
use scp_harness.Store.Commits.{Ends, update-Ends, committed-conserves}
use scp_harness.Store.Histories.{
  start, call, changes_persist, claims_persist, artifacts_persist, ChangeKept,
}
use scp_harness.Store.OptionHistories.{options_persist, ProposalKept}
use scp_harness.Core.{Resolved, create_task_in, block_in, core_update}
use scp_harness.Core.FailStop.{core_update-fail_stop, update-fail_stop}
use scp_harness.Tests.Data.{empty, proposal, explored, root, account_2, task_1, held}

abbrev repository : Resolved
repository = record { absolute = 11; identity = 15; sha = 13 }

abbrev create : State → Result (Task × State)
create = create_task_in repository (7 ∷ []) 12 (8 ∷ []) (pos 5000000)

update-Ends_example : Ends create empty (update working create empty)
update-Ends_example = update-Ends working create empty

abbrev after_create : State
after_create = (update working create empty).1

abbrev created_task : Task
created_task = record {
  objective_revision = pos 0;
  id = 100;
  objective = 7 ∷ [];
  repo_path = 11;
  repo_ref = 12;
  responsible = 8 ∷ [];
  status = TaskStatus.active;
  sha = 13;
  revision = pos 1;
  resources = record {
    minted = pos 5000000;
    remaining = pos 0;
    outstanding = pos 0;
    charged = pos 0;
    retired = pos 0;
  };
  created = 1001;
  updated = 1001;
}

create-commits : update working create empty ≡ (ok created_task, after_create)
unfolding update transact commit keep_rows validate consistent records_keyed task_root
    repositories_distinct account_consistent walk_ends changes_valid changes_distinct activities
    immutable changes_kept revisions_kept refresh gather_accounts gather_leases mirror_accounts
    accounted balanced settled_task add ancestors lookup insert any_entry all_entries map_values
    count_entries wrap64 add64 ◌+ℤ◌ ◌-ℤ◌ audit create_task_in Resources-discrete ℕ_discrete
    new_state
create-commits = refl

created-found :
    lookup 100 after_create.tasks
    ≡ some (record created_task {
      resources = record created_task.resources { remaining = pos 5000000 };
    })
unfolding update transact commit keep_rows validate consistent records_keyed task_root
    repositories_distinct account_consistent walk_ends changes_valid changes_distinct activities
    immutable changes_kept revisions_kept refresh gather_accounts gather_leases mirror_accounts
    accounted balanced settled_task add ancestors lookup insert any_entry all_entries map_values
    count_entries wrap64 add64 ◌+ℤ◌ ◌-ℤ◌ audit create_task_in Resources-discrete ℕ_discrete
    new_state
created-found = refl

committed-conserves_example :
    (pos 5000000 ≡ balance 100 after_create.accounts)
    × (pos 0 ≡ leased 100 after_create.leases)
    × (balance 100 after_create.accounts +ℤ leased 100 after_create.leases +ℤ pos 0 +ℤ pos 0
        ≡ pos 5000000)
    × (TaskStatus.active ≡ TaskStatus.closed
        → (balance 100 after_create.accounts ≡ pos 0) × (leased 100 after_create.leases ≡ pos 0))
committed-conserves_example =
    committed-conserves working create empty 100 create-commits created-found

-- Records that later calls meet.
abbrev change_5 : Change
change_5 = record {
  id = 5;
  task_id = 1;
  option_id = 2;
  base_sha = 13;
  objective = 7 ∷ [];
  objective_revision = pos 0;
  artifact_id = 0;
  ci_run_id = 0;
  review_attempt_id = 0;
  stage = Stage.mutation;
  state = ChangeState.aborted;
  reason = "";
  timeout_streak = 0;
  timeout_reset_at = 0;
  started = true;
  created = 600;
  updated = 610;
}

abbrev claim_6 : Claim
claim_6 = record {
  id = 6;
  task_id = 1;
  subject_type = Kind.option;
  subject_id = 2;
  type = ClaimType.discussion_comment;
  payload = empty_object;
  issuer = 20;
  sha = 13;
  revision = pos 1;
  created = 601;
}

abbrev artifact_8 : Artifact
artifact_8 = record {
  change_id = 5;
  id = 8;
  task_id = 1;
  anchor = 2;
  attempt_id = 7;
  blob_path = 30;
  sha256 = 31;
  size = pos 10;
  base_sha = 13;
  created = 602;
}

abbrev option_2 : Proposal
option_2 = proposal 2 1 (pos 1500000)

-- The Attempt that has left the artifact.
abbrev attempt_7 : Attempt
attempt_7 = record {
  objective = 7 ∷ [];
  change_id = 5;
  id = 7;
  task_id = 1;
  operation = Operation.mutation;
  target_type = Kind.option;
  target_id = 2;
  actor = 20;
  profile = 40;
  anchor_type = Kind.option;
  anchor_id = 2;
  lease = pos 100000;
  sha = 13;
  revision = pos 1;
  started = 601;
  ended = some 602;
  status = AttemptStatus.returned;
  exit_code = some (pos 0);
  reason = none;
  stdout = LogPath.stdout_of 7;
  stderr = LogPath.stderr_of 7;
  artifact_id = some 8;
}

abbrev historied : State
historied = record empty {
  tasks =
      (
        1,
        record task_1 {
          resources = record (held (pos 4500000) (pos 0)) { remaining = pos 4500000 };
        },
      )
      ∷ [];
  accounts = (1, root) ∷ (2, account_2) ∷ [];
  options = (2, option_2) ∷ [];
  repository_identities = (1, 16) ∷ [];
  exploration = (1, explored) ∷ [];
  changes = (5, change_5) ∷ [];
  claims = (6, claim_6) ∷ [];
  artifacts = (8, artifact_8) ∷ [];
  attempts = (7, attempt_7) ∷ [];
}

-- A second task is created in that database.
abbrev later : State
later = (update working create historied).1

later-commits : update working create historied ≡ (ok created_task, later)
unfolding update transact commit keep_rows validate consistent records_keyed task_root
    repositories_distinct option_account account_consistent walk_ends changes_valid
    change_consistent changes_distinct activities pending_consistent is_subject immutable
    changes_kept change_kept option_kept revisions_kept refresh gather_accounts gather_leases
    mirror_accounts accounted balanced settled_task add ancestors lookup insert any_entry
    all_entries map_values count_entries wrap64 add64 ◌+ℤ◌ ◌-ℤ◌ audit create_task_in
    Resources-discrete ids_discrete Proposal-discrete ℕ_discrete new_state artifact_consistent
    attempt_consistent attempt_authorized artifact_owned Stage-discrete ChangeState-discrete
    Artifact-discrete Claim-discrete attempt_kept Operation-discrete Kind-discrete
later-commits = refl

changes_persist_example :
    (ch : Change) × (lookup 5 later.changes ≡ some ch) × ChangeKept change_5 ch
unfolding lookup
changes_persist_example = changes_persist historied 5 change_5 (call working create start) refl

claims_persist_example : lookup 6 later.claims ≡ some claim_6
unfolding lookup
claims_persist_example = claims_persist historied 6 claim_6 (call working create start) refl

artifacts_persist_example : lookup 8 later.artifacts ≡ some artifact_8
unfolding lookup
artifacts_persist_example =
    artifacts_persist historied 8 artifact_8 (call working create start) refl

options_persist_example :
    (o : Proposal) × (lookup 2 later.options ≡ some o) × ProposalKept option_2 o
unfolding lookup
options_persist_example = options_persist historied 2 option_2 (call working create start) refl

-- A call that finds the database inconsistent.
abbrev failing : State → Result (Task × State)
failing s = err Code.core_inconsistent

abbrev stopped : State
stopped = (update working failing empty).1

failing-fails : update working failing empty ≡ (err Code.core_inconsistent, stopped)
unfolding update transact validate consistent records_keyed repositories_distinct changes_valid
    changes_distinct activities refresh gather_accounts gather_leases mirror_accounts all_entries
    map_values count_entries new_state
failing-fails = refl

update-fail_stop_example : fail_stop stopped ≡ true
unfolding lookup all_entries exit new_state
update-fail_stop_example = update-fail_stop failing empty refl refl failing-fails refl

-- A database with a global blocker.
abbrev halted : State
halted = block_in Code.core_inconsistent 0 0 0 (Message.words "by hand") empty

halted-stops : fail_stop halted ≡ true
unfolding fail_stop any_entry block_in audit insert new_state
halted-stops = refl

core_update-fail_stop_example : core_update working create halted ≢ (ok created_task, after_create)
core_update-fail_stop_example = core_update-fail_stop working create halted halted-stops
