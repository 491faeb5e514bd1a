-- ===== src/Tests/Releases.antt =====
-- The release of an option at concrete inputs.
use scp_harness.Base.{
  pos, ◌+ℤ◌, ◌-ℤ◌, wrap64, add64, ◌≡◌, refl, false, some, [], ◌∷◌, lookup, insert, any_entry,
  all_entries, map_values, count_entries, Result, ok,
}
use native.Mathlib.Decide.{ℕ_discrete}
use scp_harness.Model.{
  State, Change, ChangeState, Stage, new_state, audit, touch, Resources-discrete, Proposal-discrete,
  ids_discrete,
}
use scp_harness.Ledger.{
  refresh, gather_accounts, gather_leases, mirror_accounts, accounted, balanced, settled_task, add,
  ancestors,
}
use scp_harness.Store.{
  working, update, transact, commit, keep_rows, validate, consistent, records_keyed, task_root,
  repositories_distinct, account_consistent, walk_ends, changes_valid, changes_distinct, activities,
  immutable, changes_kept, revisions_kept, option_account, option_kept, change_consistent,
}
use scp_harness.Store.Exclusion.{committed_unique}
use scp_harness.Core.{enqueue_option, open_option, release_option_in}
use scp_harness.Tests.Data.{funded, task_1}

abbrev ready : State
ready = record funded {
  tasks =
      (
        1,
        record task_1 {
          resources = record task_1.resources {
            remaining = pos 4900000;
            outstanding = pos 0;
            charged = pos 100000;
          };
        },
      )
      ∷ [];
  leases = [];
  repository_identities = (1, 15) ∷ [];
}

abbrev release_2 : State → Result (Change × State)
release_2 = enqueue_option (ok tt) 2 (release_option_in 2)

abbrev released : State
released = (update working release_2 ready).1

abbrev change_101 : Change
change_101 = record {
  id = 101;
  task_id = 1;
  option_id = 2;
  base_sha = 13;
  objective = 7 ∷ [];
  objective_revision = pos 0;
  artifact_id = 0;
  ci_run_id = 0;
  review_attempt_id = 0;
  stage = Stage.mutation;
  state = ChangeState.queued;
  reason = "";
  timeout_streak = 0;
  timeout_reset_at = 0;
  started = false;
  created = 1000;
  updated = 1000;
}

release-commits : update working release_2 ready ≡ (ok change_101, released)
unfolding update transact commit keep_rows validate consistent records_keyed task_root
    repositories_distinct account_consistent walk_ends changes_valid changes_distinct activities
    immutable changes_kept revisions_kept option_account option_kept change_consistent refresh
    gather_accounts gather_leases mirror_accounts accounted balanced settled_task add ancestors
    lookup insert any_entry all_entries map_values count_entries wrap64 add64 ◌+ℤ◌ ◌-ℤ◌ audit touch
    enqueue_option open_option release_option_in Resources-discrete Proposal-discrete ids_discrete
    ℕ_discrete new_state
release-commits = refl

released-found : lookup 101 released.changes ≡ some change_101
unfolding update transact commit keep_rows validate consistent records_keyed task_root
    repositories_distinct account_consistent walk_ends changes_valid changes_distinct activities
    immutable changes_kept revisions_kept option_account option_kept change_consistent refresh
    gather_accounts gather_leases mirror_accounts accounted balanced settled_task add ancestors
    lookup insert any_entry all_entries map_values count_entries wrap64 add64 ◌+ℤ◌ ◌-ℤ◌ audit touch
    enqueue_option open_option release_option_in Resources-discrete Proposal-discrete ids_discrete
    ℕ_discrete new_state
released-found = refl

committed_unique_example : change_101.id ≡ change_101.id
committed_unique_example =
    committed_unique working release_2 ready 101 101 release-commits released-found released-found
      refl refl refl
