-- ===== src/Tests/Data.antt =====
-- The inputs of the tests: a configuration, a task with accounts and a lease, and databases.
use scp_harness.Base.{◌+◌, ℤ, pos, ◌+ℤ◌, ◌≢◌, refl, true, false, none, [], ◌∷◌, Map, lookup, arith}
use scp_harness.Model.{
  Key, State, Task, TaskStatus, Resources, Account, Lease, Proposal, OptionStatus, CloseReason,
  Exploration, new_state,
}
use scp_harness.Ledger.Totals.{total}
use scp_harness.Ledger.Invariant.{IsLedger}

-- The ids that are drawn start at 100, and the clock at 1000.
abbrev pub empty : State
empty = new_state (λ n. n + 100) (λ n. n + 1000)

abbrev pub held : ℤ → ℤ → Resources
held minted outstanding = record {
  minted = minted;
  remaining = pos 0;
  outstanding = outstanding;
  charged = pos 0;
  retired = pos 0;
}

abbrev pub task_1 : Task
task_1 = record {
  objective_revision = pos 0;
  id = 1;
  objective = 7 ∷ [];
  repo_path = 11;
  repo_ref = 12;
  responsible = 8 ∷ [];
  status = TaskStatus.active;
  sha = 13;
  revision = pos 1;
  resources = held (pos 5000000) (pos 0);
  created = 500;
  updated = 500;
}

abbrev pub root : Account
root = record { task_id = 1; parent = 0; remaining = pos 3000000 }

abbrev pub account_2 : Account
account_2 = record { task_id = 1; parent = 1; remaining = pos 1500000 }

abbrev pub account_3 : Account
account_3 = record { task_id = 1; parent = 2; remaining = pos 400000 }

abbrev pub lease_9 : Lease
lease_9 = record { task_id = 1; anchor = 2; amount = pos 100000 }

abbrev pub accounts : Map Account
accounts = (1, root) ∷ (2, account_2) ∷ (3, account_3) ∷ []

abbrev pub proposal : Key → Key → ℤ → Proposal
proposal id parent n = record {
  close_reason = CloseReason.unset;
  id = id;
  task_id = 1;
  text = 7 ∷ [];
  status = OptionStatus.opened;
  parent = parent;
  remaining = n;
  sha = 13;
  revision = pos 1;
  actor = 20;
  created = 501;
}

abbrev pub explored : Exploration
explored = record {
  done = true;
  count = pos 0;
  batch = [];
  judged = false;
  groups = [];
  group_index = 0;
}

-- A task with two options, one under the other.
abbrev pub funded : State
funded = record empty {
  tasks = (1, task_1) ∷ [];
  accounts = accounts;
  leases = (9, lease_9) ∷ [];
  options = (2, proposal 2 1 (pos 1500000)) ∷ (3, proposal 3 2 (pos 400000)) ∷ [];
  exploration = (1, explored) ∷ [];
}

task_1-known : lookup 1 ((1, task_1) ∷ []) ≢ none
unfolding lookup
task_1-known e = ground arith

pub funded-IsLedger : IsLedger funded
unfolding lookup total ◌+ℤ◌
funded-IsLedger = record {
  task_map = (refl, tt);
  account_map = (refl, (refl, (refl, tt)));
  lease_map = (refl, tt);
  accounts = (
    record { nonneg = omega arith; known = task_1-known },
    (
      record { nonneg = omega arith; known = task_1-known },
      (record { nonneg = omega arith; known = task_1-known }, tt),
    ),
  );
  leases = (record { positive = omega arith; anchored = refl; known = task_1-known }, tt);
  tasks = (
    record {
      charged_nonneg = omega arith;
      retired_nonneg = omega arith;
      minted_pos = omega arith;
      minted_fits = omega arith;
      conserved = refl;
      drained = λ e. absurd (ground arith);
    },
    tt,
  );
}
