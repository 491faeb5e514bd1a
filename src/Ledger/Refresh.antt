-- ===== src/Ledger/Refresh.antt =====
-- Refresh of internal/ledger/ledger.go: the projections of the accounts and leases on each task,
-- and the check that what was minted is accounted for.
use scp_harness.Base.{
  ℤ, pos, Bool, false, not, ◌&&◌, ◌||◌, none, some, [], ◌∷◌, Map, lookup, insert, map_values,
  all_entries, Result, ok, err, panic, Code, ◌>>=◌, ◌>>◌, fail_if, ◌==◌, le_ℤ, eq_ℤ, if◌then◌else◌,
}
use scp_harness.Model.{State, Account, Lease, Task, Proposal, Resources, is_closed}
use scp_harness.Ledger.Transfer.{add}

abbrev pub reset_task : Task → Task
reset_task t = record t {
  resources = record t.resources { remaining = pos 0; outstanding = pos 0 };
}

abbrev pub with_remaining : ℤ → Task → Task
with_remaining n t = record t { resources = record t.resources { remaining = n } }

abbrev pub with_outstanding : ℤ → Task → Task
with_outstanding n t = record t { resources = record t.resources { outstanding = n } }

-- An error of Add is told as another.
abbrev pub as_inconsistent {ℓ} : {A : Type ℓ} → Result A → Result A
as_inconsistent (ok a) = ok a
as_inconsistent (err e) = err Code.core_inconsistent
as_inconsistent panic = panic

-- The loop over the accounts, on the tasks.
unfoldable pub gather_accounts : Map Account → Map Task → Result (Map Task)
gather_accounts [] ts = ok ts
gather_accounts ((_, a) ∷ m) ts = elim (lookup a.task_id ts) [
  | none ↦ err Code.core_inconsistent
  | some t ↦ elim (add t.resources.remaining a.remaining) [
    | ok n ↦ gather_accounts m (insert a.task_id (with_remaining n t) ts)
    | err _ ↦ err Code.core_inconsistent
    | panic ↦ panic
  ]
]

-- The same loop, on the options: each shows what its account holds.
unfoldable pub mirror_accounts : Map Account → Map Proposal → Map Proposal
mirror_accounts m os =
    map_values
      (λ id o. elim (lookup id m) [ none ↦ o | some a ↦ record o { remaining = a.remaining } ]) os

-- `s.Accounts[l.Anchor] == nil || s.Accounts[l.Anchor].TaskID != l.TaskID`
abbrev pub anchored : Lease → Map Account → Bool
anchored l m = elim (lookup l.anchor m) [ none ↦ false | some a ↦ a.task_id == l.task_id ]

unfoldable pub gather_leases : Map Account → Map Lease → Map Task → Result (Map Task)
gather_leases accounts [] ts = ok ts
gather_leases accounts ((_, l) ∷ m) ts = elim (lookup l.task_id ts) [
  | none ↦ err Code.core_inconsistent
  | some t ↦
      if le_ℤ l.amount (pos 0) || not (anchored l accounts)
      then err Code.core_inconsistent
      else elim (add t.resources.outstanding l.amount) [
        | ok n ↦ gather_leases accounts m (insert l.task_id (with_outstanding n t) ts)
        | err _ ↦ err Code.core_inconsistent
        | panic ↦ panic
      ]
]

-- The chain of Adds on a task's resources.
unfoldable pub accounted : Resources → Result ℤ
accounted r = do a ← add r.remaining r.outstanding; b ← add a r.charged; add b r.retired

unfoldable pub balanced : Resources → Bool
balanced r = elim (accounted r) [
  | ok sum ↦ eq_ℤ sum r.minted && not (le_ℤ r.minted (pos 0))
  | err _ ↦ false
  | panic ↦ false
]

-- The last loop, for one task.
unfoldable pub settled_task : Task → Bool
settled_task t =
    balanced t.resources
    && (not (is_closed t.status)
        || (eq_ℤ t.resources.remaining (pos 0) && eq_ℤ t.resources.outstanding (pos 0)))

unfoldable pub refresh : State → Result State
refresh s = do
  ts ← gather_accounts s.accounts (map_values (λ _ t. reset_task t) s.tasks)
  ts' ← gather_leases s.accounts s.leases ts
  fail_if (not (all_entries (λ _ t. settled_task t) ts')) Code.core_inconsistent
  ok (record s { tasks = ts'; options = mirror_accounts s.accounts s.options })
