-- ===== src/Tests/Accounts.antt =====
-- The ledger at concrete inputs.
use scp_harness.Base.{
  pos, ◌+ℤ◌, ◌-ℤ◌, ◌≤ℤ◌, ◌≡◌, ◌≢◌, refl, false, some, [], ◌∷◌, lookup, insert, arith, ok, err,
  panic, Code, lt_ℤ, ◌||◌, max_int64, if◌then◌else◌, add64, sub64, wrap64,
}
use scp_harness.Model.{Key, State, Account, TaskStatus}
use scp_harness.Ledger.{
  add, move, transfer, reserve, settle, refresh, allocate, allocate_fuel, ancestors, walk_fuel, lca,
  chains, first_common,
}
use scp_harness.Ledger.Totals.{balance, leased}
use scp_harness.Ledger.Invariant.{IsLedger}
use scp_harness.Ledger.Bounds.{IsLedger-Fits}
use scp_harness.Ledger.Conservation.{add_lem, Moved, move_lem}
use scp_harness.Ledger.Settlement.{settle-IsLedger}
use scp_harness.Ledger.Acceptance.{refresh_total}
use scp_harness.Ledger.Soundness.{refresh_sound}
use scp_harness.Ledger.Walks.{Above, self, up, ancestors-ne-panic}
use scp_harness.Ledger.CommonAncestor.{AboveAll, lca_lowest, lca_total}
use scp_harness.Ledger.Allocation.{allocate_lem}
use scp_harness.Tests.Data.{
  funded, funded-IsLedger, accounts, root, account_2, account_3, lease_9, task_1,
}

add_lem_example : add max_int64 (pos 1) ≡ (
    if lt_ℤ max_int64 (pos 0) || lt_ℤ (pos 1) (pos 0) || lt_ℤ max_int64 (max_int64 +ℤ pos 1)
    then err Code.precondition_failed
    else ok (max_int64 +ℤ pos 1))
add_lem_example = add_lem max_int64 (pos 1)

abbrev moved_state : State
moved_state = record funded {
  accounts =
      (1, record root { remaining = pos 2999000 })
      ∷ (2, account_2)
      ∷ (3, record account_3 { remaining = pos 401000 })
      ∷ [];
}

move-funded : move 1 3 (pos 1000) funded ≡ ok moved_state
unfolding move transfer add insert lookup add64 sub64 wrap64 ◌+ℤ◌ ◌-ℤ◌
move-funded = refl

move_lem_example :
    (a : Account) × (b : Account) × (lookup 1 funded.accounts ≡ some a)
    × (lookup 3 funded.accounts ≡ some b)
    × Moved 1 3 (pos 1000) a b funded moved_state
move_lem_example = move_lem 1 3 (pos 1000) funded (IsLedger-Fits funded funded-IsLedger) move-funded

abbrev reserved_state : State
reserved_state = record funded {
  accounts = (1, root) ∷ (2, account_2) ∷ (3, record account_3 { remaining = pos 300000 }) ∷ [];
  leases = (9, lease_9) ∷ (10, record { task_id = 1; anchor = 3; amount = pos 100000 }) ∷ [];
}

reserve-funded : reserve 10 3 (pos 100000) funded ≡ ok reserved_state
unfolding reserve insert lookup sub64 wrap64 ◌+ℤ◌ ◌-ℤ◌
reserve-funded = refl

lease_9-found : lookup 9 funded.leases ≡ some lease_9
unfolding lookup
lease_9-found = refl

settle-IsLedger_example : (s' : State) × (settle 9 (pos 40000) false funded ≡ ok s') × IsLedger s'
settle-IsLedger_example =
    settle-IsLedger 9 (pos 40000) false funded lease_9 funded-IsLedger lease_9-found (omega arith)

refresh_total_example : (s' : State) × (refresh funded ≡ ok s') × IsLedger s'
refresh_total_example = refresh_total funded funded-IsLedger

task_1-found : lookup 1 funded.tasks ≡ some task_1
unfolding lookup
task_1-found = refl

refresh_sound_example :
    (balance 1 funded.accounts
        +ℤ leased 1 funded.leases
        +ℤ task_1.resources.charged
        +ℤ task_1.resources.retired
      ≡ task_1.resources.minted)
    × (pos 1 ≤ℤ task_1.resources.minted)
    × (task_1.status ≡ TaskStatus.closed
        → (balance 1 funded.accounts ≡ pos 0) × (leased 1 funded.leases ≡ pos 0))
refresh_sound_example = refresh_sound funded 1 (refresh_total funded funded-IsLedger).1 task_1-found

walk-3 : ancestors (walk_fuel accounts) [] 3 accounts ≡ ok (1 ∷ 2 ∷ 3 ∷ [])
unfolding ancestors lookup
walk-3 = refl

walk-2 : ancestors (walk_fuel accounts) [] 2 accounts ≡ ok (1 ∷ 2 ∷ [])
unfolding ancestors lookup
walk-2 = refl

ancestors-ne-panic_example : ancestors (walk_fuel accounts) [] 3 accounts ≢ panic
ancestors-ne-panic_example = ancestors-ne-panic 3 accounts

-- The option 3 takes from its parent 2 what it has, and so more from the root.
abbrev raised_state : State
raised_state = record funded {
  accounts =
      (1, record root { remaining = pos 2800000 })
      ∷ (2, record account_2 { remaining = pos 0 })
      ∷ (3, record account_3 { remaining = pos 2100000 })
      ∷ [];
}

allocate-funded : allocate 3 (pos 1700000) funded ≡ ok raised_state
unfolding allocate allocate_fuel move transfer add insert lookup add64 sub64 wrap64 ◌+ℤ◌ ◌-ℤ◌
allocate-funded = refl

allocate_lem_example :
    ((a : Account) × (lookup 3 funded.accounts ≡ some a)
      × (lookup 3 raised_state.accounts
          ≡ some (record a { remaining = a.remaining +ℤ pos 1700000 })))
    × ((y : Key)
        → ¬ Above funded.accounts 3 y
        → lookup y raised_state.accounts ≡ lookup y funded.accounts)
allocate_lem_example =
    allocate_lem 3 (pos 1700000) funded funded-IsLedger refl walk-3 allocate-funded

lca-funded : lca (3 ∷ 2 ∷ []) accounts ≡ ok 2
unfolding lca chains first_common ancestors lookup
lca-funded = refl

lca_lowest_example :
    AboveAll accounts (3 ∷ 2 ∷ []) 2
    × ((y : Key) → AboveAll accounts (3 ∷ 2 ∷ []) y → Above accounts 2 y)
lca_lowest_example = lca_lowest 3 (2 ∷ []) accounts lca-funded

option_2-Above : Above accounts 2 2
unfolding lookup
option_2-Above = self account_2 refl refl refl

option_3-Above : Above accounts 3 2
unfolding lookup
option_3-Above = up account_3 refl refl option_2-Above

found-2 : lookup 2 accounts ≡ some account_2
unfolding lookup
found-2 = refl

found-3 : lookup 3 accounts ≡ some account_3
unfolding lookup
found-3 = refl

lca_total_example : (r : Key) × (lca (3 ∷ 2 ∷ []) accounts ≡ ok r)
lca_total_example =
    lca_total 3 (2 ∷ []) accounts 1 2
      (
        (account_3, found-3, refl),
        (1 ∷ 2 ∷ 3 ∷ [], walk-3),
        ((account_2, found-2, refl), (1 ∷ 2 ∷ [], walk-2), tt),
      )
      (option_3-Above, (option_2-Above, tt))
