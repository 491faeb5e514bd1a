-- ===== src/Ledger/Invariant.antt =====
-- What holds of the accounts, the leases and the resources of the tasks between two operations.
use scp_harness.Base.{
  pos, ◌+ℤ◌, ◌≤ℤ◌, int_laws, max_int64, ◌≡◌, ◌≢◌, Option, none, some, Map, [], ◌∷◌, lookup, Every,
  IsMap, arith,
}
use mathlib.Core.Option
use scp_harness.Model.{Key, State, Account, Lease, Task, TaskStatus}
use scp_harness.Ledger.Totals.{total, balance, leased}

-- The task that an account belongs to.
abbrev pub owner_of : Key → Map Account → Option Key
owner_of k m = Option.map (λ a. a.task_id) (lookup k m)

pub record AccountOk (tasks : Map Task) (k : Key) (a : Account) : Type 0 where
  pub nonneg : pos 0 ≤ℤ a.remaining
  pub known : lookup a.task_id tasks ≢ none

pub record LeaseOk (tasks : Map Task) (accounts : Map Account) (k : Key) (l : Lease) : Type 0 where
  pub positive : pos 1 ≤ℤ l.amount
  pub anchored : owner_of l.anchor accounts ≡ some l.task_id
  pub known : lookup l.task_id tasks ≢ none

-- What was minted is what the accounts and the leases of the task hold, what was charged, and what
-- was retired. A closed task holds nothing.
pub record TaskOk (accounts : Map Account) (leases : Map Lease) (k : Key) (t : Task) : Type 0 where
  pub charged_nonneg : pos 0 ≤ℤ t.resources.charged
  pub retired_nonneg : pos 0 ≤ℤ t.resources.retired
  pub minted_pos : pos 1 ≤ℤ t.resources.minted
  pub minted_fits : t.resources.minted ≤ℤ max_int64
  pub conserved :
      balance k accounts +ℤ leased k leases +ℤ t.resources.charged +ℤ t.resources.retired
      ≡ t.resources.minted
  pub drained :
      t.status ≡ TaskStatus.closed → (balance k accounts ≡ pos 0) × (leased k leases ≡ pos 0)

pub record IsLedger (s : State) : Type 0 where
  pub task_map : IsMap s.tasks
  pub account_map : IsMap s.accounts
  pub lease_map : IsMap s.leases
  pub accounts : Every (AccountOk s.tasks) s.accounts
  pub leases : Every (LeaseOk s.tasks s.accounts) s.leases
  pub tasks : Every (TaskOk s.accounts s.leases) s.tasks

-- Sums of amounts that are at least 0.
pub balance-nonneg :
    (tasks : Map Task) (t : Key) (m : Map Account)
    → Every (AccountOk tasks) m
    → pos 0 ≤ℤ balance t m
unfolding total
balance-nonneg ts t [] h = omega arith
balance-nonneg ts t ((k, a) ∷ m) h = grind (int_laws, balance-nonneg ts t m h.1, h.0.nonneg)

pub leased-nonneg :
    (tasks : Map Task) (accounts : Map Account) (t : Key) (m : Map Lease)
    → Every (LeaseOk tasks accounts) m
    → pos 0 ≤ℤ leased t m
unfolding total
leased-nonneg ts as' t [] h = omega arith
leased-nonneg ts as' t ((k, l) ∷ m) h = grind (int_laws, leased-nonneg ts as' t m h.1, h.0.positive)

-- No account holds more than the balance of its task, and no lease more than what is leased.
pub account-le-balance :
    (tasks : Map Task) (k : Key) {a : Account} (m : Map Account)
    → Every (AccountOk tasks) m
    → lookup k m ≡ some a
    → a.remaining ≤ℤ balance a.task_id m
unfolding total lookup
account-le-balance ts k [] h e = absurd (ground arith)
account-le-balance ts k {a} ((j, b) ∷ m) h e =
    grind (
      int_laws,
      account-le-balance ts k {a = a} m h.1,
      h.0.nonneg,
      balance-nonneg ts a.task_id m h.1,
    )

pub lease-le-leased :
    (tasks : Map Task) (accounts : Map Account) (k : Key) {l : Lease} (m : Map Lease)
    → Every (LeaseOk tasks accounts) m
    → lookup k m ≡ some l
    → l.amount ≤ℤ leased l.task_id m
unfolding total lookup
lease-le-leased ts as' k [] h e = absurd (ground arith)
lease-le-leased ts as' k {l} ((j, b) ∷ m) h e = grind (
  int_laws,
  lease-le-leased ts as' k {l = l} m h.1,
  h.0.positive,
  leased-nonneg ts as' l.task_id m h.1,
)
