-- ===== src/Ledger/Funding.antt =====
-- Proofs about the minting of wall time, as Extend of internal/core/core.go does it.
use scp_harness.Base.{
  ℤ, pos, ◌+ℤ◌, ◌≤ℤ◌, int_laws, max_int64, ◌≡◌, ◌≢◌, refl, some, Map, lookup, insert, Every,
  Every-lookup, insert-Every, update-Every, insert-IsMap, ◌==◌, ==_iff, if◌then◌else◌,
}
use scp_harness.Model.{Key, State, Account, Task, TaskStatus}
use scp_harness.Ledger.Totals.{balance, share, total-insert}
use scp_harness.Ledger.Invariant.{AccountOk, TaskOk, IsLedger}
use scp_harness.Ledger.Preservation.{owner_of-insert, anchored_still}
use scp_harness.Ledger.Frame.{accounts_known, leases_known}

module _ (id : Key) (n : ℤ) (a : Account) (t : Task) (s : State) (h : IsLedger s) where
  abbrev richer : Account
  richer = record a { remaining = a.remaining +ℤ n }

  abbrev minted_more : Task
  minted_more = record t { resources = record t.resources { minted = t.resources.minted +ℤ n } }

  -- What the root account of a task is given, and no other.
  given :
      (k : Key)
      → lookup id s.accounts ≡ some a
      → a.task_id ≡ id
      → balance k (insert id richer s.accounts)
        ≡ balance k s.accounts +ℤ (if id == k then n else pos 0)
  given k ea own = grind (int_laws, total-insert (share k) id richer a s.accounts ea, ==_iff id k)

  pub funded-IsLedger :
      lookup id s.accounts ≡ some a
      → a.task_id ≡ id
      → lookup id s.tasks ≡ some t
      → t.status ≢ TaskStatus.closed
      → pos 1 ≤ℤ n
      → t.resources.minted +ℤ n ≤ℤ max_int64
      → IsLedger (record s {
        tasks = insert id minted_more s.tasks;
        accounts = insert id richer s.accounts;
      })
  funded-IsLedger ea own et lasts p fits =
      let ha = Every-lookup (AccountOk s.tasks) id s.accounts h.accounts ea in
      let ht = Every-lookup (TaskOk s.accounts s.leases) id s.tasks h.tasks et in
      let m : Map Account = insert id richer s.accounts in
      let ts : Map Task = insert id minted_more s.tasks in
      let accounts : Every (AccountOk s.tasks) m =
        insert-Every (AccountOk s.tasks) id richer s.accounts
          (record { nonneg = omega (int_laws, ha.nonneg); known = ha.known }) h.accounts in
      record {
        task_map = insert-IsMap id minted_more s.tasks h.task_map;
        account_map = insert-IsMap id richer s.accounts h.account_map;
        lease_map = h.lease_map;
        accounts = accounts_known id minted_more s.tasks m accounts;
        leases = leases_known id minted_more s.tasks m s.leases (
            anchored_still s.tasks s.accounts m s.leases
              (λ j. owner_of-insert id j a richer s.accounts ea refl) h.leases);
        tasks =
            update-Every (TaskOk s.accounts s.leases) (TaskOk m s.leases) id minted_more s.tasks
              h.task_map
              (record {
                charged_nonneg = ht.charged_nonneg;
                retired_nonneg = ht.retired_nonneg;
                minted_pos = omega (int_laws, ht.minted_pos);
                minted_fits = fits;
                conserved = grind (int_laws, given id ea own, ht.conserved);
                drained = λ closed. absurd (lasts closed);
              })
              (λ j w ne x.
                let same : balance j m ≡ balance j s.accounts =
                  grind (int_laws, given j ea own, ==_iff id j) in
                record {
                  charged_nonneg = x.charged_nonneg;
                  retired_nonneg = x.retired_nonneg;
                  minted_pos = x.minted_pos;
                  minted_fits = x.minted_fits;
                  conserved = rw same x.conserved;
                  drained = rw same x.drained;
                })
              h.tasks;
      }
