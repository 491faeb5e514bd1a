-- ===== src/Ledger/Transfer.antt =====
-- Add, Move, Reserve and Settle of internal/ledger/ledger.go.
use scp_harness.Base.{
  ℤ, pos, Bool, not, ◌&&◌, ◌||◌, lookup, insert, erase, Result, ok, Code, ◌>>=◌, ◌>>◌, fail_if,
  or_fail, deref, ◌==◌, if◌then◌else◌, present, lt_ℤ, le_ℤ, min_ℤ, add64, sub64, max_int64, ◌-ℤ◌,
}
use scp_harness.Model.{Key, State, Account, Lease, Task}

-- `math.MaxInt64-a` is reached only for a ≥ 0, so on an int64 it does not wrap around.
unfoldable pub add : ℤ → ℤ → Result ℤ
add a b = do
  fail_if (lt_ℤ a (pos 0) || lt_ℤ b (pos 0) || lt_ℤ (max_int64 -ℤ a) b) Code.precondition_failed
  ok (add64 a b)

-- MinRootAfterTransferMS
abbrev pub min_root_after_transfer : ℤ
min_root_after_transfer = pos 1200000

-- Move, once both accounts are found.
unfoldable pub transfer : Key → Key → ℤ → Account → Account → State → Result State
transfer from to n a b s = do
  fail_if (not (a.task_id == b.task_id) || (from == to) || lt_ℤ n (pos 0)) Code.precondition_failed
  fail_if ((a.parent == 0) && lt_ℤ (pos 0) n && lt_ℤ (sub64 a.remaining n) min_root_after_transfer)
      Code.insufficient_resource
  fail_if (lt_ℤ a.remaining n) Code.insufficient_resource
  v ← add b.remaining n
  let a' : Account = record a { remaining = sub64 a.remaining n }
  let b' : Account = record b { remaining = v }
  ok (record s { accounts = insert to b' (insert from a' s.accounts) })

unfoldable pub move : Key → Key → ℤ → State → Result State
move from to n s = do
  a ← or_fail (lookup from s.accounts) Code.precondition_failed
  b ← or_fail (lookup to s.accounts) Code.precondition_failed
  transfer from to n a b s

unfoldable pub reserve : Key → Key → ℤ → State → Result State
reserve id anchor n s = do
  a ← or_fail (lookup anchor s.accounts) Code.precondition_failed
  fail_if (le_ℤ n (pos 0) || present (lookup id s.leases)) Code.precondition_failed
  fail_if (lt_ℤ a.remaining n) Code.insufficient_resource
  let a' : Account = record a { remaining = sub64 a.remaining n }
  let l : Lease = record { task_id = a.task_id; anchor = anchor; amount = n }
  ok (record s { accounts = insert anchor a' s.accounts; leases = insert id l s.leases })

-- What a lease is charged.
abbrev pub charge_of : ℤ → Bool → Lease → ℤ
charge_of elapsed uncertain l = if uncertain then l.amount else min_ℤ elapsed l.amount

unfoldable pub settle : Key → ℤ → Bool → State → Result State
settle id elapsed uncertain s = do
  l ← or_fail (lookup id s.leases) Code.core_inconsistent
  fail_if (lt_ℤ elapsed (pos 0)) Code.core_inconsistent
  let charge : ℤ = charge_of elapsed uncertain l
  a ← deref (lookup l.anchor s.accounts)
  t ← deref (lookup l.task_id s.tasks)
  let a' : Account = record a { remaining = add64 a.remaining (sub64 l.amount charge) }
  let charged : ℤ = add64 t.resources.charged charge
  let t' : Task = record t { resources = record t.resources { charged = charged } }
  ok (record s {
    accounts = insert l.anchor a' s.accounts;
    tasks = insert l.task_id t' s.tasks;
    leases = erase id s.leases;
  })
