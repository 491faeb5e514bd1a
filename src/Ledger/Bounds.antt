-- ===== src/Ledger/Bounds.antt =====
-- Proofs about the amounts of a ledger in order, internal/ledger/ledger.go: they are int64.
use scp_harness.Base.{
  pos, pos_part, neg_part, ap, ◌+ℤ◌, ◌≤ℤ◌, int_laws, max_int64, ◌≡◌, some, lookup, Every-lookup,
  Option-cases, inl, inr,
}
use scp_harness.Model.{Key, State, Account, Lease, Task}
use scp_harness.Ledger.Totals.{balance, leased}
use scp_harness.Ledger.Conservation.{Fits}
use scp_harness.Ledger.Invariant.{
  AccountOk, LeaseOk, TaskOk, IsLedger, balance-nonneg, leased-nonneg, account-le-balance,
  lease-le-leased,
}

module _ (s : State) (h : IsLedger s) where
  -- All that a task has, together.
  pub task_bound :
      (t : Key) {x : Task}
      → lookup t s.tasks ≡ some x
      → (pos 0 ≤ℤ balance t s.accounts)
        × (pos 0 ≤ℤ leased t s.leases)
        × (pos 0 ≤ℤ x.resources.charged)
        × (balance t s.accounts +ℤ leased t s.leases +ℤ x.resources.charged ≤ℤ max_int64)
  task_bound t {x} e =
      let ok = Every-lookup (TaskOk s.accounts s.leases) t s.tasks h.tasks e in
      let b = balance-nonneg s.tasks t s.accounts h.accounts in
      let l = leased-nonneg s.tasks s.accounts t s.leases h.leases in
      (
        b,
        l,
        ok.charged_nonneg,
        omega (
          int_laws,
          b,
          l,
          ok.charged_nonneg,
          ok.retired_nonneg,
          ap pos_part ok.conserved,
          ap neg_part ok.conserved,
          ok.minted_fits,
        ),
      )

  pub account_bound :
      (k : Key) {a : Account}
      → lookup k s.accounts ≡ some a
      → (pos 0 ≤ℤ a.remaining)
        × (a.remaining +ℤ leased a.task_id s.leases ≤ℤ max_int64)
        × ((x : Task) × (lookup a.task_id s.tasks ≡ some x))
  account_bound k {a} e =
      let ok = Every-lookup (AccountOk s.tasks) k s.accounts h.accounts e in
      elim (Option-cases (lookup a.task_id s.tasks)) [
        | inl missing ↦ absurd (ok.known missing)
        | inr (x, ex) ↦ (
          ok.nonneg,
          omega (
            int_laws,
            account-le-balance s.tasks k {a = a} s.accounts h.accounts e,
            task_bound a.task_id {x = x} ex,
          ),
          (x, ex),
        )
      ]

  pub lease_bound :
      (k : Key) {l : Lease}
      → lookup k s.leases ≡ some l
      → (pos 1 ≤ℤ l.amount)
        × (l.amount ≤ℤ leased l.task_id s.leases)
        × ((x : Task) × (lookup l.task_id s.tasks ≡ some x)
            × (l.amount ≤ℤ max_int64)
            × (x.resources.charged +ℤ l.amount ≤ℤ max_int64)
            × (pos 0 ≤ℤ x.resources.charged))
  lease_bound k {l} e =
      let ok = Every-lookup (LeaseOk s.tasks s.accounts) k s.leases h.leases e in
      let le = lease-le-leased s.tasks s.accounts k {l = l} s.leases h.leases e in
      elim (Option-cases (lookup l.task_id s.tasks)) [
        | inl missing ↦ absurd (ok.known missing)
        | inr (x, ex) ↦
            let b = task_bound l.task_id {x = x} ex in
            (ok.positive, le, (x, ex, omega (int_laws, le, b), omega (int_laws, le, b), b.2))
      ]

  -- The ranges of the program's types follow.
  pub IsLedger-Fits : Fits s
  IsLedger-Fits = record {
    account = λ k {a} e.
        let b = account_bound k e in
        grind (int_laws, leased-nonneg s.tasks s.accounts a.task_id s.leases h.leases);
    task = λ k {t} e. let b = task_bound k e in grind int_laws;
    lease = λ k {l} e. let b = lease_bound k e in grind int_laws;
  }
