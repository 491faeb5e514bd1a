-- ===== src/Ledger/Projection.antt =====
-- Proofs about the loops of Refresh of internal/ledger/ledger.go: what a task shows after each.
use scp_harness.Base.{
  ℤ, pos, ap, sym, ◌+ℤ◌, ◌≡◌, refl, ◌∙◌, Option, none, some, [], ◌∷◌, Map, lookup, insert,
  lookup-insert, arith, Option-cases, inl, inr, ◌==◌, ==_iff, Bool-cases, Result-cases, +ℤ-zero,
  +ℤ_assoc, zero-+ℤ, ok,
}
use mathlib.Core.Option
use scp_harness.Model.{Key, Account, Lease, Task}
use scp_harness.Ledger.Transfer.{add}
use scp_harness.Ledger.Refresh.{gather_accounts, gather_leases, with_remaining, with_outstanding}
use scp_harness.Ledger.Totals.{total, balance, leased, share, lease_share}
use scp_harness.Ledger.Conservation.{add-ok}

-- A task with what accounts hold added to what it had.
abbrev pub gathered : ℤ → Task → Task
gathered n x = with_remaining (x.resources.remaining +ℤ n) x

abbrev pub outstanding_by : ℤ → Task → Task
outstanding_by n x = with_outstanding (x.resources.outstanding +ℤ n) x

gathered-zero : (o : Option Task) → Option.map (gathered (pos 0)) o ≡ o
gathered-zero none = refl
gathered-zero (some x) = ap (λ r. some (with_remaining r x)) (+ℤ-zero x.resources.remaining)

outstanding_by-zero : (o : Option Task) → Option.map (outstanding_by (pos 0)) o ≡ o
outstanding_by-zero none = refl
outstanding_by-zero (some x) =
    ap (λ r. some (with_outstanding r x)) (+ℤ-zero x.resources.outstanding)

-- One round and the rest make the whole.
gathered_step :
    (t : Key) (a : Account) (n : ℤ) (x : Task) (ts : Map Task)
    → lookup a.task_id ts ≡ some x
    → Option.map (gathered n) (lookup t (insert a.task_id (gathered a.remaining x) ts))
      ≡ Option.map (gathered (share t a +ℤ n)) (lookup t ts)
gathered_step t a n x ts e = elim (Bool-cases (t == a.task_id)) [
  | inl here ↦
      let y : Task = gathered a.remaining x in
      let new : lookup t (insert a.task_id y ts) ≡ some y =
        ground (arith, lookup-insert a.task_id t y ts) in
      let old : lookup t ts ≡ some x = rw ((==_iff t a.task_id).0 here) e in
      let sum : x.resources.remaining +ℤ a.remaining +ℤ n
          ≡ x.resources.remaining +ℤ (share t a +ℤ n) =
        ground (arith, +ℤ_assoc x.resources.remaining a.remaining n) in
      ap (Option.map (gathered n)) new
      ∙ ap (λ r. some (with_remaining r x)) sum
      ∙ sym (ap (Option.map (gathered (share t a +ℤ n))) old)
  | inr other ↦
      let y : Task = gathered a.remaining x in
      let new : lookup t (insert a.task_id y ts) ≡ lookup t ts =
        ground (arith, lookup-insert a.task_id t y ts) in
      let sum : n ≡ share t a +ℤ n = ground (arith, zero-+ℤ n) in
      ap (Option.map (gathered n)) new ∙ ap (λ r. Option.map (gathered r) (lookup t ts)) sum
]

outstanding_step :
    (t : Key) (l : Lease) (n : ℤ) (x : Task) (ts : Map Task)
    → lookup l.task_id ts ≡ some x
    → Option.map (outstanding_by n) (lookup t (insert l.task_id (outstanding_by l.amount x) ts))
      ≡ Option.map (outstanding_by (lease_share t l +ℤ n)) (lookup t ts)
outstanding_step t l n x ts e = elim (Bool-cases (t == l.task_id)) [
  | inl here ↦
      let y : Task = outstanding_by l.amount x in
      let new : lookup t (insert l.task_id y ts) ≡ some y =
        ground (arith, lookup-insert l.task_id t y ts) in
      let old : lookup t ts ≡ some x = rw ((==_iff t l.task_id).0 here) e in
      let sum : x.resources.outstanding +ℤ l.amount +ℤ n
          ≡ x.resources.outstanding +ℤ (lease_share t l +ℤ n) =
        ground (arith, +ℤ_assoc x.resources.outstanding l.amount n) in
      ap (Option.map (outstanding_by n)) new
      ∙ ap (λ r. some (with_outstanding r x)) sum
      ∙ sym (ap (Option.map (outstanding_by (lease_share t l +ℤ n))) old)
  | inr other ↦
      let y : Task = outstanding_by l.amount x in
      let new : lookup t (insert l.task_id y ts) ≡ lookup t ts =
        ground (arith, lookup-insert l.task_id t y ts) in
      let sum : n ≡ lease_share t l +ℤ n = ground (arith, zero-+ℤ n) in
      ap (Option.map (outstanding_by n)) new
      ∙ ap (λ r. Option.map (outstanding_by r) (lookup t ts)) sum
]

-- What the loop over the accounts leaves: each task with its accounts' balance added.
pub gather_accounts-ok :
    (m : Map Account) (ts : Map Task) {ts' : Map Task} (t : Key)
    → gather_accounts m ts ≡ ok ts'
    → lookup t ts' ≡ Option.map (gathered (balance t m)) (lookup t ts)
unfolding gather_accounts total
gather_accounts-ok [] ts {ts'} t e =
    let same : ts ≡ ts' = ground arith in
    ap (lookup t) (sym same) ∙ sym (gathered-zero (lookup t ts))
gather_accounts-ok ((k, a) ∷ m) ts {ts'} t e = elim (Option-cases (lookup a.task_id ts)) [
  | inl missing ↦ absurd (ground arith)
  | inr (x, ex) ↦ elim (Result-cases (add x.resources.remaining a.remaining)) [
    | inl (c, ec) ↦
        let step : gather_accounts m (insert a.task_id (gathered a.remaining x) ts) ≡ ok ts' =
          ground (arith, add-ok x.resources.remaining a.remaining {c = c} ec) in
        gather_accounts-ok m (insert a.task_id (gathered a.remaining x) ts) t step
        ∙ gathered_step t a (balance t m) x ts ex
    | inr fails ↦ absurd (ground arith)
  ]
]

-- What the loop over the leases leaves.
pub gather_leases-ok :
    (accounts : Map Account) (m : Map Lease) (ts : Map Task) {ts' : Map Task} (t : Key)
    → gather_leases accounts m ts ≡ ok ts'
    → lookup t ts' ≡ Option.map (outstanding_by (leased t m)) (lookup t ts)
unfolding gather_leases total
gather_leases-ok accounts [] ts {ts'} t e =
    let same : ts ≡ ts' = ground arith in
    ap (lookup t) (sym same) ∙ sym (outstanding_by-zero (lookup t ts))
gather_leases-ok accounts ((k, l) ∷ m) ts {ts'} t e = elim (Option-cases (lookup l.task_id ts)) [
  | inl missing ↦ absurd (ground arith)
  | inr (x, ex) ↦ elim (Result-cases (add x.resources.outstanding l.amount)) [
    | inl (c, ec) ↦
        let step : gather_leases accounts m (insert l.task_id (outstanding_by l.amount x) ts)
            ≡ ok ts' =
          ground (arith, add-ok x.resources.outstanding l.amount {c = c} ec) in
        gather_leases-ok accounts m (insert l.task_id (outstanding_by l.amount x) ts) t step
        ∙ outstanding_step t l (leased t m) x ts ex
    | inr fails ↦ absurd (ground arith)
  ]
]
