-- ===== src/Ledger/Gathering.antt =====
-- Proofs about the two loops of Refresh of internal/ledger/ledger.go on states that satisfy the
-- invariant.
use scp_harness.Base.{
  pos, subst, ◌+ℤ◌, ◌≤ℤ◌, int_laws, max_int64, ◌≡◌, refl, ◌≢◌, none, some, [], ◌∷◌, Map, lookup,
  insert, Every, lookup-insert, arith, Option-cases, inl, inr, true, ◌==◌, ==_iff, Bool-cases, ok,
  IsMap, insert-IsMap,
}
use scp_harness.Model.{Key, Account, Lease, Task}
use scp_harness.Ledger.Transfer.{add}
use scp_harness.Ledger.Refresh.{gather_accounts, gather_leases, anchored}
use scp_harness.Ledger.Totals.{total, balance, leased}
use scp_harness.Ledger.Conservation.{add_total}
use scp_harness.Ledger.Invariant.{AccountOk, LeaseOk, balance-nonneg, leased-nonneg}
use scp_harness.Ledger.Projection.{gathered, outstanding_by}

-- Conversely, where the accounts of a map are good, the loop over them goes through.
pub gather_accounts_total :
    (tasks : Map Task) (m : Map Account) (ts : Map Task)
    → Every (AccountOk tasks) m
    → ((k : Key) → lookup k tasks ≢ none → lookup k ts ≢ none)
    → ((k : Key) (t : Task)
        → lookup k ts ≡ some t
        → (pos 0 ≤ℤ t.resources.remaining) × (t.resources.remaining +ℤ balance k m ≤ℤ max_int64))
    → (ts' : Map Task) × (gather_accounts m ts ≡ ok ts') × (IsMap ts → IsMap ts')
unfolding gather_accounts total
gather_accounts_total tasks [] ts h known room = (ts, refl, λ u. u)
gather_accounts_total tasks ((k, a) ∷ m) ts h known room =
    elim (Option-cases (lookup a.task_id ts)) [
      | inl missing ↦ absurd (known a.task_id h.0.known missing)
      | inr (x, ex) ↦
          let y : Task = gathered a.remaining x in
          let rest = balance-nonneg tasks a.task_id m h.1 in
          let space = room a.task_id x ex in
          let sum : add x.resources.remaining a.remaining
              ≡ ok (x.resources.remaining +ℤ a.remaining) =
            add_total x.resources.remaining a.remaining space.0 h.0.nonneg
              (grind (int_laws, space, rest)) in
          let (ts', e, map_still) =
            gather_accounts_total tasks m (insert a.task_id y ts) h.1
              (λ j p q. known j p (ground (arith, lookup-insert a.task_id j y ts)))
              (λ j t q. elim (Bool-cases (j == a.task_id)) [
                | inl here ↦
                    let same : j ≡ a.task_id = (==_iff j a.task_id).0 here in
                    let value : y ≡ t = ground (arith, lookup-insert a.task_id j y ts) in
                    rw same (
                      subst
                        (λ (z : Task).
                          (pos 0 ≤ℤ z.resources.remaining)
                          × (z.resources.remaining +ℤ balance a.task_id m ≤ℤ max_int64))
                        value (grind (int_laws, space, h.0.nonneg)))
                | inr other ↦
                    let old : lookup j ts ≡ some t =
                      ground (arith, lookup-insert a.task_id j y ts) in
                    grind (int_laws, room j t old)
              ]) in
          (ts', ground (arith, sum), λ u. map_still (insert-IsMap a.task_id y ts u))
    ]

pub gather_leases_total :
    (tasks : Map Task) (accounts : Map Account) (m : Map Lease) (ts : Map Task)
    → Every (LeaseOk tasks accounts) m
    → ((k : Key) → lookup k tasks ≢ none → lookup k ts ≢ none)
    → ((k : Key) (t : Task)
        → lookup k ts ≡ some t
        → (pos 0 ≤ℤ t.resources.outstanding) × (t.resources.outstanding +ℤ leased k m ≤ℤ max_int64))
    → (ts' : Map Task) × (gather_leases accounts m ts ≡ ok ts') × (IsMap ts → IsMap ts')
unfolding gather_leases total
gather_leases_total tasks accounts [] ts h known room = (ts, refl, λ u. u)
gather_leases_total tasks accounts ((k, l) ∷ m) ts h known room =
    elim (Option-cases (lookup l.task_id ts)) [
      | inl missing ↦ absurd (known l.task_id h.0.known missing)
      | inr (x, ex) ↦
          let y : Task = outstanding_by l.amount x in
          let rest = leased-nonneg tasks accounts l.task_id m h.1 in
          let space = room l.task_id x ex in
          let sum : add x.resources.outstanding l.amount
              ≡ ok (x.resources.outstanding +ℤ l.amount) =
            add_total x.resources.outstanding l.amount space.0 (grind (int_laws, h.0.positive))
              (grind (int_laws, space, rest)) in
          let held : anchored l accounts ≡ true =
            ground (arith, h.0.anchored, ==_iff l.task_id l.task_id) in
          let (ts', e, map_still) =
            gather_leases_total tasks accounts m (insert l.task_id y ts) h.1
              (λ j p q. known j p (ground (arith, lookup-insert l.task_id j y ts)))
              (λ j t q. elim (Bool-cases (j == l.task_id)) [
                | inl here ↦
                    let same : j ≡ l.task_id = (==_iff j l.task_id).0 here in
                    let value : y ≡ t = ground (arith, lookup-insert l.task_id j y ts) in
                    rw same (
                      subst
                        (λ (z : Task).
                          (pos 0 ≤ℤ z.resources.outstanding)
                          × (z.resources.outstanding +ℤ leased l.task_id m ≤ℤ max_int64))
                        value (grind (int_laws, space, h.0.positive)))
                | inr other ↦
                    let old : lookup j ts ≡ some t =
                      ground (arith, lookup-insert l.task_id j y ts) in
                    grind (int_laws, room j t old)
              ]) in
          (
            ts',
            ground (arith, sum, held, h.0.positive),
            λ u. map_still (insert-IsMap l.task_id y ts u),
          )
    ]
