-- ===== src/Ledger/Preservation.antt =====
-- Proofs about Move and Reserve of internal/ledger/ledger.go and the invariant.
use scp_harness.Base.{
  ℤ, pos, ap, sym, subst, ◌+ℤ◌, ◌-ℤ◌, ◌≤ℤ◌, int_laws, ◌≡◌, refl, ◌∙◌, none, some, Map, lookup,
  insert, Every, Every-lookup, Every-map, insert-Every, lookup-insert, lookup-insert_ne,
  lookup-insert_self, arith, inl, inr, insert-IsMap, ◌==◌, ==_iff, Bool-cases, ok,
}
use mathlib.Core.Option
use scp_harness.Model.{Key, State, Account, Lease, Task}
use scp_harness.Ledger.Transfer.{move, reserve}
use scp_harness.Ledger.Totals.{balance, leased}
use scp_harness.Ledger.Conservation.{
  Moved, move_lem, after_transfer, transfer-balance, reserve_lem, reserved-total,
}
use scp_harness.Ledger.Invariant.{
  AccountOk, LeaseOk, TaskOk, IsLedger, owner_of, balance-nonneg, leased-nonneg,
}
use scp_harness.Ledger.Bounds.{IsLedger-Fits}

-- A new record for an account that stays with its task changes no owner.
pub owner_of-insert :
    (k j : Key) (a a' : Account) (m : Map Account)
    → lookup k m ≡ some a
    → a'.task_id ≡ a.task_id
    → owner_of j (insert k a' m) ≡ owner_of j m
owner_of-insert k j a a' m e same = elim (Bool-cases (j == k)) [
  | inl here ↦ ground (arith, lookup-insert k j a' m, ==_iff j k)
  | inr other ↦ ground (arith, lookup-insert k j a' m)
]

-- The leases stay anchored where every owner stays.
pub anchored_still :
    (tasks : Map Task) (m m' : Map Account) (ls : Map Lease)
    → ((j : Key) → owner_of j m' ≡ owner_of j m)
    → Every (LeaseOk tasks m) ls
    → Every (LeaseOk tasks m') ls
anchored_still tasks m m' ls f =
    Every-map (LeaseOk tasks m) (LeaseOk tasks m') ls (λ k l h. record {
      positive = h.positive;
      anchored = f l.anchor ∙ h.anchored;
      known = h.known;
    })

-- The tasks stay accounted for where each one's accounts and leases hold as much together.
pub conserved_still :
    (m m' : Map Account) (ls ls' : Map Lease) (ts : Map Task)
    → ((t : Key) → balance t m' +ℤ leased t ls' ≡ balance t m +ℤ leased t ls)
    → ((t : Key) → (pos 0 ≤ℤ balance t m') × (pos 0 ≤ℤ leased t ls'))
    → Every (TaskOk m ls) ts
    → Every (TaskOk m' ls') ts
conserved_still m m' ls ls' ts f g = Every-map (TaskOk m ls) (TaskOk m' ls') ts (λ k t h. record {
  charged_nonneg = h.charged_nonneg;
  retired_nonneg = h.retired_nonneg;
  minted_pos = h.minted_pos;
  minted_fits = h.minted_fits;
  conserved = rw (f k) h.conserved;
  drained = λ closed. grind (int_laws, f k, g k, h.drained closed);
})

module _ (from to : Key) (n : ℤ) (a b : Account) (s : State) (h : IsLedger s) where
  transfer-IsLedger :
      lookup from s.accounts ≡ some a
      → lookup to s.accounts ≡ some b
      → {s' : State} → Moved from to n a b s s'
      → IsLedger (record s { accounts = after_transfer from to n a b s.accounts })
  transfer-IsLedger ea eb m =
      let a' : Account = record a { remaining = a.remaining -ℤ n } in
      let b' : Account = record b { remaining = b.remaining +ℤ n } in
      let mid : Map Account = insert from a' s.accounts in
      let eb' = lookup-insert_ne from to a' s.accounts (λ e. m.distinct (sym e)) ∙ eb in
      let ha = Every-lookup (AccountOk s.tasks) from s.accounts h.accounts ea in
      let hb = Every-lookup (AccountOk s.tasks) to s.accounts h.accounts eb in
      let accounts : Every (AccountOk s.tasks) (insert to b' mid) =
        insert-Every (AccountOk s.tasks) to b' mid
          (record { nonneg = omega (int_laws, hb.nonneg, m.nonneg); known = hb.known })
          (insert-Every (AccountOk s.tasks) from a' s.accounts
            (record { nonneg = omega (int_laws, m.covered); known = ha.known }) h.accounts) in
      record {
        task_map = h.task_map;
        account_map = insert-IsMap to b' mid (insert-IsMap from a' s.accounts h.account_map);
        lease_map = h.lease_map;
        accounts = accounts;
        leases =
            anchored_still s.tasks s.accounts (insert to b' mid) s.leases
              (λ j.
                owner_of-insert to j b b' mid eb' refl
                ∙ owner_of-insert from j a a' s.accounts ea refl)
              h.leases;
        tasks =
            conserved_still s.accounts (insert to b' mid) s.leases s.leases s.tasks
              (λ t.
                ap (λ x. x +ℤ leased t s.leases)
                  (transfer-balance from to n a b s.accounts t ea eb m.same_task m.distinct))
              (λ t. (
                balance-nonneg s.tasks t (insert to b' mid) accounts,
                leased-nonneg s.tasks s.accounts t s.leases h.leases,
              ))
              h.tasks;
      }

-- When Move succeeds on a state that satisfies the invariant of the ledger, the state that it
-- returns satisfies it.
pub move-IsLedger :
    (from to : Key) (n : ℤ) (s : State) {s' : State}
    → IsLedger s
    → move from to n s ≡ ok s'
    → IsLedger s'
move-IsLedger from to n s {s'} h e =
    let (a, b, ea, eb, m) = move_lem from to n s (IsLedger-Fits s h) e in
    subst IsLedger (sym m.after) (transfer-IsLedger from to n a b s h ea eb m)

-- Taking out a lease keeps the invariant.
module _ (id anchor : Key) (n : ℤ) (s : State) (h : IsLedger s) (a : Account) where
  abbrev lease_of : Lease
  lease_of = record { task_id = a.task_id; anchor = anchor; amount = n }

  abbrev debited : Account
  debited = record a { remaining = a.remaining -ℤ n }

  reserved-IsLedger :
      lookup anchor s.accounts ≡ some a
      → lookup id s.leases ≡ none
      → pos 1 ≤ℤ n
      → n ≤ℤ a.remaining
      → IsLedger (record s {
        accounts = insert anchor debited s.accounts;
        leases = insert id lease_of s.leases;
      })
  reserved-IsLedger ea fresh p q =
      let ha = Every-lookup (AccountOk s.tasks) anchor s.accounts h.accounts ea in
      let m : Map Account = insert anchor debited s.accounts in
      let ls : Map Lease = insert id lease_of s.leases in
      let accounts : Every (AccountOk s.tasks) m =
        insert-Every (AccountOk s.tasks) anchor debited s.accounts
          (record { nonneg = omega int_laws; known = ha.known }) h.accounts in
      let leases : Every (LeaseOk s.tasks m) ls =
        insert-Every (LeaseOk s.tasks m) id lease_of s.leases
          (record {
            positive = p;
            anchored =
                ap (Option.map (λ (x : Account). x.task_id))
                  (lookup-insert_self anchor debited s.accounts);
            known = ha.known;
          })
          (anchored_still s.tasks s.accounts m s.leases
            (λ j. owner_of-insert anchor j a debited s.accounts ea refl) h.leases) in
      record {
        task_map = h.task_map;
        account_map = insert-IsMap anchor debited s.accounts h.account_map;
        lease_map = insert-IsMap id lease_of s.leases h.lease_map;
        accounts = accounts;
        leases = leases;
        tasks =
            conserved_still s.accounts m s.leases ls s.tasks
              (λ t. reserved-total id anchor n a s t ea fresh)
              (λ t. (balance-nonneg s.tasks t m accounts, leased-nonneg s.tasks m t ls leases))
              h.tasks;
      }

-- When Reserve succeeds on a state that satisfies the invariant of the ledger, the state that it
-- returns satisfies it.
pub reserve-IsLedger :
    (id anchor : Key) (n : ℤ) (s : State) {s' : State}
    → IsLedger s
    → reserve id anchor n s ≡ ok s'
    → IsLedger s'
reserve-IsLedger id anchor n s {s'} h e =
    let (a, ea, fresh, p, q, after) = reserve_lem id anchor n s (IsLedger-Fits s h) e in
    subst IsLedger (sym after) (reserved-IsLedger id anchor n s h a ea fresh p q)
