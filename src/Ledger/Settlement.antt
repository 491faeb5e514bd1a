-- ===== src/Ledger/Settlement.antt =====
-- Proofs about Settle of internal/ledger/ledger.go.
use scp_harness.Base.{
  ℤ, pos, ◌+ℤ◌, ◌-ℤ◌, ◌≤ℤ◌, int_laws, max_int64, ◌≡◌, refl, ◌≢◌, none, some, Map, lookup, insert,
  erase, Every, Every-lookup, Every-map, insert-Every, erase-Every, update-Every, lookup-insert,
  arith, Option-cases, inl, inr, Bool, insert-IsMap, erase-IsMap, ◌==◌, if◌then◌else◌, ok, add64,
  sub64, add64_within, sub64_within, IsInt64,
}
use scp_harness.Model.{Key, State, Account, Lease, Task}
use scp_harness.Ledger.Transfer.{settle, charge_of}
use scp_harness.Ledger.Totals.{balance, leased, share, lease_share, total-insert, total-erase}
use scp_harness.Ledger.Invariant.{AccountOk, LeaseOk, TaskOk, IsLedger}
use scp_harness.Ledger.Bounds.{account_bound, lease_bound}
use scp_harness.Ledger.Preservation.{owner_of-insert, anchored_still}

-- A settlement gives back to the account what of the lease is not charged, and charges the task.
abbrev pub credited : ℤ → Lease → Account → Account
credited charge l a = record a { remaining = a.remaining +ℤ (l.amount -ℤ charge) }

abbrev pub charged : ℤ → Task → Task
charged charge t = record t {
  resources = record t.resources { charged = t.resources.charged +ℤ charge };
}

abbrev pub settled : Key → ℤ → Account → Task → Lease → State → State
settled id charge a t l s = record s {
  accounts = insert l.anchor (credited charge l a) s.accounts;
  tasks = insert l.task_id (charged charge t) s.tasks;
  leases = erase id s.leases;
}

-- A charge is between 0 and the lease: all of it if the time is uncertain, else the time.
pub charge_of_bounds :
    (elapsed : ℤ) (uncertain : Bool) (l : Lease)
    → pos 0 ≤ℤ elapsed
    → pos 1 ≤ℤ l.amount
    → (pos 0 ≤ℤ charge_of elapsed uncertain l) × (charge_of elapsed uncertain l ≤ℤ l.amount)
charge_of_bounds elapsed uncertain l p q = ground arith

-- With its lease, account and task found, `settle` is `settled`: nothing wraps around.
settle_found :
    (id : Key) (elapsed : ℤ) (uncertain : Bool) (s : State) (l : Lease) (a : Account) (t : Task)
    → lookup id s.leases ≡ some l
    → lookup l.anchor s.accounts ≡ some a
    → lookup l.task_id s.tasks ≡ some t
    → pos 0 ≤ℤ elapsed
    → pos 1 ≤ℤ l.amount
    → pos 0 ≤ℤ a.remaining
    → pos 0 ≤ℤ t.resources.charged
    → a.remaining +ℤ l.amount ≤ℤ max_int64
    → t.resources.charged +ℤ l.amount ≤ℤ max_int64
    → settle id elapsed uncertain s ≡ ok (settled id (charge_of elapsed uncertain l) a t l s)
unfolding settle
settle_found id elapsed uncertain s l a t el ea et p q ra rt ba bt =
    let c : ℤ = charge_of elapsed uncertain l in
    let (lo, hi) = charge_of_bounds elapsed uncertain l p q in
    let fits : IsInt64 l.amount = grind int_laws in
    let back : sub64 l.amount c ≡ l.amount -ℤ c = sub64_within l.amount c fits lo hi in
    let credit : add64 a.remaining (l.amount -ℤ c) ≡ a.remaining +ℤ (l.amount -ℤ c) =
      add64_within a.remaining (l.amount -ℤ c) ra (omega int_laws) (omega int_laws) in
    let debit : add64 t.resources.charged c ≡ t.resources.charged +ℤ c =
      add64_within t.resources.charged c rt lo (omega int_laws) in
    ground (arith, back, credit, debit)

-- In a state that satisfies the invariant of the ledger, settling a lease that is there, after any
-- elapsed time of at least 0, finds the account and the task of the lease, and returns without
-- wrap-around the state in which the account has back what is not charged, the task is charged the
-- rest, and the lease is gone.
pub settle_lem :
    (id : Key) (elapsed : ℤ) (uncertain : Bool) (s : State) (l : Lease)
    → IsLedger s
    → lookup id s.leases ≡ some l
    → pos 0 ≤ℤ elapsed
    → (a : Account) × (t : Task) × (lookup l.anchor s.accounts ≡ some a)
      × (a.task_id ≡ l.task_id)
      × (lookup l.task_id s.tasks ≡ some t)
      × (settle id elapsed uncertain s ≡ ok (settled id (charge_of elapsed uncertain l) a t l s))
settle_lem id elapsed uncertain s l h el p =
    let good = Every-lookup (LeaseOk s.tasks s.accounts) id s.leases h.leases el in
    let (positive, within, (t, et, fits, room, rt)) = lease_bound s h id {l = l} el in
    elim (Option-cases (lookup l.anchor s.accounts)) [
      | inl missing ↦ absurd (ground (arith, good.anchored))
      | inr (a, ea) ↦
          let same : a.task_id ≡ l.task_id = ground (arith, good.anchored) in
          let (ra, ba, _) = account_bound s h l.anchor {a = a} ea in
          (
            a,
            t,
            ea,
            same,
            et,
            settle_found id elapsed uncertain s l a t el ea et p positive ra rt
                (grind (int_laws, same)) room,
          )
    ]

module _ (id : Key) (charge : ℤ) (a : Account) (t : Task) (l : Lease) (s : State) (h : IsLedger s)
    (el : lookup id s.leases ≡ some l) (ea : lookup l.anchor s.accounts ≡ some a)
    (et : lookup l.task_id s.tasks ≡ some t) (same : a.task_id ≡ l.task_id) (lo : pos 0 ≤ℤ charge)
    (hi : charge ≤ℤ l.amount) where
  abbrev accounts_after : Map Account
  accounts_after = insert l.anchor (credited charge l a) s.accounts

  abbrev tasks_after : Map Task
  tasks_after = insert l.task_id (charged charge t) s.tasks

  known_still : (k : Key) → lookup k s.tasks ≢ none → lookup k tasks_after ≢ none
  known_still k h e = ground (arith, lookup-insert l.task_id k (charged charge t) s.tasks)

  -- Account by account the task's balance grows by what is given back.
  balance_after :
      (k : Key)
      → balance k accounts_after
        ≡ balance k s.accounts +ℤ (if l.task_id == k then l.amount -ℤ charge else pos 0)
  balance_after k =
      grind (int_laws, total-insert (share k) l.anchor (credited charge l a) a s.accounts ea)

  leased_after :
      (k : Key)
      → leased k (erase id s.leases) +ℤ (if l.task_id == k then l.amount else pos 0)
        ≡ leased k s.leases
  leased_after k = total-erase (lease_share k) id l s.leases h.lease_map el

  settled_accounts : Every (AccountOk tasks_after) accounts_after
  settled_accounts =
      let good = Every-lookup (AccountOk s.tasks) l.anchor s.accounts h.accounts ea in
      let keep =
        Every-map (AccountOk s.tasks) (AccountOk tasks_after) s.accounts
          (λ k x before. record {
            nonneg = before.nonneg;
            known = known_still x.task_id before.known;
          })
          h.accounts in
      insert-Every (AccountOk tasks_after) l.anchor (credited charge l a) s.accounts
        (record {
          nonneg = omega (int_laws, good.nonneg);
          known = known_still a.task_id good.known;
        })
        keep

  settled_leases : Every (LeaseOk tasks_after accounts_after) (erase id s.leases)
  settled_leases = erase-Every (LeaseOk tasks_after accounts_after) id s.leases (
      Every-map (LeaseOk s.tasks accounts_after) (LeaseOk tasks_after accounts_after) s.leases
        (λ k x before. record {
          positive = before.positive;
          anchored = before.anchored;
          known = known_still x.task_id before.known;
        })
        (anchored_still s.tasks s.accounts accounts_after s.leases
          (λ j. owner_of-insert l.anchor j a (credited charge l a) s.accounts ea refl) h.leases))

  -- The task that is charged: what it was given back and charged is what the lease held.
  charged-TaskOk : TaskOk accounts_after (erase id s.leases) l.task_id (charged charge t)
  charged-TaskOk =
      let ok = Every-lookup (TaskOk s.accounts s.leases) l.task_id s.tasks h.tasks et in
      let (positive, within, _) = lease_bound s h id {l = l} el in
      record {
        charged_nonneg = omega (int_laws, ok.charged_nonneg);
        retired_nonneg = ok.retired_nonneg;
        minted_pos = ok.minted_pos;
        minted_fits = ok.minted_fits;
        conserved = grind (int_laws, ok.conserved, balance_after l.task_id, leased_after l.task_id);
        drained = λ closed. absurd (grind (int_laws, ok.drained closed));
      }

  -- Another task's accounts and leases hold what they held.
  other-TaskOk :
      (j : Key) (w : Task)
      → j ≢ l.task_id
      → TaskOk s.accounts s.leases j w
      → TaskOk accounts_after (erase id s.leases) j w
  other-TaskOk j w ne before =
      let b : balance j accounts_after ≡ balance j s.accounts = grind (int_laws, balance_after j) in
      let r : leased j (erase id s.leases) ≡ leased j s.leases = grind (int_laws, leased_after j) in
      record {
        charged_nonneg = before.charged_nonneg;
        retired_nonneg = before.retired_nonneg;
        minted_pos = before.minted_pos;
        minted_fits = before.minted_fits;
        conserved = rw (b, r) before.conserved;
        drained = rw (b, r) before.drained;
      }

  settled_tasks : Every (TaskOk accounts_after (erase id s.leases)) tasks_after
  settled_tasks =
      update-Every (TaskOk s.accounts s.leases) (TaskOk accounts_after (erase id s.leases))
        l.task_id (charged charge t) s.tasks h.task_map charged-TaskOk other-TaskOk h.tasks

  settled-IsLedger : IsLedger (settled id charge a t l s)
  settled-IsLedger = record {
    task_map = insert-IsMap l.task_id (charged charge t) s.tasks h.task_map;
    account_map = insert-IsMap l.anchor (credited charge l a) s.accounts h.account_map;
    lease_map = erase-IsMap id s.leases h.lease_map;
    accounts = settled_accounts;
    leases = settled_leases;
    tasks = settled_tasks;
  }

-- In a state that satisfies the invariant of the ledger, settling a lease that is there, after any
-- elapsed time of at least 0, succeeds, and the state that it returns satisfies the invariant.
pub settle-IsLedger :
    (id : Key) (elapsed : ℤ) (uncertain : Bool) (s : State) (l : Lease)
    → IsLedger s
    → lookup id s.leases ≡ some l
    → pos 0 ≤ℤ elapsed
    → (s' : State) × (settle id elapsed uncertain s ≡ ok s') × IsLedger s'
settle-IsLedger id elapsed uncertain s l h el p =
    let (a, t, ea, same, et, e) = settle_lem id elapsed uncertain s l h el p in
    let c : ℤ = charge_of elapsed uncertain l in
    let (positive, _, _) = lease_bound s h id {l = l} el in
    let (lo, hi) = charge_of_bounds elapsed uncertain l p positive in
    (settled id c a t l s, e, settled-IsLedger id c a t l s h el ea et same lo hi)
