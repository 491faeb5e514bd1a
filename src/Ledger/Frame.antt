-- ===== src/Ledger/Frame.antt =====
-- What of a state the invariant of the ledger reads, and the updates beside internal/ledger.
use scp_harness.Base.{
  ◌+◌, pos, ◌+ℤ◌, ◌≤ℤ◌, int_laws, ◌≡◌, refl, ap, sym, ◌∙◌, subst, ◌≢◌, none, some, Map, lookup,
  insert, Every, Every-lookup, Every-map, insert-Every, lookup-insert, insert-IsMap, arith, ◌==◌,
  ==_iff, Option-cases, Bool-cases, inl, inr, IsMap, max_int64, add64,
}
use scp_harness.Model.{Key, State, Account, Lease, Task, Resources, touch, now}
use scp_harness.Ledger.Totals.{balance, leased, total-insert_new, share}
use scp_harness.Ledger.Invariant.{AccountOk, LeaseOk, TaskOk, IsLedger, owner_of}

-- The invariant reads the tasks, the accounts and the leases, and nothing else.
pub IsLedger-frame :
    (s s' : State)
    → s'.tasks ≡ s.tasks
    → s'.accounts ≡ s.accounts
    → s'.leases ≡ s.leases
    → IsLedger s
    → IsLedger s'
IsLedger-frame s s' et ea el h = record {
  task_map = subst IsMap (sym et) h.task_map;
  account_map = subst IsMap (sym ea) h.account_map;
  lease_map = subst IsMap (sym el) h.lease_map;
  accounts =
      subst (λ m. Every (AccountOk s'.tasks) m) (sym ea)
        (subst (λ ts. Every (AccountOk ts) s.accounts) (sym et) h.accounts);
  leases =
      subst (λ m. Every (LeaseOk s'.tasks s'.accounts) m) (sym el)
        (subst (λ m. Every (LeaseOk s'.tasks m) s.leases) (sym ea)
          (subst (λ ts. Every (LeaseOk ts s.accounts) s.leases) (sym et) h.leases));
  tasks =
      subst (λ m. Every (TaskOk s'.accounts s'.leases) m) (sym et)
        (subst (λ m. Every (TaskOk m s'.leases) s.tasks) (sym ea)
          (subst (λ m. Every (TaskOk s.accounts m) s.tasks) (sym el) h.tasks));
}

-- A task that is written over is still known.
known_still :
    (k j : Key) (t : Task) (ts : Map Task) → lookup j ts ≢ none → lookup j (insert k t ts) ≢ none
known_still k j t ts h e = ground (arith, lookup-insert k j t ts)

pub accounts_known :
    (k : Key) (t : Task) (ts : Map Task) (m : Map Account)
    → Every (AccountOk ts) m
    → Every (AccountOk (insert k t ts)) m
accounts_known k t ts m = λ h.
    Every-map (AccountOk ts) (AccountOk (insert k t ts)) m
      (λ j a x. record { nonneg = x.nonneg; known = known_still k a.task_id t ts x.known }) h

pub leases_known :
    (k : Key) (t : Task) (ts : Map Task) (m : Map Account) (ls : Map Lease)
    → Every (LeaseOk ts m) ls
    → Every (LeaseOk (insert k t ts) m) ls
leases_known k t ts m ls = λ h.
    Every-map (LeaseOk ts m) (LeaseOk (insert k t ts) m) ls
      (λ j l x. record {
        positive = x.positive;
        anchored = x.anchored;
        known = known_still k l.task_id t ts x.known;
      })
      h

-- A task may be written over by one that is accounted for, in the same accounts and leases.
pub task_written :
    (k : Key) (t : Task) (s : State)
    → IsLedger s
    → TaskOk s.accounts s.leases k t
    → IsLedger (record s { tasks = insert k t s.tasks })
task_written k t s h good = record {
  task_map = insert-IsMap k t s.tasks h.task_map;
  account_map = h.account_map;
  lease_map = h.lease_map;
  accounts = accounts_known k t s.tasks s.accounts h.accounts;
  leases = leases_known k t s.tasks s.accounts s.leases h.leases;
  tasks = insert-Every (TaskOk s.accounts s.leases) k t s.tasks good h.tasks;
}

-- Such a one is any that has the same resources and the same status.
pub TaskOk-same :
    (k : Key) (t t' : Task) (m : Map Account) (ls : Map Lease)
    → t'.resources ≡ t.resources
    → t'.status ≡ t.status
    → TaskOk m ls k t
    → TaskOk m ls k t'
TaskOk-same k t t' m ls er es x = record {
  charged_nonneg = subst (λ (r : Resources). pos 0 ≤ℤ r.charged) (sym er) x.charged_nonneg;
  retired_nonneg = subst (λ (r : Resources). pos 0 ≤ℤ r.retired) (sym er) x.retired_nonneg;
  minted_pos = subst (λ (r : Resources). pos 1 ≤ℤ r.minted) (sym er) x.minted_pos;
  minted_fits = subst (λ (r : Resources). r.minted ≤ℤ max_int64) (sym er) x.minted_fits;
  conserved =
      subst (λ (r : Resources). balance k m +ℤ leased k ls +ℤ r.charged +ℤ r.retired ≡ r.minted)
        (sym er) x.conserved;
  drained = λ closed. x.drained (sym es ∙ closed);
}

untouched : (k : Key) (s : State) → lookup k s.tasks ≡ none → touch k s ≡ s
unfolding touch
untouched k s e = rw (touch, e) refl

touched :
    (k : Key) (s : State) {t : Task}
    → lookup k s.tasks ≡ some t
    → touch k s ≡ record s {
      tasks = insert k (record t { revision = add64 t.revision (pos 1); updated = now s }) s.tasks;
      draws = s.draws + 1;
    }
unfolding touch
touched k s e = rw (touch, e) refl

-- Touch keeps the invariant.
pub touch-IsLedger : (k : Key) (s : State) → IsLedger s → IsLedger (touch k s)
touch-IsLedger k s h = elim (Option-cases (lookup k s.tasks)) [
  | inl missing ↦ subst IsLedger (sym (untouched k s missing)) h
  | inr (t, e) ↦
      let old : TaskOk s.accounts s.leases k t =
        Every-lookup (TaskOk s.accounts s.leases) k s.tasks h.tasks e in
      let t' : Task = record t { revision = add64 t.revision (pos 1); updated = now s } in
      let written : IsLedger (record s { tasks = insert k t' s.tasks }) =
        task_written k t' s h (TaskOk-same k t t' s.accounts s.leases refl refl old) in
      IsLedger-frame (record s { tasks = insert k t' s.tasks }) (touch k s)
        (ap (λ (x : State). x.tasks) (touched k s e))
        (ap (λ (x : State). x.accounts) (touched k s e))
        (ap (λ (x : State). x.leases) (touched k s e)) written
]

-- The owner of an account that is there stays where another is added.
owner_of-new :
    (k j : Key) (a : Account) (m : Map Account) {t : Key}
    → lookup k m ≡ none
    → owner_of j m ≡ some t
    → owner_of j (insert k a m) ≡ some t
owner_of-new k j a m {t} fresh e = elim (Bool-cases (j == k)) [
  | inl here ↦ absurd (ground (arith, ==_iff j k))
  | inr other ↦ ground (arith, lookup-insert k j a m)
]

-- A new account that holds nothing, of a task that is there, keeps the invariant.
pub account_added :
    (k : Key) (a : Account) (s : State)
    → IsLedger s
    → lookup k s.accounts ≡ none
    → a.remaining ≡ pos 0
    → lookup a.task_id s.tasks ≢ none
    → IsLedger (record s { accounts = insert k a s.accounts })
account_added k a s h fresh empty known =
    let m : Map Account = insert k a s.accounts in
    let same : (t : Key) → balance t m ≡ balance t s.accounts =
      λ t. grind (int_laws, total-insert_new (share t) k a s.accounts fresh) in
    record {
      task_map = h.task_map;
      account_map = insert-IsMap k a s.accounts h.account_map;
      lease_map = h.lease_map;
      accounts =
          insert-Every (AccountOk s.tasks) k a s.accounts
            (record { nonneg = subst (λ x. pos 0 ≤ℤ x) (sym empty) (omega arith); known = known })
            h.accounts;
      leases =
          Every-map (LeaseOk s.tasks s.accounts) (LeaseOk s.tasks m) s.leases
            (λ j l x. record {
              positive = x.positive;
              anchored = owner_of-new k l.anchor a s.accounts fresh x.anchored;
              known = x.known;
            })
            h.leases;
      tasks =
          Every-map (TaskOk s.accounts s.leases) (TaskOk m s.leases) s.tasks
            (λ j t x. record {
              charged_nonneg = x.charged_nonneg;
              retired_nonneg = x.retired_nonneg;
              minted_pos = x.minted_pos;
              minted_fits = x.minted_fits;
              conserved = rw (same j) x.conserved;
              drained = rw (same j) x.drained;
            })
            h.tasks;
    }
