-- ===== src/Core/Closings.antt =====
-- Proofs about closeTask and addClaim of internal/core/core.go, and the invariant of the ledger.
use scp_harness.Base.{
  Map, ◌≢◌, ℤ, pos, ◌+ℤ◌, ◌≤ℤ◌, int_laws, max_int64, ◌≡◌, refl, Bool, false, none, some, [], ◌∷◌,
  lookup, insert, any_entry, map_values, Every, Every-lookup, Every-map, update-Every,
  lookup-insert, insert-IsMap, map_values-IsMap, lookup-map_values, arith, ◌==◌, ==_iff,
  if◌then◌else◌, add64, add64_within, ◌∙◌,
}
use scp_harness.Model.{Key, Time, State, Task, Account, Lease, Change}
use scp_harness.Ledger.Totals.{total, balance, leased}
use scp_harness.Ledger.Invariant.{
  AccountOk, LeaseOk, TaskOk, IsLedger, owner_of, balance-nonneg, leased-nonneg,
}
use scp_harness.Ledger.Frame.{IsLedger-frame}
use scp_harness.Core.Common.{set_changes}
use scp_harness.Core.Claims.{task_remaining, emptied, retire}

-- The sum that closeTask takes is the balance of the task, which fits.
task_remaining-balance :
    (ts : Map Task) (id : Key) (m : Map Account) (n : ℤ)
    → Every (AccountOk ts) m
    → pos 0 ≤ℤ n
    → n +ℤ balance id m ≤ℤ max_int64
    → task_remaining id m n ≡ n +ℤ balance id m
unfolding task_remaining total
task_remaining-balance ts id [] n h p fits = grind int_laws
task_remaining-balance ts id ((k, a) ∷ m) n h p fits =
    let more = balance-nonneg ts id m h.1 in
    grind (
      int_laws,
      h.0.nonneg,
      more,
      add64_within n a.remaining,
      task_remaining-balance ts id m n h.1,
      task_remaining-balance ts id m (n +ℤ a.remaining) h.1,
    )

-- The accounts of the task hold nothing any more, the others what they held.
pub balance-emptied :
    (id j : Key) (m : Map Account)
    → balance j (map_values (λ _ a. emptied id a) m) ≡ (if j == id then pos 0 else balance j m)
unfolding map_values total
balance-emptied id j [] = ground arith
balance-emptied id j ((k, a) ∷ m) =
    grind (int_laws, balance-emptied id j m, ==_iff j id, ==_iff a.task_id id)

owner_of-emptied :
    (id k : Key) (m : Map Account) → owner_of k (map_values (λ _ a. emptied id a) m) ≡ owner_of k m
owner_of-emptied id k m = ground (arith, lookup-map_values (λ _ a. emptied id a) k m)

emptied-Every :
    (id : Key) (ts : Map Task) (m : Map Account)
    → Every (AccountOk ts) m
    → Every (AccountOk ts) (map_values (λ _ a. emptied id a) m)
unfolding map_values
emptied-Every id ts [] h = tt
emptied-Every id ts ((k, a) ∷ m) h = (
  record { nonneg = grind (int_laws, h.0.nonneg); known = ground (arith, h.0.known) },
  emptied-Every id ts m h.1,
)

-- Without a lease of the task nothing is leased to it.
pub leased-none :
    (id : Key) (m : Map Lease) → any_entry (λ _ l. l.task_id == id) m ≡ false → leased id m ≡ pos 0
unfolding any_entry total
leased-none id [] h = refl
leased-none id ((k, l) ∷ m) h = grind (int_laws, leased-none id m)

known_in :
    (id j : Key) (t : Task) (ts : Map Task) → lookup j ts ≢ none → lookup j (insert id t ts) ≢ none
known_in id j t ts h = ground (arith, lookup-insert id j t ts)

module _ (id : Key) (t : Task) (s : State) (h : IsLedger s) (et : lookup id s.tasks ≡ some t)
    (free : any_entry (λ _ l. l.task_id == id) s.leases ≡ false) where
  abbrev n : ℤ
  n = balance id s.accounts

  abbrev drained : State
  drained = record s {
    accounts = map_values (λ _ a. emptied id a) s.accounts;
    tasks = insert id (retire n t) s.tasks;
  }

  task_ok : TaskOk s.accounts s.leases id t
  task_ok = Every-lookup (TaskOk s.accounts s.leases) id s.tasks h.tasks et

  retired_fits : add64 t.resources.retired n ≡ t.resources.retired +ℤ n
  retired_fits =
      let nothing : leased id s.leases ≡ pos 0 = leased-none id s.leases free in
      let held : pos 0 ≤ℤ n = balance-nonneg s.tasks id s.accounts h.accounts in
      add64_within t.resources.retired n task_ok.retired_nonneg held
        (grind (int_laws, task_ok.conserved, task_ok.minted_fits, task_ok.charged_nonneg, nothing))

  -- What is retired is what the task still held.
  retired_ok : TaskOk drained.accounts s.leases id (retire n t)
  retired_ok =
      let nothing : leased id s.leases ≡ pos 0 = leased-none id s.leases free in
      let emptied : balance id drained.accounts ≡ pos 0 =
        ground (arith, balance-emptied id id s.accounts) in
      let sum : add64 t.resources.retired n ≡ t.resources.retired +ℤ n = retired_fits in
      record {
        charged_nonneg = task_ok.charged_nonneg;
        retired_nonneg = grind (
          int_laws,
          sum,
          task_ok.retired_nonneg,
          balance-nonneg s.tasks id s.accounts h.accounts,
        );
        minted_pos = task_ok.minted_pos;
        minted_fits = task_ok.minted_fits;
        conserved = grind (int_laws, sum, emptied, nothing, task_ok.conserved);
        drained = λ closed. (emptied, nothing);
      }

  other_ok :
      (j : Key) (w : Task)
      → j ≢ id
      → TaskOk s.accounts s.leases j w
      → TaskOk drained.accounts s.leases j w
  other_ok j w ne x =
      let same : balance j drained.accounts ≡ balance j s.accounts =
        ground (arith, balance-emptied id j s.accounts, ==_iff j id) in
      record {
        charged_nonneg = x.charged_nonneg;
        retired_nonneg = x.retired_nonneg;
        minted_pos = x.minted_pos;
        minted_fits = x.minted_fits;
        conserved = rw same x.conserved;
        drained = rw same x.drained;
      }

  drained-IsLedger : IsLedger drained
  drained-IsLedger = record {
    task_map = insert-IsMap id (retire n t) s.tasks h.task_map;
    account_map = map_values-IsMap (λ _ a. emptied id a) s.accounts h.account_map;
    lease_map = h.lease_map;
    accounts =
        Every-map (AccountOk s.tasks) (AccountOk drained.tasks) drained.accounts
          (λ j a x. record {
            nonneg = x.nonneg;
            known = known_in id a.task_id (retire n t) s.tasks x.known;
          })
          (emptied-Every id s.tasks s.accounts h.accounts);
    leases =
        Every-map (LeaseOk s.tasks s.accounts) (LeaseOk drained.tasks drained.accounts) s.leases
          (λ j l x. record {
            positive = x.positive;
            anchored = owner_of-emptied id l.anchor s.accounts ∙ x.anchored;
            known = known_in id l.task_id (retire n t) s.tasks x.known;
          })
          h.leases;
    tasks =
        update-Every (TaskOk s.accounts s.leases) (TaskOk drained.accounts s.leases) id (retire n t)
          s.tasks h.task_map retired_ok other_ok h.tasks;
  }

-- In a state that satisfies the invariant, the sum fits.
pub balance_sum :
    (id : Key) (t : Task) (s : State)
    → IsLedger s
    → lookup id s.tasks ≡ some t
    → task_remaining id s.accounts (pos 0) ≡ balance id s.accounts
balance_sum id t s h et =
    let x = Every-lookup (TaskOk s.accounts s.leases) id s.tasks h.tasks et in
    let free = leased-nonneg s.tasks s.accounts id s.leases h.leases in
    let sum =
      task_remaining-balance s.tasks id s.accounts (pos 0) h.accounts (omega arith)
        (grind (int_laws, x.conserved, x.minted_fits, x.charged_nonneg, x.retired_nonneg, free)) in
    grind (int_laws, sum)

-- closeTask retires what the task holds, and the books balance as before.
pub close_task-drained :
    (id : Key) (t : Task) (s : State)
    → IsLedger s
    → lookup id s.tasks ≡ some t
    → any_entry (λ _ l. l.task_id == id) s.leases ≡ false
    → IsLedger (record s {
      accounts = map_values (λ _ a. emptied id a) s.accounts;
      tasks = insert id (retire (task_remaining id s.accounts (pos 0)) t) s.tasks;
    })
close_task-drained id t s h found free =
    rw (balance_sum id t s h found) (drained-IsLedger id t s h found free)

-- What is retired fits.
pub retired_sum :
    (id : Key) (t : Task) (s : State)
    → IsLedger s
    → lookup id s.tasks ≡ some t
    → any_entry (λ _ l. l.task_id == id) s.leases ≡ false
    → add64 t.resources.retired (task_remaining id s.accounts (pos 0))
      ≡ t.resources.retired +ℤ balance id s.accounts
retired_sum id t s h found free = rw (balance_sum id t s h found) (retired_fits id t s h found free)

pub set_changes-IsLedger :
    (p : Change → Bool) (f : Time → Change → Change) (s : State)
    → IsLedger s
    → IsLedger (set_changes p f s)
unfolding set_changes
set_changes-IsLedger p f s h = IsLedger-frame s (set_changes p f s) refl refl refl h
