-- ===== src/Core/Refinement.antt =====
-- The calls on the ledger that internal/core makes, and that each of them is a step of the purses of
-- Ledger/Purses.
use scp_harness.Base.{
  ℤ, pos, int_laws, ◌≡◌, refl, sym, ◌∙◌, subst, Bool, false, not, some, lookup, insert, any_entry,
  map_values, lookup-insert, Result, ok, ok-inj, Code, ◌==◌, ==_iff, fail_if, fail_if-ok, or_fail,
  or_fail-ok, deref, Yields, Yields-ok, Yields-bind, Bool-cases, inl, inr, ◌&&◌,
}
use scp_harness.Model.{Key, Time, State, Task, Change, ChangeState, is_closed, terminal, set_change}
use scp_harness.Ledger.{move, allocate, reserve, settle}
use scp_harness.Ledger.Invariant.{IsLedger}
use scp_harness.Ledger.Preservation.{move-IsLedger, reserve-IsLedger}
use scp_harness.Ledger.Allocation.{allocate-IsLedger}
use scp_harness.Ledger.Settlement.{settle-IsLedger}
use scp_harness.Ledger.Purses.{
  Spend, Purse-eq, purse, move-Spend, allocate-Spend, reserve-Spend, settle-Spend,
}
use scp_harness.Core.Common.{set_changes}
use scp_harness.Core.Claims.{close_task, task_remaining, emptied, retire}
use scp_harness.Core.Closings.{
  balance-emptied, leased-none, close_task-drained, retired_sum, set_changes-IsLedger,
}
use scp_harness.Core.Serving.{Yields-after}
use scp_harness.Core.Settling.{settle-guards}
use scp_harness.Ledger.Frame.{IsLedger-frame}

set_changes-purse :
    (p : Change → Bool) (f : Time → Change → Change) (s : State) (t : Key)
    → purse t (set_changes p f s) ≡ purse t s
unfolding set_changes
set_changes-purse p f s t = refl

-- The task that is closed retires what its purse holds; the other purses are left alone.
drained-Spend :
    (id : Key) (w : Task) (s : State) (t : Key)
    → IsLedger s
    → lookup id s.tasks ≡ some w
    → any_entry (λ _ l. l.task_id == id) s.leases ≡ false
    → Spend (purse t s) (
        purse t (record s {
          accounts = map_values (λ _ a. emptied id a) s.accounts;
          tasks = insert id (retire (task_remaining id s.accounts (pos 0)) w) s.tasks;
        }))
drained-Spend id w s t h e free =
    let n : ℤ = task_remaining id s.accounts (pos 0) in
    let sum = retired_sum id w s h e free in
    let none_leased = leased-none id s.leases free in
    let b = balance-emptied id t s.accounts in
    let found = lookup-insert id t (retire n w) s.tasks in
    elim (Bool-cases (t == id)) [
      | inl own ↦
          let is : t ≡ id = (==_iff t id).0 own in
          Spend.retires (rw is none_leased) (
            Purse-eq _ _ (grind (int_laws, b)) refl (grind (int_laws, found, e))
              (grind (int_laws, found, e, sum)))
      | inr other ↦ Spend.idles (
          Purse-eq _ _ (grind (int_laws, b)) refl (grind (int_laws, found))
            (grind (int_laws, found)))
    ]

pub close_task-Spend :
    (id : Key) (s : State)
    → IsLedger s
    → Yields (λ s'. IsLedger s' × ((t : Key) → Spend (purse t s) (purse t s'))) (close_task id s)
unfolding close_task
close_task-Spend id s h =
    let P : State → Type 0 = λ s'. IsLedger s' × ((t : Key) → Spend (purse t s) (purse t s')) in
    Yields-bind P (or_fail (lookup id s.tasks) Code.not_found) _ λ w ew.
      let found = or_fail-ok (lookup id s.tasks) Code.not_found ew in
      Yields-after P (fail_if (is_closed w.status) Code.invalid_state) _ λ u.
        Yields-bind P (fail_if (any_entry (λ _ l. l.task_id == id) s.leases) Code.core_inconsistent)
          _
          λ v ev.
            let free = fail_if-ok (any_entry (λ _ l. l.task_id == id) s.leases) _ ev in
            let closed : State = record s {
              accounts = map_values (λ _ a. emptied id a) s.accounts;
              tasks = insert id (retire (task_remaining id s.accounts (pos 0)) w) s.tasks;
            } in
            let paused : State =
              set_changes (λ ch. (ch.task_id == id) && not (terminal ch))
                (λ now ch. set_change ch.stage ChangeState.paused "TASK_CLOSED" now ch) closed in
            let ledger : IsLedger paused =
              set_changes-IsLedger _ _ closed (close_task-drained id w s h found free) in
            Yields-after P (deref (lookup id paused.exploration)) _ λ x. Yields-ok P _ (
              IsLedger-frame paused _ refl refl refl ledger,
              λ t.
                  subst (λ q. Spend (purse t s) q) (sym (set_changes-purse _ _ closed t))
                    (drained-Spend id w s t h found free),
            )

-- The calls, by the operation that each makes on the ledger.
pub data Call : Type 0 where
  moves : Key → Key → ℤ → Call
  allocates : Key → ℤ → Call
  reserves : Key → Key → ℤ → Call
  settles : Key → ℤ → Bool → Call
  closes : Key → Call

abbrev pub run_call : Call → State → Result State
run_call (Call.moves from to n) s = move from to n s
run_call (Call.allocates to n) s = allocate to n s
run_call (Call.reserves id anchor n) s = reserve id anchor n s
run_call (Call.settles id elapsed uncertain) s = settle id elapsed uncertain s
run_call (Call.closes id) s = close_task id s

-- A step of the detailed state is, for every task, a step of its purse.
pub record Refines (s s' : State) : Type 0 where
  pub ledger : IsLedger s'
  pub spend : (t : Key) → Spend (purse t s) (purse t s')

-- The ledger refines the purses of its tasks: when Move, Allocate, Reserve, Settle or closeTask
-- succeeds on a state that satisfies the invariant of the ledger, the invariant holds afterwards,
-- and for each task what is available, leased, charged and retired either stays as it is or makes
-- one step of the abstract purse - a lease of a positive amount that is available, a settlement
-- that charges a part of what is leased and gives back the rest, or the retirement of all that is
-- available while nothing is leased.
pub run_call-Refines :
    (c : Call) (s : State) {s' : State} → IsLedger s → run_call c s ≡ ok s' → Refines s s'
run_call-Refines (Call.moves from to n) s h e = record {
  ledger = move-IsLedger from to n s h e;
  spend = λ t. move-Spend from to n s t h e;
}
run_call-Refines (Call.allocates to n) s h e = record {
  ledger = allocate-IsLedger to n s h e;
  spend = λ t. allocate-Spend to n s t h e;
}
run_call-Refines (Call.reserves id anchor n) s h e = record {
  ledger = reserve-IsLedger id anchor n s h e;
  spend = λ t. reserve-Spend id anchor n s t h e;
}
run_call-Refines (Call.settles id elapsed uncertain) s {s'} h e =
    let (l, el, p) = settle-guards id elapsed uncertain s e in
    let (s2, e2, good) = settle-IsLedger id elapsed uncertain s l h el p in
    record {
      ledger = subst IsLedger (ok-inj (sym e2 ∙ e)) good;
      spend = λ t. settle-Spend id elapsed uncertain s l t h el p e;
    }
run_call-Refines (Call.closes id) s {s'} h e =
    let (good, spend) = close_task-Spend id s h s' e in record { ledger = good; spend = spend }
