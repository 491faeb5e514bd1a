-- ===== src/Core/Settling.antt =====
-- Proofs about Settle of internal/ledger/ledger.go within the operations of internal/core.
use scp_harness.Base.{
  ℤ, pos, ◌≤ℤ◌, ◌≡◌, refl, sym, ◌∙◌, subst, some, Bool, lookup, insert, erase, lookup-insert, ok,
  ok-inj, ==_iff, Yields, arith, Option-cases, inl, inr, ◌+ℤ◌, ◌-ℤ◌,
}
use scp_harness.Model.{Key, State, Task, Account, Lease}
use scp_harness.Ledger.{settle, charge_of}
use scp_harness.Ledger.Invariant.{IsLedger}
use scp_harness.Ledger.Settlement.{settle_lem, settle-IsLedger, settled, credited, charged}
use scp_harness.Core.Books.{Books, written-IsKeyed}

-- A settlement that succeeds, with the books.
pub record Settled (id : Key) (s s' : State) : Type 0 where
  pub books : Books s'
  pub attempts : s'.attempts ≡ s.attempts
  pub leases : s'.leases ≡ erase id s.leases
  pub interrupts : s'.interrupts ≡ s.interrupts
  pub cancellations : s'.cancellations ≡ s.cancellations

pub settle-guards :
    (id : Key) (elapsed : ℤ) (uncertain : Bool) (s : State) {s' : State}
    → settle id elapsed uncertain s ≡ ok s'
    → (l : Lease) × (lookup id s.leases ≡ some l) × (pos 0 ≤ℤ elapsed)
unfolding settle
settle-guards id elapsed uncertain s e = elim (Option-cases (lookup id s.leases)) [
  | inl missing ↦ absurd (ground arith)
  | inr (l, el) ↦ (l, el, ground arith)
]

pub settle-Books :
    (id : Key) (elapsed : ℤ) (uncertain : Bool) (s : State)
    → Books s
    → Yields (Settled id s) (settle id elapsed uncertain s)
settle-Books id elapsed uncertain s h s' e =
    let (l, el, p) = settle-guards id elapsed uncertain s e in
    let (a, t, ea, same, et, e1) = settle_lem id elapsed uncertain s l h.ledger el p in
    let (s2, e2, good) = settle-IsLedger id elapsed uncertain s l h.ledger el p in
    let c : ℤ = charge_of elapsed uncertain l in
    let is : s' ≡ settled id c a t l s = ok-inj (sym e ∙ e1) in
    let there : s2 ≡ settled id c a t l s = ok-inj (sym e2 ∙ e1) in
    let ledger : IsLedger (settled id c a t l s) = subst IsLedger there good in
    let t' : Task = record t {
      resources = record t.resources { charged = t.resources.charged +ℤ c };
    } in
    subst (Settled id s) (sym is) (record {
      books = record {
        ledger = ledger;
        fresh = record {
          unused = λ i later. ground (
            arith,
            h.fresh.unused i later,
            ==_iff (s.ids i) l.anchor,
            lookup-insert l.anchor (s.ids i)
                (record a { remaining = a.remaining +ℤ (l.amount -ℤ c) }) s.accounts,
          );
          distinct = h.fresh.distinct;
        };
        keyed = written-IsKeyed l.task_id t t' s.tasks et refl h.keyed;
      };
      attempts = refl;
      leases = refl;
      interrupts = refl;
      cancellations = refl;
    })

-- What a settlement does to the task and to the account of the lease.
pub record Effect (id : Key) (elapsed : ℤ) (uncertain : Bool) (s s' : State) : Type 0 where
  pub lease : Lease
  pub held : lookup id s.leases ≡ some lease
  pub account : Account
  pub anchored : lookup lease.anchor s.accounts ≡ some account
  pub task : Task
  pub owned : lookup lease.task_id s.tasks ≡ some task
  pub credits :
      s'.accounts
      ≡ insert lease.anchor (credited (charge_of elapsed uncertain lease) lease account) s.accounts
  pub charges :
      s'.tasks ≡ insert lease.task_id (charged (charge_of elapsed uncertain lease) task) s.tasks

pub settle-Effect :
    (id : Key) (elapsed : ℤ) (uncertain : Bool) (s : State)
    → Books s
    → Yields (Effect id elapsed uncertain s) (settle id elapsed uncertain s)
settle-Effect id elapsed uncertain s h s' e =
    let (l, el, p) = settle-guards id elapsed uncertain s e in
    let (a, t, ea, same, et, e1) = settle_lem id elapsed uncertain s l h.ledger el p in
    let is : settled id (charge_of elapsed uncertain l) a t l s ≡ s' = ok-inj (sym e1 ∙ e) in
    subst (Effect id elapsed uncertain s) is (record {
      lease = l;
      held = el;
      account = a;
      anchored = ea;
      task = t;
      owned = et;
      credits = refl;
      charges = refl;
    })
