-- ===== src/Ledger/Purses.antt =====
-- What internal/ledger and closeTask of internal/core/core.go promise of one task's wall time: a
-- purse, with the four ways in which it is spent. The accounts, their tree and the single leases
-- are forgotten.
use scp_harness.Base.{
  ℕ, ℤ, pos, ◌+ℤ◌, ◌-ℤ◌, ◌≤ℤ◌, int_laws, ◌≡◌, refl, ap, sym, ◌∙◌, subst, Option, none, some, Bool,
  zero, suc, lookup, ok, ok-inj, lookup-insert, Bool-cases, inl, inr, arith, ◌==◌, ==_iff, sub64,
}
use scp_harness.Model.{Key, State, Task, Account, Lease}
use scp_harness.Ledger.Transfer.{move, reserve, settle, charge_of}
use scp_harness.Ledger.Ancestry.{allocate, allocate_fuel, walk_fuel}
use scp_harness.Ledger.Totals.{
  balance, leased, share, lease_share, total-insert, total-insert_new, total-erase,
}
use scp_harness.Ledger.Invariant.{IsLedger, account-le-balance, lease-le-leased}
use scp_harness.Ledger.Bounds.{IsLedger-Fits, lease_bound}
use scp_harness.Ledger.Conservation.{move_lem, move-balance, reserve_lem}
use scp_harness.Ledger.Preservation.{move-IsLedger}
use scp_harness.Ledger.Allocation.{allocate_fuel-ok}
use scp_harness.Ledger.Settlement.{settle_lem, settled, charged, credited, charge_of_bounds}

pub record Purse : Type 0 where
  pub available : ℤ
  pub leased : ℤ
  pub charged : ℤ
  pub retired : ℤ

pub data Spend (p q : Purse) : Type 0 where
  idles : q ≡ p → Spend p q
  leases :
      (n : ℤ)
      → pos 1 ≤ℤ n
      → n ≤ℤ p.available
      → q ≡ record p { available = p.available -ℤ n; leased = p.leased +ℤ n }
      → Spend p q
  settles :
      (n c : ℤ)
      → pos 0 ≤ℤ c
      → c ≤ℤ n
      → n ≤ℤ p.leased
      → q ≡ record p {
        available = p.available +ℤ (n -ℤ c);
        leased = p.leased -ℤ n;
        charged = p.charged +ℤ c;
      }
      → Spend p q
  retires :
      p.leased ≡ pos 0
      → q ≡ record p { available = pos 0; retired = p.retired +ℤ p.available }
      → Spend p q

-- What the record of a task says that it was charged, and has retired.
abbrev pub charged_of : Option Task → ℤ
charged_of none = pos 0
charged_of (some t) = t.resources.charged

abbrev pub retired_of : Option Task → ℤ
retired_of none = pos 0
retired_of (some t) = t.resources.retired

-- The purse of a task, in a state.
abbrev pub purse : Key → State → Purse
purse t s = record {
  available = balance t s.accounts;
  leased = leased t s.leases;
  charged = charged_of (lookup t s.tasks);
  retired = retired_of (lookup t s.tasks);
}

pub Purse-eq :
    (p q : Purse)
    → p.available ≡ q.available
    → p.leased ≡ q.leased
    → p.charged ≡ q.charged
    → p.retired ≡ q.retired
    → p ≡ q
Purse-eq p q a b c d = cc

-- A transfer within a task leaves every purse alone.
move-purse :
    (from to : Key) (n : ℤ) (s : State) {s' : State} (t : Key)
    → IsLedger s
    → move from to n s ≡ ok s'
    → purse t s' ≡ purse t s
move-purse from to n s {s'} t h e =
    let f = IsLedger-Fits s h in
    let (a, b, ea, eb, m) = move_lem from to n s f e in
    let tasks : s'.tasks ≡ s.tasks = ap (λ (x : State). x.tasks) m.after in
    Purse-eq (purse t s') (purse t s) (move-balance from to n s t f e)
      (ap (λ (x : State). leased t x.leases) m.after) (ap (λ m. charged_of (lookup t m)) tasks)
      (ap (λ m. retired_of (lookup t m)) tasks)

pub move-Spend :
    (from to : Key) (n : ℤ) (s : State) {s' : State} (t : Key)
    → IsLedger s
    → move from to n s ≡ ok s'
    → Spend (purse t s) (purse t s')
move-Spend from to n s t h e = Spend.idles (move-purse from to n s t h e)

-- An allocation is a chain of transfers.
allocate_fuel-purse :
    (fuel : ℕ) (to : Key) (n : ℤ) (s : State) {s' : State} (t : Key)
    → IsLedger s
    → allocate_fuel fuel to n s ≡ ok s'
    → (purse t s' ≡ purse t s) × IsLedger s'
allocate_fuel-purse zero to n s t h e = absurd (unfold allocate_fuel in ground arith)
allocate_fuel-purse (suc fuel) to n s {s'} t h e =
    let (a, p, mid, ea, below, ep, first, last) = allocate_fuel-ok fuel to n s e in
    let (same, h') : (purse t mid ≡ purse t s) × IsLedger mid = elim first [
      | inl unmoved ↦ (sym (ap (purse t) unmoved), subst IsLedger unmoved h)
      | inr above ↦ allocate_fuel-purse fuel a.parent (sub64 n p.remaining) s t h above
    ] in
    (move-purse a.parent to n mid t h' last ∙ same, move-IsLedger a.parent to n mid h' last)

pub allocate-Spend :
    (to : Key) (n : ℤ) (s : State) {s' : State} (t : Key)
    → IsLedger s
    → allocate to n s ≡ ok s'
    → Spend (purse t s) (purse t s')
unfolding allocate
allocate-Spend to n s t h e =
    Spend.idles (allocate_fuel-purse (walk_fuel s.accounts) to n s t h e).0

-- A reservation leases from the purse of its task.
pub reserve-Spend :
    (id anchor : Key) (n : ℤ) (s : State) {s' : State} (t : Key)
    → IsLedger s
    → reserve id anchor n s ≡ ok s'
    → Spend (purse t s) (purse t s')
reserve-Spend id anchor n s {s'} t h e =
    let (a, ea, fresh, positive, covered, after) =
      reserve_lem id anchor n s (IsLedger-Fits s h) e in
    let l : Lease = record { task_id = a.task_id; anchor = anchor; amount = n } in
    let a' : Account = record a { remaining = a.remaining -ℤ n } in
    let within = account-le-balance s.tasks anchor {a = a} s.accounts h.accounts ea in
    let b = total-insert (share t) anchor a' a s.accounts ea in
    let r = total-insert_new (lease_share t) id l s.leases fresh in
    subst (λ x. Spend (purse t s) (purse t x)) (sym after)
      (elim (Bool-cases (a.task_id == t)) [
        | inl own ↦
            Spend.leases n positive (grind (int_laws, within, covered, ==_iff a.task_id t))
              (Purse-eq _ _ (grind (int_laws, b)) (grind (int_laws, r)) refl refl)
        | inr other ↦
            Spend.idles (Purse-eq _ _ (grind (int_laws, b)) (grind (int_laws, r)) refl refl)
      ])

-- A settlement gives back to the purse of its task what it does not charge.
pub settle-Spend :
    (id : Key) (elapsed : ℤ) (uncertain : Bool) (s : State) (l : Lease) {s' : State} (t : Key)
    → IsLedger s
    → lookup id s.leases ≡ some l
    → pos 0 ≤ℤ elapsed
    → settle id elapsed uncertain s ≡ ok s'
    → Spend (purse t s) (purse t s')
settle-Spend id elapsed uncertain s l {s'} t h el p e =
    let (a, w, ea, same, ew, e') = settle_lem id elapsed uncertain s l h el p in
    let c : ℤ = charge_of elapsed uncertain l in
    let (positive, _, _) = lease_bound s h id {l = l} el in
    let (lo, hi) = charge_of_bounds elapsed uncertain l p positive in
    let is : s' ≡ settled id c a w l s = ok-inj (sym e ∙ e') in
    let within = lease-le-leased s.tasks s.accounts id {l = l} s.leases h.leases el in
    let b = total-insert (share t) l.anchor (credited c l a) a s.accounts ea in
    let r = total-erase (lease_share t) id l s.leases h.lease_map el in
    let found = lookup-insert l.task_id t (charged c w) s.tasks in
    subst (λ x. Spend (purse t s) (purse t x)) (sym is)
      (elim (Bool-cases (l.task_id == t)) [
        | inl own ↦ Spend.settles l.amount c lo hi (grind (int_laws, within, ==_iff l.task_id t)) (
            Purse-eq _ _ (grind (int_laws, b, same)) (grind (int_laws, r))
              (grind (int_laws, found, ew, ==_iff l.task_id t))
              (grind (int_laws, found, ew, ==_iff l.task_id t)))
        | inr other ↦ Spend.idles (
            Purse-eq _ _ (grind (int_laws, b, same)) (grind (int_laws, r))
              (grind (int_laws, found, ==_iff l.task_id t, ==_iff t l.task_id))
              (grind (int_laws, found, ==_iff l.task_id t, ==_iff t l.task_id)))
      ])
