-- ===== src/Ledger/Acceptance.antt =====
-- Proofs about Refresh of internal/ledger/ledger.go on states that satisfy the invariant.
use scp_harness.Base.{
  pos, sym, subst, ◌+ℤ◌, ◌≤ℤ◌, int_laws, max_int64, ◌≡◌, ◌∙◌, ◌≢◌, none, some, Map, lookup,
  Every-lookup, Every-map, Every-of_lookup, arith, Option-cases, inl, inr, true, eq_ℤ-refl, ok,
  all_entries, all_entries-Every, map_values, lookup-map_values, map_values-IsMap, IsMap,
}
use mathlib.Core.Option
use scp_harness.Model.{Key, State, Task}
use scp_harness.Ledger.Transfer.{add}
use scp_harness.Ledger.Refresh.{
  gather_accounts, reset_task, accounted, balanced, settled_task, refresh, mirror_accounts,
}
use scp_harness.Ledger.Totals.{balance, leased}
use scp_harness.Ledger.Conservation.{add_total}
use scp_harness.Ledger.Invariant.{AccountOk, LeaseOk, TaskOk, IsLedger}
use scp_harness.Ledger.Bounds.{task_bound}
use scp_harness.Ledger.Soundness.{projected, gathered_projected}
use scp_harness.Ledger.Projection.{gather_accounts-ok}
use scp_harness.Ledger.Gathering.{gather_accounts_total, gather_leases_total}

-- The check of a task that is accounted for passes.
settled_task_total :
    (s : State) (k : Key) (t : Task)
    → IsLedger s
    → lookup k s.tasks ≡ some t
    → settled_task (projected (balance k s.accounts) (leased k s.leases) t) ≡ true
unfolding settled_task balanced accounted
settled_task_total s k t h e =
    let good = Every-lookup (TaskOk s.accounts s.leases) k s.tasks h.tasks e in
    let (b, l, c, room) = task_bound s h k {x = t} e in
    let x = balance k s.accounts in
    let y = leased k s.leases in
    let z = t.resources.charged in
    let w = t.resources.retired in
    let sum : add x y ≡ ok (x +ℤ y) = add_total x y b l (omega (int_laws, room, c)) in
    let sum' : add (x +ℤ y) z ≡ ok (x +ℤ y +ℤ z) =
      add_total (x +ℤ y) z (omega (int_laws, b, l)) c room in
    let sum'' : add (x +ℤ y +ℤ z) w ≡ ok (x +ℤ y +ℤ z +ℤ w) =
      add_total (x +ℤ y +ℤ z) w (omega (int_laws, b, l, c)) good.retired_nonneg
        (rw good.conserved good.minted_fits) in
    ground (
      arith,
      sum,
      sum',
      sum'',
      good.conserved,
      good.minted_pos,
      good.drained,
      eq_ℤ-refl t.resources.minted,
    )

module _ (s : State) where
  -- What the first loop starts from: the same tasks, with nothing remaining.
  reset_known :
      (k : Key)
      → lookup k s.tasks ≢ none
      → lookup k (map_values (λ _ t. reset_task t) s.tasks) ≢ none
  reset_known k h e = h (ground (arith, lookup-map_values (λ _ t. reset_task t) k s.tasks))

  reset_room :
      IsLedger s
      → (k : Key) (t : Task) → lookup k (map_values (λ _ t. reset_task t) s.tasks) ≡ some t
      → (pos 0 ≤ℤ t.resources.remaining)
        × (t.resources.remaining +ℤ balance k s.accounts ≤ℤ max_int64)
  reset_room h k t e = elim (Option-cases (lookup k s.tasks)) [
    | inl missing ↦ absurd (ground (arith, lookup-map_values (λ _ x. reset_task x) k s.tasks))
    | inr (x, ex) ↦
        let start : t.resources.remaining ≡ pos 0 =
          ground (arith, lookup-map_values (λ _ x. reset_task x) k s.tasks) in
        rw start (grind (int_laws, task_bound s h k {x = x} ex))
  ]

  gathered_known :
      {ts : Map Task}
      → gather_accounts s.accounts (map_values (λ _ t. reset_task t) s.tasks) ≡ ok ts
      → (k : Key) → lookup k s.tasks ≢ none
      → lookup k ts ≢ none
  gathered_known {ts} e1 k h e = reset_known k h (
      ground (
        arith,
        gather_accounts-ok s.accounts (map_values (λ _ t. reset_task t) s.tasks) {ts' = ts} k e1,
      ))

  gathered_room :
      IsLedger s
      → {ts : Map Task}
      → gather_accounts s.accounts (map_values (λ _ t. reset_task t) s.tasks) ≡ ok ts
      → (k : Key) (t : Task) → lookup k ts ≡ some t
      → (pos 0 ≤ℤ t.resources.outstanding)
        × (t.resources.outstanding +ℤ leased k s.leases ≤ℤ max_int64)
  gathered_room h {ts} e1 k t e = elim (Option-cases (lookup k s.tasks)) [
    | inl missing ↦ absurd (
        ground (
          arith,
          lookup-map_values (λ _ x. reset_task x) k s.tasks,
          gather_accounts-ok s.accounts (map_values (λ _ t. reset_task t) s.tasks) {ts' = ts} k e1,
        ))
    | inr (x, ex) ↦
        let start : t.resources.outstanding ≡ pos 0 = ground (
          arith,
          lookup-map_values (λ _ x. reset_task x) k s.tasks,
          gather_accounts-ok s.accounts (map_values (λ _ t. reset_task t) s.tasks) {ts' = ts} k e1,
        ) in
        rw start (grind (int_laws, task_bound s h k {x = x} ex))
  ]

  projected_settled :
      IsLedger s
      → (k : Key) {t : Task}
      → Option.map (projected (balance k s.accounts) (leased k s.leases)) (lookup k s.tasks)
        ≡ some t
      → settled_task t ≡ true
  projected_settled h k {t} e = elim (Option-cases (lookup k s.tasks)) [
    | inl missing ↦ absurd (ground arith)
    | inr (x, ex) ↦
        let value : projected (balance k s.accounts) (leased k s.leases) x ≡ t = ground arith in
        subst (λ z. settled_task z ≡ true) value (settled_task_total s k x h ex)
  ]

module _ (s : State) (h : IsLedger s) (ts : Map Task) (single : IsMap ts)
    (shown : (k : Key)
      → lookup k ts
        ≡ Option.map
            (projected (balance k s.accounts) (leased k s.leases))
            (lookup k s.tasks)) where
  shown_known : (k : Key) → lookup k s.tasks ≢ none → lookup k ts ≢ none
  shown_known k p e = p (ground (arith, shown k))

  -- The projections are no part of the invariant.
  refreshed-IsLedger :
      IsLedger (record s { tasks = ts; options = mirror_accounts s.accounts s.options })
  refreshed-IsLedger = record {
    task_map = single;
    account_map = h.account_map;
    lease_map = h.lease_map;
    accounts =
        Every-map (AccountOk s.tasks) (AccountOk ts) s.accounts
          (λ k a good. record { nonneg = good.nonneg; known = shown_known a.task_id good.known })
          h.accounts;
    leases =
        Every-map (LeaseOk s.tasks s.accounts) (LeaseOk ts s.accounts) s.leases
          (λ k l good. record {
            positive = good.positive;
            anchored = good.anchored;
            known = shown_known l.task_id good.known;
          })
          h.leases;
    tasks = Every-of_lookup (TaskOk s.accounts s.leases) ts single λ k t e.
        elim (Option-cases (lookup k s.tasks)) [
          | inl missing ↦ absurd (ground (arith, shown k))
          | inr (x, ex) ↦
              let value : projected (balance k s.accounts) (leased k s.leases) x ≡ t =
                ground (arith, shown k) in
              let good = Every-lookup (TaskOk s.accounts s.leases) k s.tasks h.tasks ex in
              subst (TaskOk s.accounts s.leases k) value (record {
                charged_nonneg = good.charged_nonneg;
                retired_nonneg = good.retired_nonneg;
                minted_pos = good.minted_pos;
                minted_fits = good.minted_fits;
                conserved = good.conserved;
                drained = good.drained;
              })
        ];
  }

-- Refresh accepts every state that satisfies the invariant of the ledger, and the state that it
-- returns satisfies the invariant again.
pub refresh_total : (s : State) → IsLedger s → (s' : State) × (refresh s ≡ ok s') × IsLedger s'
unfolding refresh
refresh_total s h =
    let m : Map Task = map_values (λ _ t. reset_task t) s.tasks in
    let (ts, e1, keep) =
      gather_accounts_total s.tasks s.accounts m h.accounts (reset_known s) (reset_room s h) in
    let (ts', e2, keep') =
      gather_leases_total s.tasks s.accounts s.leases ts h.leases (gathered_known s e1)
        (gathered_room s h e1) in
    let single : IsMap ts' =
      keep' (keep (map_values-IsMap (λ _ t. reset_task t) s.tasks h.task_map)) in
    let checked : all_entries (λ _ t. settled_task t) ts' ≡ true =
      all_entries-Every (λ _ t. settled_task t) ts'
        (Every-of_lookup (λ _ t. settled_task t ≡ true) ts' single
          (λ k t e. projected_settled s h k (sym (gathered_projected s k e1 e2) ∙ e))) in
    (
      record s { tasks = ts'; options = mirror_accounts s.accounts s.options },
      ground (arith, e1, e2, checked),
      refreshed-IsLedger s h ts' single (λ k. gathered_projected s k e1 e2),
    )
