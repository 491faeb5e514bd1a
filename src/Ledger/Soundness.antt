-- ===== src/Ledger/Soundness.antt =====
-- Proofs about Refresh of internal/ledger/ledger.go: what follows where it succeeds.
use scp_harness.Base.{
  ℤ, pos, ap, sym, ◌+ℤ◌, ◌≤ℤ◌, ◌≡◌, refl, ◌∙◌, Option, none, some, Map, lookup, arith, inl, inr,
  true, Result-cases, ap₂, zero-+ℤ, eq_ℤ-eq, ok, all_entries, all_entries-lookup, map_values,
  lookup-map_values,
}
use mathlib.Core.Option
use scp_harness.Model.{Key, State, Task, TaskStatus}
use scp_harness.Ledger.Transfer.{add}
use scp_harness.Ledger.Refresh.{
  gather_accounts, gather_leases, reset_task, accounted, balanced, settled_task, refresh,
  mirror_accounts,
}
use scp_harness.Ledger.Totals.{balance, leased}
use scp_harness.Ledger.Conservation.{add_lem}
use scp_harness.Ledger.Projection.{gathered, outstanding_by, gather_accounts-ok, gather_leases-ok}

-- What a task shows of its accounts and leases.
abbrev pub projected : ℤ → ℤ → Task → Task
projected b l t = record t { resources = record t.resources { remaining = b; outstanding = l } }

projected_steps :
    (b l : ℤ) (o : Option Task)
    → Option.map (outstanding_by l) (Option.map (gathered b) (Option.map reset_task o))
      ≡ Option.map (projected b l) o
projected_steps b l none = refl
projected_steps b l (some t) = ap₂ (λ x y. some (projected x y t)) (zero-+ℤ b) (zero-+ℤ l)

-- How a refresh succeeds.
refresh-ok :
    (s : State) {s' : State}
    → refresh s ≡ ok s'
    → (ts ts' : Map Task) × (gather_accounts s.accounts (map_values (λ _ t. reset_task t) s.tasks)
        ≡ ok ts)
      × (gather_leases s.accounts s.leases ts ≡ ok ts')
      × (all_entries (λ _ t. settled_task t) ts' ≡ true)
      × (s' ≡ record s { tasks = ts'; options = mirror_accounts s.accounts s.options })
unfolding refresh
refresh-ok s {s'} e =
    elim (Result-cases (gather_accounts s.accounts (map_values (λ _ t. reset_task t) s.tasks))) [
      | inl (ts, e1) ↦ elim (Result-cases (gather_leases s.accounts s.leases ts)) [
        | inl (ts', e2) ↦ (ts, ts', e1, e2, ground arith, ground arith)
        | inr fails ↦ absurd (ground arith)
      ]
      | inr fails ↦ absurd (ground arith)
    ]

-- The two loops together.
pub gathered_projected :
    (s : State) {ts ts' : Map Task} (k : Key)
    → gather_accounts s.accounts (map_values (λ _ t. reset_task t) s.tasks) ≡ ok ts
    → gather_leases s.accounts s.leases ts ≡ ok ts'
    → lookup k ts'
      ≡ Option.map (projected (balance k s.accounts) (leased k s.leases)) (lookup k s.tasks)
gathered_projected s {ts} k e1 e2 =
    let b : ℤ = balance k s.accounts in
    let l : ℤ = leased k s.leases in
    gather_leases-ok s.accounts s.leases ts k e2
    ∙ ap (Option.map (outstanding_by l)) (gather_accounts-ok s.accounts _ k e1)
    ∙ ap (λ o. Option.map (outstanding_by l) (Option.map (gathered b) o))
        (lookup-map_values (λ _ t. reset_task t) k s.tasks)
    ∙ projected_steps b l (lookup k s.tasks)

-- A refresh that succeeds gives every task the sums over its accounts and leases.
pub refresh-projected :
    (s : State) {s' : State} (k : Key)
    → refresh s ≡ ok s'
    → lookup k s'.tasks
      ≡ Option.map (projected (balance k s.accounts) (leased k s.leases)) (lookup k s.tasks)
refresh-projected s k e =
    let (ts, ts', e1, e2, checked, after) = refresh-ok s e in
    ap (λ (x : State). lookup k x.tasks) after ∙ gathered_projected s k e1 e2

-- A refresh writes the tasks' projections and the options' balances, and nothing else.
pub refresh-frame :
    (s : State) {s' : State}
    → refresh s ≡ ok s'
    → (ts : Map Task) × (s'
        ≡ record s { tasks = ts; options = mirror_accounts s.accounts s.options })
refresh-frame s e = let (ts, ts', e1, e2, checked, after) = refresh-ok s e in (ts', after)

-- The last loop has passed each task.
refresh-settled :
    (s : State) {s' : State} (k : Key) {t : Task}
    → refresh s ≡ ok s'
    → lookup k s'.tasks ≡ some t
    → settled_task t ≡ true
refresh-settled s {s'} k {t} e et =
    let (ts, ts', e1, e2, checked, after) = refresh-ok s e in
    all_entries-lookup (λ _ x. settled_task x) k {v = t} ts' checked
      (sym (ap (λ (x : State). lookup k x.tasks) after) ∙ et)

-- What the check of a task says.
settled_task_lem :
    (t : Task)
    → settled_task t ≡ true
    → (t.resources.remaining +ℤ t.resources.outstanding +ℤ t.resources.charged
          +ℤ t.resources.retired
        ≡ t.resources.minted)
      × (pos 1 ≤ℤ t.resources.minted)
      × (t.status ≡ TaskStatus.closed
          → (t.resources.remaining ≡ pos 0) × (t.resources.outstanding ≡ pos 0))
unfolding settled_task balanced accounted
settled_task_lem t h =
    let r = t.resources.remaining in
    let o = t.resources.outstanding in
    let c = t.resources.charged in
    let sums : (add r o ≡ ok (r +ℤ o))
        × (add (r +ℤ o) c ≡ ok (r +ℤ o +ℤ c))
        × (add (r +ℤ o +ℤ c) t.resources.retired ≡ ok (r +ℤ o +ℤ c +ℤ t.resources.retired)) =
      (
        ground (arith, add_lem r o),
        ground (arith, add_lem r o, add_lem (r +ℤ o) c),
        ground (arith, add_lem r o, add_lem (r +ℤ o) c, add_lem (r +ℤ o +ℤ c) t.resources.retired),
      ) in
    (
      ground (arith, sums, eq_ℤ-eq (r +ℤ o +ℤ c +ℤ t.resources.retired) t.resources.minted),
      ground (arith, sums),
      λ closed. (ground (arith, sums, eq_ℤ-eq r (pos 0)), ground (arith, sums, eq_ℤ-eq o (pos 0))),
    )

-- When Refresh succeeds, then for each task of the state that it was called on: the sums over its
-- accounts and leases, what it was charged and what it has retired are together exactly what it
-- minted, this is at least 1, and if the task is closed both sums are 0.
pub refresh_sound :
    (s : State) {s' : State} (k : Key) {t : Task}
    → refresh s ≡ ok s'
    → lookup k s.tasks ≡ some t
    → (balance k s.accounts +ℤ leased k s.leases +ℤ t.resources.charged +ℤ t.resources.retired
        ≡ t.resources.minted)
      × (pos 1 ≤ℤ t.resources.minted)
      × (t.status ≡ TaskStatus.closed
          → (balance k s.accounts ≡ pos 0) × (leased k s.leases ≡ pos 0))
refresh_sound s {s'} k {t} e et =
    let b : ℤ = balance k s.accounts in
    let l : ℤ = leased k s.leases in
    settled_task_lem (projected b l t)
      (refresh-settled s k e (refresh-projected s k e ∙ ap (Option.map (projected b l)) et))
