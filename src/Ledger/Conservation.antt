-- ===== src/Ledger/Conservation.antt =====
-- Proofs about Add, Move and Reserve of internal/ledger/ledger.go: what they do to the amounts.
use scp_harness.Base.{
  ℤ, pos, ◌+ℤ◌, ◌-ℤ◌, ◌≤ℤ◌, IsInt64, int_laws, ◌||◌, +ℤ_parts, -ℤ_parts, ◌≡◌, ap, none, some, Map,
  ◌∙◌, lookup, insert, ok, err, arith, if◌then◌else◌, max_int64, lt_ℤ, lookup-insert_ne, ◌≢◌, Code,
  Option-cases, inl, inr, sub64_within, add64_within,
}
use scp_harness.Model.{Key, State, Account, Lease, Task}
use scp_harness.Ledger.Transfer.{add, transfer, move, reserve}
use scp_harness.Ledger.Totals.{balance, leased, share, lease_share, total-insert, total-insert_new}

-- Add returns the mathematical sum of two amounts if both are at least 0 and an int64 holds the
-- sum, and PRECONDITION_FAILED in every other case.
pub add_lem :
    (a b : ℤ)
    → add a b ≡ (
        if lt_ℤ a (pos 0) || lt_ℤ b (pos 0) || lt_ℤ max_int64 (a +ℤ b)
        then err Code.precondition_failed
        else ok (a +ℤ b))
unfolding add
add_lem a b = ground (arith, +ℤ_parts a b, -ℤ_parts max_int64 a, add64_within a b)

pub add-ok : (a b : ℤ) {c : ℤ} → add a b ≡ ok c → c ≡ a +ℤ b
add-ok a b h = ground (arith, add_lem a b)

pub add_total : (a b : ℤ) → pos 0 ≤ℤ a → pos 0 ≤ℤ b → a +ℤ b ≤ℤ max_int64 → add a b ≡ ok (a +ℤ b)
add_total a b p q h = ground (arith, add_lem a b)

-- What an int64 field holds: the ranges that the program's types give.
pub record Fits (s : State) : Type 0 where
  pub account : (k : Key) {a : Account} → lookup k s.accounts ≡ some a → IsInt64 a.remaining
  pub task : (k : Key) {t : Task} → lookup k s.tasks ≡ some t → IsInt64 t.resources.charged
  pub lease : (k : Key) {l : Lease} → lookup k s.leases ≡ some l → IsInt64 l.amount

-- A transfer that succeeds takes exactly the amount from one account and adds it to another of
-- the same task. It changes no other account and nothing but the accounts.
pub record Moved (from to : Key) (n : ℤ) (a b : Account) (s s' : State) : Type 0 where
  pub same_task : a.task_id ≡ b.task_id
  pub distinct : from ≢ to
  pub nonneg : pos 0 ≤ℤ n
  pub covered : n ≤ℤ a.remaining
  pub after : s' ≡ record s {
    accounts =
        insert to
          (record b { remaining = b.remaining +ℤ n })
          (insert from (record a { remaining = a.remaining -ℤ n }) s.accounts);
  }

transfer_lem :
    (from to : Key) (n : ℤ) (a b : Account) (s : State) {s' : State}
    → IsInt64 a.remaining
    → transfer from to n a b s ≡ ok s'
    → Moved from to n a b s s'
unfolding transfer
transfer_lem from to n a b s f h = record {
  same_task = ground arith;
  distinct = ground arith;
  nonneg = ground arith;
  covered = ground arith;
  after = ground (arith, add_lem b.remaining n, sub64_within a.remaining n);
}

-- When Move succeeds on a state whose amounts are int64, both accounts are there, differ and are
-- of one task, the amount is at least 0 and the source has it; the source's account has exactly
-- the amount less, the target's exactly the amount more, and nothing else of the state is changed.
pub move_lem :
    (from to : Key) (n : ℤ) (s : State) {s' : State}
    → Fits s
    → move from to n s ≡ ok s'
    → (a b : Account) × (lookup from s.accounts ≡ some a)
      × (lookup to s.accounts ≡ some b)
      × Moved from to n a b s s'
unfolding move
move_lem from to n s f h = elim (Option-cases (lookup from s.accounts)) [
  | inl missing ↦ absurd (ground arith)
  | inr (a, ea) ↦ elim (Option-cases (lookup to s.accounts)) [
    | inl missing ↦ absurd (ground arith)
    | inr (b, eb) ↦ (a, b, ea, eb, transfer_lem from to n a b s (f.account from ea) (ground arith))
  ]
]

module _ (from to : Key) (n : ℤ) (a b : Account) (m : Map Account) where
  abbrev pub after_transfer : Map Account
  after_transfer =
      insert to (record b { remaining = b.remaining +ℤ n })
        (insert from (record a { remaining = a.remaining -ℤ n }) m)

  -- Two updates that cancel in every sum over a task.
  pub transfer-balance :
      (t : Key)
      → lookup from m ≡ some a
      → lookup to m ≡ some b
      → a.task_id ≡ b.task_id
      → from ≢ to
      → balance t after_transfer ≡ balance t m
  transfer-balance t ea eb same ne = grind (
    int_laws,
    total-insert (share t) from (record a { remaining = a.remaining -ℤ n }) a m ea,
    total-insert (share t) to (record b { remaining = b.remaining +ℤ n }) b
        (insert from (record a { remaining = a.remaining -ℤ n }) m),
    lookup-insert_ne from to (record a { remaining = a.remaining -ℤ n }) m,
  )

-- When Move succeeds on a state whose amounts are int64, the sum over the accounts of each task is
-- what it was.
pub move-balance :
    (from to : Key) (n : ℤ) (s : State) {s' : State} (t : Key)
    → Fits s
    → move from to n s ≡ ok s'
    → balance t s'.accounts ≡ balance t s.accounts
move-balance from to n s t f h =
    let (a, b, ea, eb, m) = move_lem from to n s f h in
    ap (λ x. balance t x.accounts) m.after
    ∙ transfer-balance from to n a b s.accounts t ea eb m.same_task m.distinct

-- A lease that is taken holds what its account gives up, so the task has as much as before.
pub reserve_lem :
    (id anchor : Key) (n : ℤ) (s : State) {s' : State}
    → Fits s
    → reserve id anchor n s ≡ ok s'
    → (a : Account) × (lookup anchor s.accounts ≡ some a)
      × (lookup id s.leases ≡ none)
      × (pos 1 ≤ℤ n)
      × (n ≤ℤ a.remaining)
      × (s' ≡ record s {
        accounts = insert anchor (record a { remaining = a.remaining -ℤ n }) s.accounts;
        leases = insert id (record { task_id = a.task_id; anchor = anchor; amount = n }) s.leases;
      })
unfolding reserve
reserve_lem id anchor n s f h = elim (Option-cases (lookup anchor s.accounts)) [
  | inl missing ↦ absurd (ground arith)
  | inr (a, ea) ↦ elim (Option-cases (lookup id s.leases)) [
    | inl fresh ↦ (
      a,
      ea,
      fresh,
      ground arith,
      ground arith,
      ground (arith, sub64_within a.remaining n (f.account anchor ea)),
    )
    | inr (l, el) ↦ absurd (ground arith)
  ]
]

pub reserved-total :
    (id anchor : Key) (n : ℤ) (a : Account) (s : State) (t : Key)
    → lookup anchor s.accounts ≡ some a
    → lookup id s.leases ≡ none
    → balance t (insert anchor (record a { remaining = a.remaining -ℤ n }) s.accounts)
        +ℤ leased t
            (insert id (record { task_id = a.task_id; anchor = anchor; amount = n }) s.leases)
      ≡ balance t s.accounts +ℤ leased t s.leases
reserved-total id anchor n a s t ea fresh =
    let l : Lease = record { task_id = a.task_id; anchor = anchor; amount = n } in
    grind (
      int_laws,
      total-insert (share t) anchor (record a { remaining = a.remaining -ℤ n }) a s.accounts ea,
      total-insert_new (lease_share t) id l s.leases fresh,
    )
