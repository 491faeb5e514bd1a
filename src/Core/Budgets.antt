-- ===== src/Core/Budgets.antt =====
-- Proofs about Extend, Allocate and closeOption of internal/core/core.go and the invariant.
use scp_harness.Base.{
  ℤ, pos, ◌+ℤ◌, ◌≤ℤ◌, ◌≡◌, refl, Bool, true, false, some, max_int64, lookup, insert, all_entries,
  all_entries-lookup, ok, Code, fail_if, deref, or_fail-ok, deref-ok, fail_if-ok, arith, ==_iff,
  le_ℤ,
}
use scp_harness.Model.{Key, State, Task, Proposal, Account, Message, touch, audit, is_closed}
use scp_harness.Ledger.{add}
use scp_harness.Ledger.Invariant.{IsLedger}
use scp_harness.Ledger.Conservation.{add-ok, add_lem}
use scp_harness.Ledger.Frame.{IsLedger-frame, touch-IsLedger}
use scp_harness.Ledger.Funding.{funded-IsLedger}
use scp_harness.Store.{task_root}
use scp_harness.Core.Common.{find_task}
use scp_harness.Core.Claims.{close_option}
use scp_harness.Core.Tasks.{extend_in}
use scp_harness.Core.Options.{allocate_in}
use scp_harness.Core.Funds.{
  Keeps, Keeps-ok, Keeps-bind, second, allocate_in-Keeps, close_option-Keeps,
}
use Prim.Native.String.{String}

-- Every task stands under its id, and its root account is its own, as Validate checks.
abbrev pub rooted : State → Bool
rooted s = all_entries (task_root s) s.tasks

pub rooted-lookup :
    (k : Key) (s : State) {t : Task}
    → rooted s ≡ true
    → lookup k s.tasks ≡ some t
    → (t.id ≡ k) × ((a : Account) → lookup k s.accounts ≡ some a → a.task_id ≡ k)
unfolding task_root
rooted-lookup k s {t} h e =
    let good = all_entries-lookup (task_root s) k {v = t} s.tasks h e in
    (ground (arith, ==_iff k t.id), λ a ea. ground (arith, ==_iff a.task_id k))

-- An allocation that succeeds keeps the ledger's invariant.
pub allocate_in-IsLedger :
    (id : Key) (n : ℤ) (s : State) {o : Proposal} {s' : State}
    → IsLedger s
    → allocate_in id n s ≡ ok (o, s')
    → IsLedger s'
allocate_in-IsLedger id n s h e = allocate_in-Keeps id n s h _ e

-- When closeOption succeeds on a state that satisfies the invariant of the ledger, the state that
-- it returns satisfies it.
pub close_option-IsLedger :
    (id : Key) (s : State) {s' : State} → IsLedger s → close_option id s ≡ ok s' → IsLedger s'
close_option-IsLedger id s h e = close_option-Keeps id s h _ e

pub find_task-ok :
    (id : Key) (s : State) {t : Task} → find_task id s ≡ ok t → lookup id s.tasks ≡ some t
unfolding find_task
find_task-ok id s e = or_fail-ok (lookup id s.tasks) Code.not_found e

abbrev funded_state : Key → Task → Account → ℤ → ℤ → State → State
funded_state id t a m b s = record s {
  tasks = insert id (record t { resources = record t.resources { minted = m } }) s.tasks;
  accounts = insert id (record a { remaining = b }) s.accounts;
}

audit-IsLedger :
    (task : Key) (code : String) (message : Message) (s : State)
    → IsLedger s
    → IsLedger (audit task code message s)
unfolding audit
audit-IsLedger task code message s h = IsLedger-frame s (audit task code message s) refl refl refl h

minted_positive : (n : ℤ) → le_ℤ n (pos 0) ≡ false → pos 1 ≤ℤ n
minted_positive n h = ground arith

extend_in-Keeps :
    (id : Key) (n : ℤ) (s : State) → IsLedger s → rooted s ≡ true → Keeps second (extend_in id n s)
unfolding extend_in
extend_in-Keeps id n s h r = Keeps-bind second (find_task id s) _ λ t et.
    Keeps-bind second (fail_if (is_closed t.status) Code.invalid_state) _ λ u lasts.
      Keeps-bind second (fail_if (le_ℤ n (pos 0)) Code.precondition_failed) _ λ v positive.
        Keeps-bind second (add t.resources.minted n) _ λ m em.
          Keeps-bind second (deref (lookup id s.accounts)) _ λ a ea.
            Keeps-bind second (add a.remaining n) _ λ b eb.
              let found : lookup id s.tasks ≡ some t = find_task-ok id s et in
              let account = deref-ok (lookup id s.accounts) ea in
              let more : m ≡ t.resources.minted +ℤ n = add-ok t.resources.minted n em in
              let rich : b ≡ a.remaining +ℤ n = add-ok a.remaining n eb in
              let fits : t.resources.minted +ℤ n ≤ℤ max_int64 =
                ground (arith, add_lem t.resources.minted n) in
              let good =
                funded-IsLedger id n a t s h account ((rooted-lookup id s r found).1 a account)
                  found (λ closed. absurd (ground arith))
                  (minted_positive n
                    (fail_if-ok (le_ℤ n (pos 0)) Code.precondition_failed positive))
                  fits in
              let funded : State = funded_state id t a m b s in
              let touched : State = touch id funded in
              let s' : State = audit id "TASK_EXTENDED" (Message.amount n) touched in
              Keeps-bind second (deref (lookup id s'.tasks)) _ λ t'' ignored.
                Keeps-ok second (t'', s')
                  (audit-IsLedger id "TASK_EXTENDED" (Message.amount n) touched
                    (touch-IsLedger id funded (rw (more, rich) good)))

-- When the transaction of Extend succeeds on a state that satisfies the invariant of the ledger,
-- the state that it returns satisfies it, provided that each task stands under its id with a root
-- account of its own.
pub extend_in-IsLedger :
    (id : Key) (n : ℤ) (s : State) {t : Task} {s' : State}
    → IsLedger s
    → rooted s ≡ true
    → extend_in id n s ≡ ok (t, s')
    → IsLedger s'
extend_in-IsLedger id n s h r e = extend_in-Keeps id n s h r _ e
