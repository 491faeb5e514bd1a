-- ===== src/Core/Common.antt =====
-- What the operations of internal/core share: the guarded transaction, and the records that they
-- find and make.
use scp_harness.Base.{
  ℕ, ◌+◌, ℤ, pos, Bool, not, List, [], ◌∷◌, ◌++◌, map, Map, lookup, insert, Result, ok, err, panic,
  Code, ◌>>=◌, ◌>>◌, fail_if, or_fail, deref, if◌then◌else◌, Text,
}
use scp_harness.Model.{
  Key, Time, State, Task, Proposal, Account, Edge, Relation, Change, Stage, ChangeState,
  OptionStatus, CloseReason, is_active, is_open, fail_stop, fresh_id, now, drawn, set_change,
}
use scp_harness.Store.{Disk, update}
use Prim.Native.String.{String}

-- task
unfoldable pub find_task : Key → State → Result Task
find_task id s = or_fail (lookup id s.tasks) Code.not_found

-- openOption
unfoldable pub open_option : Key → State → Result Proposal
open_option id s = do
  o ← or_fail (lookup id s.options) Code.not_found
  fail_if (not (is_open o.status)) Code.invalid_state
  t ← deref (lookup o.task_id s.tasks)
  fail_if (not (is_active t.status)) Code.invalid_state
  ok o

-- check
unfoldable pub check : State → Result (Unit {0})
check s = fail_if (fail_stop s) Code.blocked

-- What (*Core).Update passes to the store.
abbrev pub checked : {A : Type 0} → (State → Result (A × State)) → State → Result (A × State)
checked fn s = check s >> fn s

-- (*Core).Update
unfoldable pub core_update :
    {A : Type 0} → Disk → (State → Result (A × State)) → State → Result A × State
core_update disk fn db = update disk (checked fn) db

-- The tests that an operation makes before its transaction.
abbrev pub after_tests :
    {A : Type 0} → Result (Unit {0}) → State → Result A × State → Result A × State
after_tests (ok _) db rest = rest
after_tests (err e) db rest = (err e, db)
after_tests panic db rest = (panic, db)

-- createOption
unfoldable pub create_option :
    Task → Text → Key → Key → Key → ℤ → List Key → Relation → State → Proposal × State
create_option t text parent actor sha rev parents relation s =
    let id : Key = fresh_id s in
    let o : Proposal = record {
      close_reason = CloseReason.unset;
      id = id;
      task_id = t.id;
      text = text;
      status = OptionStatus.opened;
      parent = parent;
      remaining = pos 0;
      sha = sha;
      revision = rev;
      actor = actor;
      created = now (drawn s);
    } in
    let a : Account = record { task_id = t.id; parent = parent; remaining = pos 0 } in
    let edge =
      λ (p : Key). let e : Edge = record { parent = p; child = id; relation = relation } in e in
    (
      o,
      record s {
        options = insert id o s.options;
        accounts = insert id a s.accounts;
        edges = s.edges ++ map edge parents;
        draws = s.draws + 2;
      },
    )

-- `ch.Set(stage, state, reason)` on the change under a key.
unfoldable pub set_change_now : Key → Change → Stage → ChangeState → String → State → State
set_change_now id ch stage state reason s = record s {
  changes = insert id (set_change stage state reason (now s) ch) s.changes;
  draws = s.draws + 1;
}

-- A loop over the changes that calls Set on those that pass a test, each at its own time.
unfoldable pub stamp_changes :
    (Change → Bool) → (Time → Change → Change) → (ℕ → Time) → ℕ → Map Change → Map Change × ℕ
stamp_changes p f times n [] = ([], n)
stamp_changes p f times n ((k, ch) ∷ m) =
    let (m', n') = stamp_changes p f times (if p ch then n + 1 else n) m in
    ((k, if p ch then f (times n) ch else ch) ∷ m', n')

unfoldable pub set_changes : (Change → Bool) → (Time → Change → Change) → State → State
set_changes p f s =
    let (m, n) = stamp_changes p f s.times s.draws s.changes in record s { changes = m; draws = n }

abbrev pub close_proposal : CloseReason → Proposal → Proposal
close_proposal reason o = record o { status = OptionStatus.closed; close_reason = reason }
