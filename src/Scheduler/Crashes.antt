-- ===== src/Scheduler/Crashes.antt =====
-- Proofs about the transaction of Recover, internal/scheduler/recover.go, that ends an Attempt which
-- was active when the core stopped.
use scp_harness.Base.{
  ◌+ℤ◌, int_laws, sym, add64, Bool-cases, lookup-insert, ==_iff, ◌+◌, ◌≤◌, pos, ◌≡◌, refl, ap, ◌∙◌,
  Option, none, some, true, not, lookup, insert, erase, keep, lookup-insert_self, ok, ◌==◌, deref,
  Yields, Yields-ok, Yields-bind, arith, Option-cases, inl, inr,
}
use scp_harness.Model.{
  Key, State, Attempt, AttemptStatus, Step, Artifact, Task, Account, Lease, Resources, terminal,
  now, touch,
}
use scp_harness.Ledger.{settle}
use scp_harness.Ledger.Frame.{IsLedger-frame}
use scp_harness.Ledger.Settlement.{credited, charged}
use scp_harness.Core.{bind_artifact, set_change_now}
use scp_harness.Core.Books.{
  Books, Served, Served-refl, Served-trans, Served-frame, FreshIds-frame, either-Served,
  set_change_now-Served, touch-Served,
}
use scp_harness.Core.Settling.{Settled, settle-Books, Effect, settle-Effect}
use scp_harness.Core.Serving.{Yields-after, either_call}
use scp_harness.Scheduler.Reconciliation.{
  keep_captured, pause_restart, explores, count_crash, crash_attempt_in,
}

-- The accounts and the tasks are the same.
record SameFunds (s s' : State) : Type 0 where
  accounts : s'.accounts ≡ s.accounts
  tasks : s'.tasks ≡ s.tasks

-- The Attempts apart, a capture disturbs nothing of the books.
record Captured (a : Attempt) (s s' : State) : Type 0 where
  books : Books s'
  leases : s'.leases ≡ s.leases
  funds : SameFunds s s'

bind_artifact-Served :
    (change id : Key) (s : State) → Books s → Served s (bind_artifact change id s)
unfolding bind_artifact
bind_artifact-Served change id s h =
    Served-frame s (bind_artifact change id s) (ground arith) (ground arith) (ground arith)
      (ground arith) (ground arith) (ground arith) h

bind_artifact-SameFunds : (change id : Key) (s : State) → SameFunds s (bind_artifact change id s)
unfolding bind_artifact
bind_artifact-SameFunds change id s = record { accounts = ground arith; tasks = ground arith }

-- A state in which only the Attempts and what is outside the books differ.
rewritten-Books :
    (s s' : State)
    → s'.tasks ≡ s.tasks
    → s'.accounts ≡ s.accounts
    → s'.leases ≡ s.leases
    → s'.ids ≡ s.ids
    → s.draws ≤ s'.draws
    → Books s
    → Books s'
rewritten-Books s s' et ea el ei more h = record {
  ledger = IsLedger-frame s s' et ea el h.ledger;
  fresh = FreshIds-frame s s' ea ei more h.fresh;
  keyed = rw et h.keyed;
}

keep_captured-Captured :
    (f : Option Artifact) (a : Attempt) (s : State)
    → Books s
    → Yields (Captured a s) (keep_captured f a s)
unfolding keep_captured
keep_captured-Captured none a s h =
    Yields-ok (Captured a s) s
      (record { books = h; leases = refl; funds = record { accounts = refl; tasks = refl } })
keep_captured-Captured (some f) a s h =
    Yields-after (Captured a s) (deref (lookup a.id s.attempts)) _ λ v.
      let s1 : State = record s {
        artifacts = insert f.id f s.artifacts;
        attempts = insert a.id (record v { artifact_id = some f.id }) s.attempts;
      } in
      let h1 : Books s1 = rewritten-Books s s1 refl refl refl refl (omega arith) h in
      let x : Served s1 (bind_artifact a.change_id f.id s1) =
        bind_artifact-Served a.change_id f.id s1 h1 in
      Yields-ok (Captured a s) (bind_artifact a.change_id f.id s1) (record {
        books = x.books;
        leases = x.leases;
        funds =
            let b = bind_artifact-SameFunds a.change_id f.id s1 in
            record { accounts = b.accounts; tasks = b.tasks };
      })

pause_restart-Served : (id : Key) (s : State) → Books s → Served s (pause_restart id s)
unfolding pause_restart
pause_restart-Served id s h = elim (Option-cases (lookup id s.changes)) [
  | inl missing ↦ rw (pause_restart, missing) (Served-refl s h)
  | inr (ch, e) ↦
      rw (pause_restart, e)
        (either-Served (terminal ch) s s _ (Served-refl s h)
          (set_change_now-Served id ch _ _ _ s h))
]

pause_restart-SameFunds : (id : Key) (s : State) → SameFunds s (pause_restart id s)
unfolding pause_restart set_change_now
pause_restart-SameFunds id s = record { accounts = ground arith; tasks = ground arith }

count_crash-SameFunds : (a : Attempt) (s : State) → Yields (SameFunds s) (count_crash a s)
unfolding count_crash
count_crash-SameFunds a s =
    either_call (SameFunds s) (not (explores a.operation)) (ok s) _
      (Yields-ok (SameFunds s) s (record { accounts = refl; tasks = refl }))
      (Yields-after (SameFunds s) (deref (lookup a.task_id s.exploration)) _
        λ x. Yields-ok (SameFunds s) _ (record { accounts = refl; tasks = refl }))

-- Touching a task leaves the resources of each.
touch-resources :
    (task k : Key) (s : State) {t : Task}
    → lookup k s.tasks ≡ some t
    → (t' : Task) × (lookup k (touch task s).tasks ≡ some t') × (t'.resources ≡ t.resources)
unfolding touch
touch-resources task k s {t} e = elim (Option-cases (lookup task s.tasks)) [
  | inl missing ↦ (t, rw (touch, missing) e, refl)
  | inr (u, eu) ↦
      let u' : Task = record u { revision = add64 u.revision (pos 1); updated = now s } in
      elim (Bool-cases (k == task)) [
        | inl here ↦ (
          u',
          rw (touch, eu) (ground (arith, lookup-insert task k u' s.tasks)),
          (let same : u ≡ t = ground (arith, ==_iff k task) in ap (λ (x : Task). x.resources) same),
        )
        | inr other ↦ (t, rw (touch, eu) (ground (arith, lookup-insert task k u' s.tasks)), refl)
      ]
]

touch-accounts : (task : Key) (s : State) → (touch task s).accounts ≡ s.accounts
unfolding touch
touch-accounts task s = ground arith

count_crash-Served : (a : Attempt) (s : State) → Books s → Yields (Served s) (count_crash a s)
unfolding count_crash
count_crash-Served a s h =
    either_call (Served s) (not (explores a.operation)) (ok s) _
      (Yields-ok (Served s) s (Served-refl s h))
      (Yields-after (Served s) (deref (lookup a.task_id s.exploration)) _
        λ x. Yields-ok (Served s) _ (Served-frame s _ refl refl refl refl refl (omega arith) h))

-- A crashed Attempt: it is recorded as one, its lease is gone, the task is charged all of the
-- lease, and the account that it was taken from gets nothing back.
pub record Crashed (a : Attempt) (s s' : State) : Type 0 where
  pub after : Attempt
  pub stored : lookup a.id s'.attempts ≡ some after
  pub ended : after.status ≡ AttemptStatus.crashed
  pub lease : Lease
  pub held : lookup a.id s.leases ≡ some lease
  pub leases : s'.leases ≡ erase a.id s.leases
  pub task : Task
  pub owned : lookup lease.task_id s.tasks ≡ some task
  pub task_after : Task
  pub owned_after : lookup lease.task_id s'.tasks ≡ some task_after
  pub charged : task_after.resources.charged ≡ task.resources.charged +ℤ lease.amount
  pub account : Account
  pub anchored : lookup lease.anchor s.accounts ≡ some account
  pub account_after : Account
  pub anchored_after : lookup lease.anchor s'.accounts ≡ some account_after
  pub unreturned : account_after.remaining ≡ account.remaining
  pub books : Books s'

crash_attempt_in-Yields :
    (a : Attempt) (p : Step) (f : Option Artifact) (s : State)
    → Books s
    → Yields (λ r. Crashed a s r.1) (crash_attempt_in a p f s)
unfolding crash_attempt_in
crash_attempt_in-Yields a p f s h =
    let P : Unit {0} × State → Type 0 = λ r. Crashed a s r.1 in
    Yields-bind P (keep_captured f a s) _ λ s1 e1.
      let x : Captured a s s1 = keep_captured-Captured f a s h s1 e1 in
      Yields-bind P (settle a.id (pos 0) true s1) _ λ s2 e2.
        let y : Settled a.id s1 s2 = settle-Books a.id (pos 0) true s1 x.books s2 e2 in
        Yields-after P (deref (lookup a.id s2.attempts)) _ λ v.
          let v' : Attempt = record v {
            status = AttemptStatus.crashed;
            ended = some (now s2);
            reason = some "CORE_RESTART";
          } in
          let s3 : State = record s2 {
            attempts = insert a.id v' s2.attempts;
            interrupts = erase a.id s2.interrupts;
            pending = erase a.task_id s2.pending;
            draws = s2.draws + 1;
          } in
          let h3 : Books s3 = rewritten-Books s2 s3 refl refl refl refl (omega arith) y.books in
          let s4 : State = pause_restart a.change_id s3 in
          let z : Served s3 s4 = pause_restart-Served a.change_id s3 h3 in
          let s5 : State = record s4 {
            requests = keep (λ r. not (r.request_id == p.request_id)) s4.requests;
          } in
          let w : Served s4 s5 =
            Served-frame s4 s5 refl refl refl refl refl (omega arith) z.books in
          Yields-bind P (count_crash a s5) _ λ s6 e6.
            let u : Served s5 s6 = count_crash-Served a s5 w.books s6 e6 in
            let t : Served s6 (touch a.task_id s6) = touch-Served a.task_id s6 u.books in
            let c : SameFunds s5 s6 = count_crash-SameFunds a s5 s6 e6 in
            let b : SameFunds s3 s4 = pause_restart-SameFunds a.change_id s3 in
            let x' = x.funds in
            let f : Effect a.id (pos 0) true s1 s2 =
              settle-Effect a.id (pos 0) true s1 x.books s2 e2 in
            let t1 : Task = charged f.lease.amount f.task in
            let tasks : s6.tasks ≡ insert f.lease.task_id t1 s1.tasks =
              c.tasks ∙ b.tasks ∙ f.charges in
            let (t2, e2', r2) = touch-resources a.task_id f.lease.task_id s6 {t = t1} (
              ap (lookup f.lease.task_id) tasks ∙ lookup-insert_self f.lease.task_id t1 s1.tasks) in
            let a1 : Account = credited f.lease.amount f.lease f.account in
            let accounts : (touch a.task_id s6).accounts ≡ insert f.lease.anchor a1 s1.accounts =
              touch-accounts a.task_id s6 ∙ c.accounts ∙ b.accounts ∙ f.credits in
            let rest : Served s3 (touch a.task_id s6) =
              Served-trans s3 s4 _ z (Served-trans s4 s5 _ w (Served-trans s5 s6 _ u t)) in
            Yields-ok P _ (record {
              after = v';
              stored = rw rest.attempts (lookup-insert_self a.id v' s2.attempts);
              ended = refl;
              lease = f.lease;
              held = ap (lookup a.id) (sym x.leases) ∙ f.held;
              leases = rest.leases ∙ y.leases ∙ ap (erase a.id) x.leases;
              task = f.task;
              owned = ap (lookup f.lease.task_id) (sym x'.tasks) ∙ f.owned;
              task_after = t2;
              owned_after = e2';
              charged = ap (λ (r : Resources). r.charged) r2;
              account = f.account;
              anchored = ap (lookup f.lease.anchor) (sym x'.accounts) ∙ f.anchored;
              account_after = a1;
              anchored_after =
                  ap (lookup f.lease.anchor) accounts
                  ∙ lookup-insert_self f.lease.anchor a1 s1.accounts;
              unreturned = omega int_laws;
              books = rest.books;
            })

-- When the transaction of Recover that ends an active Attempt succeeds on a state whose books are
-- in order, the Attempt is stored as CRASHED, exactly its lease is gone, the task is charged the
-- whole lease, the account that the lease is anchored at gets nothing back, and the books are in
-- order.
pub crash_attempt_in-Crashed :
    (a : Attempt) (p : Step) (f : Option Artifact) (s : State) {s' : State}
    → Books s
    → crash_attempt_in a p f s ≡ ok (tt, s')
    → Crashed a s s'
crash_attempt_in-Crashed a p f s h e = crash_attempt_in-Yields a p f s h _ e
