-- ===== src/Core/Serving.antt =====
-- Proofs that closings and claims, internal/core/core.go, do not disturb the books.
use scp_harness.Base.{
  ◌||◌, ◌&&◌, ℕ, ◌≤◌, fail_if-ok, Map, ◌+◌, ℤ, pos, refl, ap, sym, subst, Bool, true, false, not,
  [], ◌∷◌, lookup, insert, erase, any_entry, map_values, lookup-map_values, Result, ok, Code, ◌>>=◌,
  ◌==◌, fail_if, or_fail, deref, or_fail-ok, Yields, Yields-ok, Yields-bind, if◌then◌else◌, arith,
}
use scp_harness.Model.{
  Key, Time, State, Task, Claim, Payload, ClaimType, Kind, Card, Change, ChangeState, CloseReason,
  Capability, is_active, is_closed, is_open, is_option, is_task, is_fulfilled, is_discussion_type,
  is_resource_propose, blank_type, has, require, set_change, terminal,
}
use scp_harness.Ledger.{move}
use scp_harness.Ledger.Bounds.{IsLedger-Fits}
use scp_harness.Ledger.Conservation.{move_lem}
use scp_harness.Ledger.Preservation.{move-IsLedger}
use scp_harness.Store.{is_subject}
use scp_harness.Core.Common.{close_proposal, set_changes, stamp_changes}
use scp_harness.Core.Claims.{
  close_option, close_task, fulfil, add_claim, pending_on, task_remaining, emptied, retire,
  discussion_rejected,
}
use scp_harness.Core.Funds.{FreshIds, move-FreshIds, move-tasks}
use scp_harness.Core.Closings.{close_task-drained}
use scp_harness.Core.Books.{
  IsKeyed, Books, Served, Served-refl, Served-trans, Served-frame, written-IsKeyed, either-Served,
}

pub move-Served :
    (from to : Key) (n : ℤ) (s : State) → Books s → Yields (Served s) (move from to n s)
move-Served from to n s h s' e =
    let (a, b, ea, eb, m) = move_lem from to n s (IsLedger-Fits s h.ledger) e in
    record {
      books = record {
        ledger = move-IsLedger from to n s h.ledger e;
        fresh = move-FreshIds from to n s h.ledger e h.fresh;
        keyed = subst IsKeyed (sym (move-tasks from to n s h.ledger e)) h.keyed;
      };
      attempts = ap (λ (x : State). x.attempts) m.after;
      leases = ap (λ (x : State). x.leases) m.after;
    }

-- Either of two calls.
pub either_call :
    {A : Type 0} (P : A → Type 0) (b : Bool) (x y : Result A)
    → Yields P x
    → Yields P y
    → Yields P (if b then x else y)
either_call P true x y hx hy = hx
either_call P false x y hx hy = hy

-- The guards before a part of an operation.
pub Yields-after :
    {A B : Type 0} (P : B → Type 0) (m : Result A) (f : A → Result B)
    → ((a : A) → Yields P (f a))
    → Yields P (m >>= f)
Yields-after P m f h = Yields-bind P m f (λ a e. h a)

pub close_option-Served : (id : Key) (s : State) → Books s → Yields (Served s) (close_option id s)
unfolding close_option
close_option-Served id s h =
    let P : State → Type 0 = Served s in
    Yields-after P (or_fail (lookup id s.options) Code.not_found) _ λ o.
      Yields-after P (fail_if (not (is_open o.status)) Code.invalid_state) _ λ u.
        Yields-after P (deref (lookup o.task_id s.tasks)) _ λ t.
          Yields-after P (fail_if (not (is_active t.status)) Code.invalid_state) _ λ v.
            Yields-after P
              (fail_if (any_entry (λ _ l. l.anchor == id) s.leases) Code.precondition_failed) _
              λ w. Yields-after P (deref (lookup id s.accounts)) _ λ a.
                Yields-bind P (move id o.parent a.remaining s) _ λ s' e.
                  let moved : Served s s' = move-Served id o.parent a.remaining s h s' e in
                  let closed : State = record s' {
                    options = insert id (close_proposal CloseReason.fulfilled o) s'.options;
                  } in
                  let idle : State = record closed { pending = erase o.task_id closed.pending } in
                  let waits : Bool = pending_on id (lookup o.task_id closed.pending) in
                  Yields-ok P (if waits then idle else closed) (
                    Served-trans s s' _ moved (
                      either-Served waits s' idle closed
                        (Served-frame s' idle refl refl refl refl refl (omega arith) moved.books)
                        (Served-frame s' closed refl refl refl refl refl (omega arith)
                          moved.books)))

-- A loop over the changes takes readings of the clock, and gives none back.
stamp_changes-grows :
    (p : Change → Bool) (f : Time → Change → Change) (times : ℕ → Time) (n : ℕ) (m : Map Change)
    → n ≤ (stamp_changes p f times n m).1
unfolding stamp_changes
stamp_changes-grows p f times n [] = omega arith
stamp_changes-grows p f times n ((k, ch) ∷ m) =
    ground (arith, stamp_changes-grows p f times (if p ch then n + 1 else n) m)

pub set_changes-Served :
    (p : Change → Bool) (f : Time → Change → Change) (s : State)
    → Books s
    → Served s (set_changes p f s)
unfolding set_changes
set_changes-Served p f s h =
    Served-frame s (set_changes p f s) refl refl refl refl refl
      (stamp_changes-grows p f s.times s.draws s.changes) h

-- closeTask leaves no account that was not there.
emptied-FreshIds :
    (id : Key) (t : Task) (s : State)
    → FreshIds s
    → FreshIds (record s {
      accounts = map_values (λ _ a. emptied id a) s.accounts;
      tasks = insert id t s.tasks;
    })
emptied-FreshIds id t s f = record {
  unused = λ i later.
      ground
        (arith, f.unused i later, lookup-map_values (λ _ a. emptied id a) (s.ids i) s.accounts);
  distinct = f.distinct;
}

pub close_task-Served : (id : Key) (s : State) → Books s → Yields (Served s) (close_task id s)
unfolding close_task
close_task-Served id s h =
    let P : State → Type 0 = Served s in
    Yields-bind P (or_fail (lookup id s.tasks) Code.not_found) _ λ t et.
      let found = or_fail-ok (lookup id s.tasks) Code.not_found et in
      Yields-after P (fail_if (is_closed t.status) Code.invalid_state) _ λ u.
        Yields-bind P (fail_if (any_entry (λ _ l. l.task_id == id) s.leases) Code.core_inconsistent)
          _
          λ v ev.
            let free = fail_if-ok (any_entry (λ _ l. l.task_id == id) s.leases) _ ev in
            let t' : Task = retire (task_remaining id s.accounts (pos 0)) t in
            let closed : State = record s {
              accounts = map_values (λ _ a. emptied id a) s.accounts;
              tasks = insert id t' s.tasks;
            } in
            let first : Served s closed = record {
              books = record {
                ledger = close_task-drained id t s h.ledger found free;
                fresh = emptied-FreshIds id t' s h.fresh;
                keyed = written-IsKeyed id t t' s.tasks found refl h.keyed;
              };
              attempts = refl;
              leases = refl;
            } in
            let paused : State =
              set_changes (λ ch. (ch.task_id == id) && not (terminal ch))
                (λ now ch. set_change ch.stage ChangeState.paused "TASK_CLOSED" now ch) closed in
            let second : Served s paused =
              Served-trans s closed paused first (set_changes-Served _ _ closed first.books) in
            Yields-after P (deref (lookup id paused.exploration)) _ λ x. Yields-ok P _ (
              Served-trans s paused _ second
                (Served-frame paused _ refl refl refl refl refl (omega arith) second.books))

pub fulfil-Served :
    (card : Card) (kind : Kind) (id : Key) (s : State)
    → Books s
    → Yields (Served s) (fulfil card kind id s)
unfolding fulfil
fulfil-Served card kind id s h =
    let first : Bool = is_option kind && has Capability.option_complete card in
    Yields-bind (Served s) (if first then close_option id s else ok s) _ λ s1 e1.
      let h1 : Served s s1 =
        either_call (Served s) first (close_option id s) (ok s) (close_option-Served id s h)
          (Yields-ok (Served s) s (Served-refl s h)) s1 e1 in
      either_call (Served s) (is_task kind && has Capability.task_complete card) (close_task id s1)
        (ok s1) (λ s2 e2. Served-trans s s1 s2 h1 (close_task-Served id s1 h1.books s2 e2))
        (Yields-ok (Served s) s1 h1)

pub add_claim-Served :
    (t : Task) (card : Card) (kind : Kind) (id : Key) (typ : ClaimType) (payload : Payload)
    (sha : Key) (rev : ℤ) (s : State)
    → Books s
    → Yields (λ r. Served s r.1) (add_claim t card kind id typ payload sha rev s)
unfolding add_claim
add_claim-Served t card kind id typ payload sha rev s h =
    let P : Claim × State → Type 0 = λ r. Served s r.1 in
    let named : State = record s { draws = s.draws + 2 } in
    let first : Served s named = Served-frame s named refl refl refl refl refl (omega arith) h in
    Yields-after P
      (fail_if (is_discussion_type typ && discussion_rejected kind payload) Code.schema_invalid) _
      λ u.
        Yields-after P
          (if is_resource_propose typ
            then require (Capability.claim_publish ∷ Capability.resource_propose ∷ []) card
            else ok tt)
          _
          λ v.
            Yields-after P
              (fail_if (not (is_subject t.id kind id s) || blank_type typ) Code.precondition_failed)
              _
              λ w.
                Yields-bind P (if is_fulfilled typ then fulfil card kind id named else ok named) _
                  λ s' e.
                    let second : Served named s' =
                      either_call (Served named) (is_fulfilled typ) (fulfil card kind id named)
                        (ok named) (fulfil-Served card kind id named first.books)
                        (Yields-ok (Served named) named (Served-refl named first.books)) s' e in
                    Yields-ok P _ (
                      Served-trans s named _ first (
                        Served-trans named s' _ second
                          (Served-frame s' _ refl refl refl refl refl (omega arith) second.books)))
