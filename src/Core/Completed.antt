-- ===== src/Core/Completed.antt =====
-- Proofs about Complete of internal/core/runtime.go: how it leaves the Attempt, its lease, the slot
-- and the books.
use scp_harness.Base.{
  ◌+◌, ◌&&◌, ◌≡◌, refl, ap, sym, ◌∙◌, subst, Option, none, some, Bool, true, not, lookup, insert,
  erase, lookup-insert_self, ok, Code, ◌==◌, or_fail, or_fail-ok, fail_if, fail_if-ok, Yields,
  Yields-ok, Yields-bind, if◌then◌else◌, arith, Bool-cases, inl, inr,
}
use scp_harness.Model.{
  Key, State, Slot, Artifact, Attempt, AttemptStatus, Config, active_attempt, card_for, now,
}
use scp_harness.Ledger.{settle}
use scp_harness.Ledger.Frame.{IsLedger-frame}
use scp_harness.Core.Slots.{idle_slot}
use scp_harness.Core.Completions.{
  Completion, card_suffices, keep_artifact, bind_artifact, end_attempt,
}
use scp_harness.Core.Completing.{interrupted, overrule, halt_or_conclude, end_in, complete_in}
use scp_harness.Core.Books.{Books, Served, Served-frame, FreshIds-frame}
use scp_harness.Core.Serving.{Yields-after}
use scp_harness.Core.Leaving.{Left, halt_or_conclude-Left}
use scp_harness.Core.Settling.{Settled, settle-Books}

keep_artifact-Served :
    (f : Option Artifact) (a : Attempt) (s : State)
    → Books s
    → Served s (keep_artifact f a s)
      × ((keep_artifact f a s).interrupts ≡ s.interrupts)
      × ((keep_artifact f a s).cancellations ≡ s.cancellations)
unfolding keep_artifact bind_artifact
keep_artifact-Served f a s h = (
  Served-frame s (keep_artifact f a s) (ground arith) (ground arith) (ground arith) (ground arith)
      (ground arith) (ground arith) h,
  ground arith,
  ground arith,
)

-- The Attempt is ended in the state, its lease settled, and nothing else of the books disturbed.
record Ended (v : Completion) (a : Attempt) (s s' : State) : Type 0 where
  books : Books s'
  attempts : s'.attempts ≡ insert v.attempt_id (end_attempt v (now s) a) s.attempts
  leases : s'.leases ≡ erase a.id s.leases
  interrupts : s'.interrupts ≡ s.interrupts
  cancellations : s'.cancellations ≡ s.cancellations

end_in-Ended :
    (v : Completion) (a : Attempt) (s : State) → Books s → Yields (Ended v a s) (end_in v a s)
unfolding end_in
end_in-Ended v a s h =
    let kept : State = keep_artifact v.artifact a s in
    let (first, ei, ec) = keep_artifact-Served v.artifact a s h in
    let ended : State = record kept {
      attempts = insert v.attempt_id (end_attempt v (now s) a) kept.attempts;
      draws = kept.draws + 1;
    } in
    let books : Books ended = record {
      ledger = IsLedger-frame kept ended refl refl refl first.books.ledger;
      fresh = FreshIds-frame kept ended refl refl (omega arith) first.books.fresh;
      keyed = first.books.keyed;
    } in
    Yields-bind (Ended v a s) (settle a.id v.elapsed v.uncertain ended) _ λ s1 e1.
      let x : Settled a.id ended s1 = settle-Books a.id v.elapsed v.uncertain ended books s1 e1 in
      let slot : Slot = record s1.slot { owner = none } in
      let freed : State = record s1 { slot = slot } in
      Yields-ok (Ended v a s) freed (record {
        books = record {
          ledger = IsLedger-frame s1 freed refl refl refl x.books.ledger;
          fresh = FreshIds-frame s1 freed refl refl (omega arith) x.books.fresh;
          keyed = x.books.keyed;
        };
        attempts = x.attempts ∙ ap (insert v.attempt_id (end_attempt v (now s) a)) first.attempts;
        leases = x.leases ∙ ap (erase a.id) first.leases;
        interrupts = x.interrupts ∙ ei;
        cancellations = x.cancellations ∙ ec;
      })

-- An interruption writes over the status of the Attempt.
overrule-lem :
    (id : Key) (a : Attempt) (s : State)
    → Books s
    → lookup id s.attempts ≡ some a
    → Books (overrule id a s).1
      × ((overrule id a s).1.leases ≡ s.leases)
      × (lookup id (overrule id a s).1.attempts ≡ some (overrule id a s).0)
      × ((overrule id a s).0.status
          ≡ (if interrupted a s then AttemptStatus.interrupted else a.status))
unfolding overrule
overrule-lem id a s h e =
    let a' : Attempt = record a { status = AttemptStatus.interrupted } in
    let s1 : State = record s {
      attempts = insert id a' s.attempts;
      interrupts = erase a.id s.interrupts;
    } in
    let books : Books s1 = record {
      ledger = IsLedger-frame s s1 refl refl refl h.ledger;
      fresh = FreshIds-frame s s1 refl refl (omega arith) h.fresh;
      keyed = h.keyed;
    } in
    elim (Bool-cases (interrupted a s)) [
      | inl stops ↦ rw (overrule, stops) (books, refl, lookup-insert_self id a' s.attempts, refl)
      | inr goes ↦ rw (overrule, goes) (h, refl, e, refl)
    ]

interrupted_same :
    (v : Completion) (a : Attempt) (s s1 : State)
    → s1.interrupts ≡ s.interrupts
    → s1.cancellations ≡ s.cancellations
    → (if interrupted (end_attempt v (now s) a) s1 then AttemptStatus.interrupted else v.status)
      ≡ (if interrupted a s then AttemptStatus.interrupted else v.status)
unfolding interrupted end_attempt
interrupted_same v a s s1 ei ec = rw (ei, ec) refl

-- What Complete leaves behind: the Attempt, which was active, ended as the worker's process did or
-- by an interruption; its lease settled; the slot idle; and the books in order.
pub record Completed (v : Completion) (s s' : State) : Type 0 where
  pub before : Attempt
  pub found : lookup v.attempt_id s.attempts ≡ some before
  pub was_active : active_attempt before ≡ true
  pub after : Attempt
  pub stored : lookup v.attempt_id s'.attempts ≡ some after
  pub ended : after.status ≡ (if interrupted before s then AttemptStatus.interrupted else v.status)
  pub settled : s'.leases ≡ erase before.id s.leases
  pub idle : s'.slot ≡ idle_slot
  pub books : Books s'

complete_in-Yields :
    (cfg : Config) (locked : Bool) (v : Completion) (s : State)
    → Books s
    → Yields (λ r. Completed v s r.1) (complete_in cfg locked v s)
unfolding complete_in end_attempt
complete_in-Yields cfg locked v s h =
    let P : Unit {0} × State → Type 0 = λ r. Completed v s r.1 in
    Yields-bind P (or_fail (lookup v.attempt_id s.attempts) Code.core_inconsistent) _ λ a ea.
      Yields-bind P (fail_if (not (active_attempt a)) Code.core_inconsistent) _ λ u eu.
        Yields-after P (card_for a.profile cfg) _ λ card.
          Yields-after P (fail_if (not (card.id == a.actor)) Code.core_inconsistent) _ λ w.
            Yields-bind P (end_in v a s) _ λ s1 e1.
              let x : Ended v a s s1 = end_in-Ended v a s h s1 e1 in
              let a1 : Attempt = end_attempt v (now s) a in
              let o : Attempt × State = overrule v.attempt_id a1 s1 in
              let there : lookup v.attempt_id s1.attempts ≡ some a1 =
                subst (λ m. lookup v.attempt_id m ≡ some a1) (sym x.attempts)
                  (lookup-insert_self v.attempt_id a1 s.attempts) in
              let (books, leases, kept, status) = overrule-lem v.attempt_id a1 s1 x.books there in
              let valid : Bool =
                v.valid && card_suffices a.operation card && not (interrupted a s1) in
              Yields-bind P (halt_or_conclude cfg locked v card o.0 valid (now s) o.1) _ λ s2 e2.
                let y : Left o.1 s2 =
                  halt_or_conclude-Left cfg locked v card o.0 valid (now s) o.1 books s2 e2 in
                Yields-ok P _ (record {
                  before = a;
                  found = or_fail-ok (lookup v.attempt_id s.attempts) Code.core_inconsistent ea;
                  was_active =
                      ground (arith, fail_if-ok (not (active_attempt a)) Code.core_inconsistent eu);
                  after = o.0;
                  stored = ap (lookup v.attempt_id) y.served.attempts ∙ kept;
                  ended = status ∙ interrupted_same v a s s1 x.interrupts x.cancellations;
                  settled = y.served.leases ∙ leases ∙ x.leases;
                  idle = y.idle;
                  books = y.served.books;
                })

-- When the transaction of Complete succeeds on a state whose books are in order - the invariant of
-- the ledger holds, the ids to be drawn are distinct and not those of accounts, and each task
-- stands under its id - the Attempt was active; it is stored with the status that the completion
-- gives, or as INTERRUPTED if it was to be interrupted or its task was being cancelled; exactly
-- its lease is gone, the slot is idle, and the books are in order again. This holds on every
-- branch and for every answer of the worker.
pub complete_in-Completed :
    (cfg : Config) (locked : Bool) (v : Completion) (s : State) {s' : State}
    → Books s
    → complete_in cfg locked v s ≡ ok (tt, s')
    → Completed v s s'
complete_in-Completed cfg locked v s h e = complete_in-Yields cfg locked v s h _ e
