-- ===== src/Core/Blocking.antt =====
-- Proofs about block of internal/core/core.go.
use scp_harness.Base.{
  ◌≡◌, refl, Bool, true, Option, none, some, any_entry, insert, Code, Bool-cases, inl, inr, arith,
  Map, [], ◌∷◌, ◌==◌,
}
use scp_harness.Model.{
  Key, State, Message, Scope, Blocker, same_refl, Code-discrete, Scope-discrete, fresh_id, now,
  drawn, audit, touch,
}
use scp_harness.Core.Blockers.{block_in, is_repeated, same_subject, scope_of, subject_of}

abbrev written : Code → Key → Key → Key → Message → State → Blocker
written kind task profile runner message s = record {
  id = fresh_id s;
  kind = kind;
  scope = scope_of kind;
  subject = subject_of kind task profile runner;
  message = message;
  created = now (drawn s);
  resolved = none;
}

any_entry-inserted :
    {V : Type 0} (p : Key → V → Bool) (k : Key) (v : V) (m : Map V)
    → p k v ≡ true
    → any_entry p (insert k v m) ≡ true
unfolding any_entry insert
any_entry-inserted p k v [] h = ground arith
any_entry-inserted p k v ((j, w) ∷ m) h = ground (arith, any_entry-inserted p k v m)

same_subject_refl : (a : Option Key) → same_subject a a ≡ true
same_subject_refl none = refl
same_subject_refl (some k) = ground arith

is_repeated_refl :
    (kind : Code) (scope : Scope) (subject : Option Key) (b : Blocker)
    → b.kind ≡ kind
    → b.scope ≡ scope
    → b.subject ≡ subject
    → b.resolved ≡ none
    → is_repeated kind scope subject b ≡ true
is_repeated_refl kind scope subject b k sc sub res =
    rw
      (
        k,
        sc,
        sub,
        res,
        same_refl Code-discrete kind,
        same_refl Scope-discrete scope,
        same_subject_refl subject,
      )
      refl

touch-blockers : (task : Key) (s : State) → (touch task s).blockers ≡ s.blockers
unfolding touch
touch-blockers task s = ground arith

-- After block the blocker that was asked for is stored and unresolved.
block_in-stored :
    (kind : Code) (task profile runner : Key) (message : Message) (s : State)
    → any_entry
        (λ _ b. is_repeated kind (scope_of kind) (subject_of kind task profile runner) b)
        (block_in kind task profile runner message s).blockers
      ≡ true
unfolding block_in audit
block_in-stored kind task profile runner message s =
    let p = λ (k : Key) (b : Blocker).
      is_repeated kind (scope_of kind) (subject_of kind task profile runner) b in
    let stored =
      any_entry-inserted p (fresh_id s) (written kind task profile runner message s) s.blockers (
        is_repeated_refl kind (scope_of kind) (subject_of kind task profile runner)
          (written kind task profile runner message s) refl refl refl refl) in
    elim (Bool-cases (any_entry p s.blockers)) [
      | inl there ↦ rw there there
      | inr missing ↦ rw missing (elim (Bool-cases (task == 0)) [
        | inl none_given ↦ rw none_given stored
        | inr given ↦ rw given (rw (touch-blockers task _) stored)
      ])
    ]

-- Calling block a second time with the same kind, task, profile and runner, whatever its message,
-- changes nothing: the state is that after the first call.
pub block_in-idempotent :
    (kind : Code) (task profile runner : Key) (message again : Message) (s : State)
    → block_in kind task profile runner again (block_in kind task profile runner message s)
      ≡ block_in kind task profile runner message s
block_in-idempotent kind task profile runner message again s =
    let stored = block_in-stored kind task profile runner message s in
    unfold block_in in rw stored refl
