-- ===== src/Core/Books.antt =====
-- What an operation of internal/core must not disturb while it works on the state: the ledger, the
-- ids that are still to be drawn, the keys of the tasks; and the Attempts and leases, which only
-- the operations of an activity's begin and end change.
use scp_harness.Base.{
  ◌+◌, ◌≤◌, ℤ, pos, ◌≡◌, ◌≢◌, refl, sym, ◌∙◌, subst, none, some, List, Map, lookup, insert, Every,
  Every-lookup, insert-Every, arith, ◌==◌, Option-cases, inl, inr, Text, Bool, true, false, Code,
  if◌then◌else◌, add64,
}
use scp_harness.Model.{
  Key, State, Task, Change, ChangeState, Stage, Step, Relation, Message, audit, touch, fresh_id,
  now,
}
use scp_harness.Ledger.Invariant.{IsLedger}
use scp_harness.Ledger.Frame.{IsLedger-frame, touch-IsLedger}
use scp_harness.Core.Common.{create_option, set_change_now}
use scp_harness.Core.Blockers.{block_in, blocker_of, code_name}
use scp_harness.Core.Slots.{requeue, release, finish_activity}
use scp_harness.Core.Funds.{FreshIds, create_option-IsLedger, create_option-FreshIds}
use Prim.Native.String.{String}

-- A task stands under its id.
abbrev pub IsKeyed : Map Task → Type 0
IsKeyed ts = Every (λ k (t : Task). t.id ≡ k) ts

pub record Books (s : State) : Type 0 where
  pub ledger : IsLedger s
  pub fresh : FreshIds s
  pub keyed : IsKeyed s.tasks

pub record Served (s s' : State) : Type 0 where
  pub books : Books s'
  pub attempts : s'.attempts ≡ s.attempts
  pub leases : s'.leases ≡ s.leases

pub Served-refl : (s : State) → Books s → Served s s
Served-refl s h = record { books = h; attempts = refl; leases = refl }

pub Served-trans : (s s1 s2 : State) → Served s s1 → Served s1 s2 → Served s s2
Served-trans s s1 s2 h1 h2 = record {
  books = h2.books;
  attempts = h2.attempts ∙ h1.attempts;
  leases = h2.leases ∙ h1.leases;
}

pub FreshIds-frame :
    (s s' : State)
    → s'.accounts ≡ s.accounts
    → s'.ids ≡ s.ids
    → s.draws ≤ s'.draws
    → FreshIds s
    → FreshIds s'
FreshIds-frame s s' ea ei more f = record {
  unused = λ i later. rw (ea, ei) (f.unused i (omega arith));
  distinct = rw ei f.distinct;
}

-- A change of any other part of the state.
pub Served-frame :
    (s s' : State)
    → s'.tasks ≡ s.tasks
    → s'.accounts ≡ s.accounts
    → s'.leases ≡ s.leases
    → s'.attempts ≡ s.attempts
    → s'.ids ≡ s.ids
    → s.draws ≤ s'.draws
    → Books s
    → Served s s'
Served-frame s s' et ea el eo ei more h = record {
  books = record {
    ledger = IsLedger-frame s s' et ea el h.ledger;
    fresh = FreshIds-frame s s' ea ei more h.fresh;
    keyed = subst IsKeyed (sym et) h.keyed;
  };
  attempts = eo;
  leases = el;
}

pub audit-Served :
    (task : Key) (code : String) (message : Message) (s : State)
    → Books s
    → Served s (audit task code message s)
unfolding audit
audit-Served task code message s h =
    Served-frame s (audit task code message s) refl refl refl refl refl (omega arith) h

pub set_change_now-Served :
    (id : Key) (ch : Change) (stage : Stage) (state : ChangeState) (reason : String) (s : State)
    → Books s
    → Served s (set_change_now id ch stage state reason s)
unfolding set_change_now
set_change_now-Served id ch stage state reason s h =
    Served-frame s (set_change_now id ch stage state reason s) refl refl refl refl refl
      (omega arith) h

-- A task that is written over keeps its id.
pub written-IsKeyed :
    (k : Key) (t t' : Task) (ts : Map Task)
    → lookup k ts ≡ some t
    → t'.id ≡ t.id
    → IsKeyed ts
    → IsKeyed (insert k t' ts)
written-IsKeyed k t t' ts e same h =
    insert-Every (λ k (t : Task). t.id ≡ k) k t' ts
      (same ∙ Every-lookup (λ k (t : Task). t.id ≡ k) k ts h e) h

touch-rest :
    (k : Key) (s : State)
    → ((touch k s).accounts ≡ s.accounts)
      × ((touch k s).leases ≡ s.leases)
      × ((touch k s).attempts ≡ s.attempts)
      × ((touch k s).ids ≡ s.ids)
      × (s.draws ≤ (touch k s).draws)
unfolding touch
touch-rest k s = (ground arith, ground arith, ground arith, ground arith, ground arith)

touch-IsKeyed : (k : Key) (s : State) → IsKeyed s.tasks → IsKeyed (touch k s).tasks
unfolding touch
touch-IsKeyed k s h = elim (Option-cases (lookup k s.tasks)) [
  | inl missing ↦ rw (touch, missing) h
  | inr (t, e) ↦
      rw (touch, e)
        (written-IsKeyed k t (record t { revision = add64 t.revision (pos 1); updated = now s })
          s.tasks e refl h)
]

pub touch-Served : (k : Key) (s : State) → Books s → Served s (touch k s)
touch-Served k s h =
    let (ea, el, eo, ei, more) = touch-rest k s in
    record {
      books = record {
        ledger = touch-IsLedger k s h.ledger;
        fresh = FreshIds-frame s (touch k s) ea ei more h.fresh;
        keyed = touch-IsKeyed k s h.keyed;
      };
      attempts = eo;
      leases = el;
    }

pub requeue-Served : (p : Step) (s : State) → Books s → Served s (requeue p s)
unfolding requeue set_change_now
requeue-Served p s h =
    Served-frame s (requeue p s) (ground arith) (ground arith) (ground arith) (ground arith)
      (ground arith) (ground arith) h

pub release-Served : (s : State) → Books s → Served s (release s)
unfolding release requeue set_change_now
release-Served s h =
    Served-frame s (release s) (ground arith) (ground arith) (ground arith) (ground arith)
      (ground arith) (ground arith) h

pub finish_activity-Served : (p : Step) (s : State) → Books s → Served s (finish_activity p s)
unfolding finish_activity release requeue set_change_now
finish_activity-Served p s h =
    Served-frame s (finish_activity p s) (ground arith) (ground arith) (ground arith) (ground arith)
      (ground arith) (ground arith) h

pub create_option-Served :
    (t : Task) (text : Text) (parent actor sha : Key) (rev : ℤ) (parents : List Key)
    (relation : Relation) (s : State)
    → Books s
    → lookup t.id s.tasks ≢ none
    → Served s (create_option t text parent actor sha rev parents relation s).1
unfolding create_option
create_option-Served t text parent actor sha rev parents relation s h known = record {
  books = record {
    ledger =
        create_option-IsLedger t text parent actor sha rev parents relation s h.ledger
          (h.fresh.unused s.draws (omega arith)) known;
    fresh = create_option-FreshIds t text parent actor sha rev parents relation s h.fresh;
    keyed = h.keyed;
  };
  attempts = refl;
  leases = refl;
}

pub either-Served :
    (b : Bool) (s x y : State) → Served s x → Served s y → Served s (if b then x else y)
either-Served true s x y hx hy = hx
either-Served false s x y hx hy = hy

pub block_in-Served :
    (kind : Code) (task profile runner : Key) (message : Message) (s : State)
    → Books s
    → Served s (block_in kind task profile runner message s)
unfolding block_in
block_in-Served kind task profile runner message s h =
    let written : State = record s {
      blockers = insert (fresh_id s) (blocker_of kind task profile runner message s) s.blockers;
      draws = s.draws + 2;
    } in
    let audited : State = audit task (code_name kind) message written in
    let first : Served s written =
      Served-frame s written refl refl refl refl refl (omega arith) h in
    let second : Served s audited =
      Served-trans s written audited first
        (audit-Served task (code_name kind) message written first.books) in
    either-Served _ s s _ (Served-refl s h) (
      either-Served (task == 0) s audited (touch task audited) second (
        Served-trans s audited (touch task audited) second
          (touch-Served task audited second.books)))
