-- ===== src/Core/Funds.antt =====
-- Proofs about options and their accounts, internal/core/core.go, and the invariant of the ledger.
use scp_harness.Base.{
  ok-inj, ℕ, ◌≤◌, ℤ, pos, ◌+ℤ◌, ◌-ℤ◌, ◌≡◌, ◌≢◌, refl, ap, sym, ◌∙◌, subst, Bool, true, false, not,
  none, List, [], ◌∷◌, lookup, insert, erase, any_entry, lookup-insert, Result, ok, Code, ◌>>=◌,
  fail_if, or_fail, deref, >>=-eq-ok, arith, ◌==◌, ==_iff, if◌then◌else◌, Text,
}
use scp_harness.Model.{
  Key, State, Task, Proposal, Account, Relation, CloseReason, touch, fresh_id, is_open, is_active,
}
use scp_harness.Ledger.{move, allocate}
use scp_harness.Ledger.Invariant.{IsLedger}
use scp_harness.Ledger.Bounds.{IsLedger-Fits}
use scp_harness.Ledger.Conservation.{move_lem}
use scp_harness.Ledger.Preservation.{move-IsLedger}
use scp_harness.Ledger.Allocation.{allocate-IsLedger}
use scp_harness.Ledger.Frame.{IsLedger-frame, touch-IsLedger, account_added}
use scp_harness.Core.Common.{open_option, create_option, close_proposal}
use scp_harness.Core.Claims.{close_option, pending_on}
use scp_harness.Core.Options.{Child, allocate_in, split_children}

either-IsLedger : (b : Bool) (x y : State) → IsLedger x → IsLedger y → IsLedger (if b then x else y)
either-IsLedger true x y hx hy = hx
either-IsLedger false x y hx hy = hy

-- A call that, where it succeeds, leaves a state that satisfies the invariant.
abbrev pub Keeps : {A : Type 0} → (A → State) → Result A → Type 0
Keeps {A} at m = (x : A) → m ≡ ok x → IsLedger (at x)

pub Keeps-ok : {A : Type 0} (at : A → State) (a : A) → IsLedger (at a) → Keeps at (ok a)
Keeps-ok at a h x e = subst (λ y. IsLedger (at y)) (ok-inj e) h

pub Keeps-bind :
    {A B : Type 0} (at : B → State) (m : Result A) (f : A → Result B)
    → ((a : A) → m ≡ ok a → Keeps at (f a))
    → Keeps at (m >>= f)
Keeps-bind at m f h x e = let (a, ea, ex) = >>=-eq-ok m f (sym e) in h a ea x ex

-- The guards of the operations, which leave the state alone.
pub Keeps-after :
    {A B : Type 0} (at : B → State) (m : Result A) (f : A → Result B)
    → ((a : A) → Keeps at (f a))
    → Keeps at (m >>= f)
Keeps-after at m f h = Keeps-bind at m f (λ a e. h a)

abbrev pub second : {A : Type 0} → A × State → State
second r = r.1

pub allocate_in-Keeps :
    (id : Key) (n : ℤ) (s : State) → IsLedger s → Keeps second (allocate_in id n s)
unfolding allocate_in
allocate_in-Keeps id n s h = Keeps-after second (open_option id s) _ λ o.
    Keeps-bind second (allocate id n s) _ λ s' e.
      Keeps-ok second (o, touch o.task_id s')
        (touch-IsLedger o.task_id s' (allocate-IsLedger id n s h e))

pub close_option-Keeps : (id : Key) (s : State) → IsLedger s → Keeps (λ x. x) (close_option id s)
unfolding close_option
close_option-Keeps id s h =
    Keeps-after (λ x. x) (or_fail (lookup id s.options) Code.not_found) _
      λ o.
        Keeps-after (λ x. x) (fail_if (not (is_open o.status)) Code.invalid_state) _
          λ u.
            Keeps-after (λ x. x) (deref (lookup o.task_id s.tasks)) _
              λ t.
                Keeps-after (λ x. x) (fail_if (not (is_active t.status)) Code.invalid_state) _
                  λ v.
                    Keeps-after (λ x. x)
                      (fail_if (any_entry (λ _ l. l.anchor == id) s.leases)
                        Code.precondition_failed)
                      _
                      λ w.
                        Keeps-after (λ x. x) (deref (lookup id s.accounts)) _
                          λ a.
                            Keeps-bind (λ x. x) (move id o.parent a.remaining s) _
                              λ s' e.
                                let good = move-IsLedger id o.parent a.remaining s h e in
                                let closed : State = record s' {
                                  options =
                                      insert id (close_proposal CloseReason.fulfilled o) s'.options;
                                } in
                                let idle : State = record closed {
                                  pending = erase o.task_id closed.pending;
                                } in
                                let waits : Bool =
                                  pending_on id (lookup o.task_id closed.pending) in
                                Keeps-ok (λ x. x) (if waits then idle else closed)
                                  (either-IsLedger waits idle closed
                                    (IsLedger-frame s' idle refl refl refl good)
                                    (IsLedger-frame s' closed refl refl refl good))

-- The ids that the next calls of model.ID return are new to the accounts, and differ.
pub record FreshIds (s : State) : Type 0 where
  pub unused : (i : ℕ) → s.draws ≤ i → lookup (s.ids i) s.accounts ≡ none
  pub distinct : (i j : ℕ) → s.ids i ≡ s.ids j → i ≡ j

-- An option that is made gets an account of its own, which holds nothing.
pub create_option-IsLedger :
    (t : Task) (text : Text) (parent actor sha : Key) (rev : ℤ) (parents : List Key)
    (relation : Relation) (s : State)
    → IsLedger s
    → lookup (fresh_id s) s.accounts ≡ none
    → lookup t.id s.tasks ≢ none
    → IsLedger (create_option t text parent actor sha rev parents relation s).1
unfolding create_option
create_option-IsLedger t text parent actor sha rev parents relation s h fresh known =
    let a : Account = record { task_id = t.id; parent = parent; remaining = pos 0 } in
    IsLedger-frame (record s { accounts = insert (fresh_id s) a s.accounts }) _ refl refl refl
      (account_added (fresh_id s) a s h fresh refl known)

pub create_option-FreshIds :
    (t : Task) (text : Text) (parent actor sha : Key) (rev : ℤ) (parents : List Key)
    (relation : Relation) (s : State)
    → FreshIds s
    → FreshIds (create_option t text parent actor sha rev parents relation s).1
unfolding create_option
create_option-FreshIds t text parent actor sha rev parents relation s f =
    let a : Account = record { task_id = t.id; parent = parent; remaining = pos 0 } in
    record {
      unused = λ i later. ground (
        arith,
        lookup-insert (fresh_id s) (s.ids i) a s.accounts,
        ==_iff (s.ids i) (s.ids s.draws),
        f.unused i,
        f.distinct i s.draws,
      );
      distinct = f.distinct;
    }

-- A transfer makes no account.
pub move-FreshIds :
    (from to : Key) (n : ℤ) (s : State) {s' : State}
    → IsLedger s
    → move from to n s ≡ ok s'
    → FreshIds s
    → FreshIds s'
move-FreshIds from to n s h e f =
    let (a, b, ea, eb, m) = move_lem from to n s (IsLedger-Fits s h) e in
    subst FreshIds (sym m.after) (record {
      unused = λ i later. ground (
        arith,
        f.unused i,
        ==_iff (s.ids i) from,
        ==_iff (s.ids i) to,
        lookup-insert to (s.ids i) (record b { remaining = b.remaining +ℤ n })
            (insert from (record a { remaining = a.remaining -ℤ n }) s.accounts),
        lookup-insert from (s.ids i) (record a { remaining = a.remaining -ℤ n }) s.accounts,
      );
      distinct = f.distinct;
    })

pub move-tasks :
    (from to : Key) (n : ℤ) (s : State) {s' : State}
    → IsLedger s
    → move from to n s ≡ ok s'
    → s'.tasks ≡ s.tasks
move-tasks from to n s h e =
    let (a, b, ea, eb, m) = move_lem from to n s (IsLedger-Fits s h) e in
    ap (λ (x : State). x.tasks) m.after

create_option-tasks :
    (t : Task) (text : Text) (parent actor sha : Key) (rev : ℤ) (parents : List Key)
    (relation : Relation) (s : State)
    → (create_option t text parent actor sha rev parents relation s).1.tasks ≡ s.tasks
unfolding create_option
create_option-tasks t text parent actor sha rev parents relation s = refl

-- Each child of a split takes its share out of the parent's account.
pub split_children-IsLedger :
    (t : Task) (id operator : Key) (relation : Relation) (cs : List Child) (s : State)
    → IsLedger s
    → FreshIds s
    → lookup t.id s.tasks ≢ none
    → Keeps second (split_children t id operator relation cs s)
unfolding split_children
split_children-IsLedger t id operator relation [] s h f known = Keeps-ok second ([], s) h
split_children-IsLedger t id operator relation (c ∷ cs) s h f known =
    let made : Proposal × State =
      create_option t c.text id operator t.sha t.revision (id ∷ []) relation s in
    let h1 : IsLedger made.1 =
      create_option-IsLedger t c.text id operator t.sha t.revision (id ∷ []) relation s h
        (f.unused s.draws (omega arith)) known in
    let f1 : FreshIds made.1 =
      create_option-FreshIds t c.text id operator t.sha t.revision (id ∷ []) relation s f in
    Keeps-bind second (move id made.0.id c.wall made.1) _ λ moved e.
      let same : moved.tasks ≡ s.tasks =
        move-tasks id made.0.id c.wall made.1 h1 e
        ∙ create_option-tasks t c.text id operator t.sha t.revision (id ∷ []) relation s in
      Keeps-bind second (split_children t id operator relation cs moved) _ λ r er.
        Keeps-ok second _ (
          split_children-IsLedger t id operator relation cs moved
            (move-IsLedger id made.0.id c.wall made.1 h1 e)
            (move-FreshIds id made.0.id c.wall made.1 h1 e f1)
            (subst (λ ts. lookup t.id ts ≢ none) (sym same) known) r er)
