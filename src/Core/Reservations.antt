-- ===== src/Core/Reservations.antt =====
-- Proofs about Split and Merge of internal/core/core.go and the invariant of the ledger.
use scp_harness.Base.{
  pos, ◌≡◌, ◌≢◌, refl, ap, Bool, true, none, some, List, [], ◌∷◌, lookup, insert, ok, Code, fail_if,
  deref, deref-ok, arith, if◌then◌else◌, Text, lt_ℤ,
}
use scp_harness.Model.{Key, State, Task, Proposal, Relation, CloseReason, touch}
use scp_harness.Ledger.{move, lca}
use scp_harness.Ledger.Invariant.{IsLedger}
use scp_harness.Ledger.Preservation.{move-IsLedger}
use scp_harness.Ledger.Frame.{IsLedger-frame, touch-IsLedger}
use scp_harness.Core.Common.{find_task, open_option, create_option, close_proposal}
use scp_harness.Core.Options.{
  Child, Participant, split_children, split_in, merge_in, collect, supersede, child_total,
  check_participants, participant_ids,
}
use scp_harness.Core.Funds.{
  Keeps, Keeps-ok, Keeps-bind, Keeps-after, FreshIds, second, split_children-IsLedger,
  create_option-IsLedger,
}
use scp_harness.Core.Budgets.{rooted, rooted-lookup, find_task-ok}

known_task :
    (k : Key) (s : State) {t : Task}
    → rooted s ≡ true
    → lookup k s.tasks ≡ some t
    → lookup t.id s.tasks ≢ none
known_task k s {t} r e missing =
    absurd (ground (arith, ap (λ i. lookup i s.tasks) (rooted-lookup k s r e).0))

split_in-Keeps :
    (operator id : Key) (children : List Child) (refine : Bool) (s : State)
    → IsLedger s
    → FreshIds s
    → rooted s ≡ true
    → Keeps second (split_in operator id children refine s)
unfolding split_in
split_in-Keeps operator id children refine s h f r =
    let relation : Relation = if refine then Relation.refine else Relation.split in
    Keeps-after second (open_option id s) _ λ o.
      Keeps-after second (child_total children (pos 0)) _ λ total.
        Keeps-after second (deref (lookup id s.accounts)) _ λ a.
          Keeps-after second (fail_if (lt_ℤ a.remaining total) Code.insufficient_resource) _ λ u.
            Keeps-bind second (deref (lookup o.task_id s.tasks)) _ λ t et.
              Keeps-bind second (split_children t id operator relation children s) _ λ made em.
                let o' : Proposal = if refine then close_proposal CloseReason.superseded o else o in
                let s' : State = record made.1 { options = insert id o' made.1.options } in
                Keeps-ok second ((o', made.0), touch t.id s')
                  (touch-IsLedger t.id s' (
                    IsLedger-frame made.1 s' refl refl refl (
                      split_children-IsLedger t id operator relation children s h f
                        (known_task o.task_id s r (deref-ok (lookup o.task_id s.tasks) et)) made
                        em)))

-- When the transaction of Split or Refine succeeds on a state that satisfies the invariant of the
-- ledger, the state that it returns satisfies it, provided that the ids to be drawn are distinct
-- and not those of accounts, and that each task stands under its id with a root account of its
-- own.
pub split_in-IsLedger :
    (operator id : Key) (children : List Child) (refine : Bool) (s : State)
    {r : Proposal × List Proposal} {s' : State}
    → IsLedger s
    → FreshIds s
    → rooted s ≡ true
    → split_in operator id children refine s ≡ ok (r, s')
    → IsLedger s'
split_in-IsLedger operator id children refine s h f r e =
    split_in-Keeps operator id children refine s h f r _ e

collect-Keeps :
    (result : Key) (ps : List Participant) (s : State)
    → IsLedger s
    → Keeps (λ x. x) (collect result ps s)
unfolding collect
collect-Keeps result [] s h = Keeps-ok (λ x. x) s h
collect-Keeps result (p ∷ ps) s h =
    Keeps-bind (λ x. x) (move p.id result p.wall s) _
      λ s' e. collect-Keeps result ps s' (move-IsLedger p.id result p.wall s h e)

supersede-Keeps : (ids : List Key) (s : State) → IsLedger s → Keeps (λ x. x) (supersede ids s)
unfolding supersede
supersede-Keeps [] s h = Keeps-ok (λ x. x) s h
supersede-Keeps (id ∷ ids) s h =
    Keeps-after (λ x. x) (deref (lookup id s.options)) _
      λ o.
        let s' : State = record s {
          options = insert id (close_proposal CloseReason.superseded o) s.options;
        } in
        supersede-Keeps ids s' (IsLedger-frame s s' refl refl refl h)

merge_in-Keeps :
    (operator task : Key) (text : Text) (ps : List Participant) (s : State)
    → IsLedger s
    → FreshIds s
    → rooted s ≡ true
    → Keeps second (merge_in operator task text ps s)
unfolding merge_in
merge_in-Keeps operator task text ps s h f r =
    let ids : List Key = participant_ids ps in
    Keeps-bind second (find_task task s) _ λ t et.
      Keeps-after second (check_participants task [] (pos 0) ps s) _ λ total.
        Keeps-after second (lca ids s.accounts) _ λ parent.
          let made : Proposal × State =
            create_option t text parent operator t.sha t.revision ids Relation.merge s in
          let h1 : IsLedger made.1 =
            create_option-IsLedger t text parent operator t.sha t.revision ids Relation.merge s h
              (f.unused s.draws (omega arith)) (known_task task s r (find_task-ok task s et)) in
          Keeps-bind second (collect made.0.id ps made.1) _ λ paid ep.
            Keeps-bind second (supersede ids paid) _ λ closed ec.
              Keeps-ok second (made.0, touch task closed)
                (touch-IsLedger task closed (
                  supersede-Keeps ids paid (collect-Keeps made.0.id ps made.1 h1 paid ep) closed
                    ec))

-- When the transaction of Merge succeeds on a state that satisfies the invariant of the ledger,
-- the state that it returns satisfies it, provided that the ids to be drawn are distinct and not
-- those of accounts, and that each task stands under its id with a root account of its own.
pub merge_in-IsLedger :
    (operator task : Key) (text : Text) (ps : List Participant) (s : State) {o : Proposal}
    {s' : State}
    → IsLedger s
    → FreshIds s
    → rooted s ≡ true
    → merge_in operator task text ps s ≡ ok (o, s')
    → IsLedger s'
merge_in-IsLedger operator task text ps s h f r e = merge_in-Keeps operator task text ps s h f r _ e
