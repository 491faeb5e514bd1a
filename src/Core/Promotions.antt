-- ===== src/Core/Promotions.antt =====
-- PreparePromotion and ApplyPromotion of internal/core/promotion.go.
use scp_harness.Base.{
  Bool, false, not, ◌&&◌, ◌||◌, Option, none, some, lookup, insert, Result, ok, Code, ◌>>=◌, ◌>>◌,
  fail_if, or_fail, deref, ◌==◌,
}
use scp_harness.Model.{
  Key, State, Task, Change, ChangeState, Stage, Journal, JournalState, Message, is_running,
  is_promotion, is_prepared, flagged, audit, touch,
}
use scp_harness.Store.{Disk, update}
use scp_harness.Core.Common.{set_change_now}
use scp_harness.Core.Steps.{promotion_evidence}
use scp_harness.Core.Slots.{release, finish_activity}

-- The Change of the journal's artifact holds the right to promote it.
abbrev pub promotion_authority : Option Change → State → Bool
promotion_authority none s = false
promotion_authority (some ch) s =
    is_promotion ch.stage && is_running ch.state && promotion_evidence ch s

-- The transaction of PreparePromotion.
unfoldable pub prepare_promotion_in : Journal → State → Result (Unit {0} × State)
prepare_promotion_in j s = do
  fail_if (flagged j.task_id s.cancellations) Code.precondition_failed
  a ← or_fail (lookup j.artifact_id s.artifacts) Code.precondition_failed
  fail_if
      (not (a.task_id == j.task_id)
        || not (a.base_sha == j.old_sha)
        || not (promotion_authority (lookup a.change_id s.changes) s))
      Code.precondition_failed
  ok (tt, touch j.task_id (record s { journals = insert j.id j s.journals }))

unfoldable pub prepare_promotion : Disk → Journal → State → Result (Unit {0}) × State
prepare_promotion disk j db = update disk (prepare_promotion_in j) db

-- The transaction of ApplyPromotion.
unfoldable pub apply_promotion_in : Key → State → Result (Unit {0} × State)
apply_promotion_in id s = do
  j ← or_fail (lookup id s.journals) Code.core_inconsistent
  fail_if (not (is_prepared j.state)) Code.core_inconsistent
  a ← deref (lookup j.artifact_id s.artifacts)
  ch ← or_fail (lookup a.change_id s.changes) Code.core_inconsistent
  t ← deref (lookup j.task_id s.tasks)
  let j' : Journal = record j { state = JournalState.applied }
  let t' : Task = record t { sha = j.new_sha }
  let done : State =
      set_change_now a.change_id ch Stage.promotion ChangeState.done ""
        (record s { journals = insert id j' s.journals; tasks = insert j.task_id t' s.tasks })
  let promoted : State = audit j.task_id "PROMOTED" (Message.from_to j.old_sha j.new_sha) done
  let ended : State = elim (lookup j.task_id promoted.pending) [
    | none ↦ release promoted
    | some p ↦ finish_activity p promoted
  ]
  ok (tt, touch j.task_id ended)

unfoldable pub apply_promotion : Disk → Key → State → Result (Unit {0}) × State
apply_promotion disk id db = update disk (apply_promotion_in id) db
