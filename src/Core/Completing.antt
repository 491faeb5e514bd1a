-- ===== src/Core/Completing.antt =====
-- Complete of internal/core/runtime.go: the transaction that ends an Attempt.
use scp_harness.Base.{
  ◌+◌, List, Bool, true, false, not, ◌&&◌, ◌||◌, Option, none, some, [], lookup, insert, erase,
  Result, ok, Code, ◌>>=◌, ◌>>◌, fail_if, or_fail, deref, ◌==◌, leb, if◌then◌else◌,
}
use scp_harness.Model.{
  Key, Time, State, Step, Change, ChangeState, Attempt, AttemptStatus, ClaimType, Kind, Message,
  Payload, Slot, Card, Capability, Config, active_attempt, card_for, exit, flagged, has, is_aborted,
  is_active, is_closed, is_discussion, is_merge, is_open, is_paused, is_superseded, audit, now,
  terminal, touch,
}
use scp_harness.Ledger.{settle}
use scp_harness.Store.{Disk, update}
use scp_harness.Core.Common.{set_change_now}
use scp_harness.Core.Claims.{add_claim}
use scp_harness.Core.Blockers.{block_in}
use scp_harness.Core.Slots.{finish_activity, release}
use scp_harness.Core.Completions.{
  Completion, card_suffices, keep_artifact, end_attempt, apply_claims, propose_all, is_generation,
}
use scp_harness.Core.Outcomes.{is_returned, explored, explore_on, changed}

abbrev pub is_terminated : AttemptStatus → Bool
is_terminated AttemptStatus.terminated = true
is_terminated _ = false

abbrev pub is_interrupted : AttemptStatus → Bool
is_interrupted AttemptStatus.interrupted = true
is_interrupted _ = false

-- An interruption or a cancellation overrules how the Attempt ended.
unfoldable pub interrupted : Attempt → State → Bool
interrupted a s = flagged a.id s.interrupts || flagged a.task_id s.cancellations

unfoldable pub overrule : Key → Attempt → State → Attempt × State
overrule id a s =
    let a' : Attempt = record a { status = AttemptStatus.interrupted } in
    if interrupted a s
    then (a', record s { attempts = insert id a' s.attempts; interrupts = erase a.id s.interrupts })
    else (a, s)

-- A Change that is not to go on.
abbrev pub change_halted : Attempt → Change → State → Bool
change_halted a ch s =
    interrupted a s || is_interrupted a.status || is_paused ch.state || is_aborted ch.state

abbrev pub is_fatal : Option Code → Bool
is_fatal none = false
is_fatal (some code) = leb 4 (exit code)

unfoldable pub leave : Completion → Attempt → State → State
leave v a s = touch a.task_id (finish_activity v.step s)

-- The end of a discussion: its reply, or the report that there is none.
unfoldable pub reply : Completion → Card → Attempt → Bool → State → Result State
reply v card a valid s = do
  t ← deref (lookup a.task_id s.tasks)
  if valid && has Capability.claim_publish card
      then (do
        (claim, s') ←
            add_claim t card Kind.option a.target_id ClaimType.discussion_reply
              (Payload.text_object v.answer.text) a.sha a.revision s
        ok (leave v a s'))
      else ok (
          leave v a
            (audit t.id "INVALID_OUTPUT" (Message.words "discussion ended without reply") s))

-- What the worker asks for: its claims, then its options, unless a claim has closed the task.
unfoldable pub requests :
    Completion → Card → Bool → Attempt → Bool → State → Result (List Key × State)
requests v card locked a true s = do
  s' ← apply_claims card locked v.visible a v.answer.claims s
  t ← deref (lookup a.task_id s'.tasks)
  if is_closed t.status then ok ([], s') else propose_all card a v.step t v.answer.options s'
requests v card locked a false s =
    ok
      ([], audit a.task_id "INVALID_OUTPUT" (Message.words "no semantic worker requests applied") s)

-- Whether the option that the activity is about is closed, other than by a successor.
unfoldable pub anchor_closed : Step → State → Result Bool
anchor_closed p s = if p.option_id == 0 then ok false else do
  o ← deref (lookup p.option_id s.options)
  ok (not (is_open o.status) && not (is_superseded o.close_reason))

-- `t.Status != "ACTIVE" || s.Cancellations[t.ID] || …`
unfoldable pub closed_under : Attempt → Step → State → Result Bool
closed_under a p s = do
  t ← deref (lookup a.task_id s.tasks)
  if not (is_active t.status) || flagged t.id s.cancellations then ok true else anchor_closed p s

unfoldable pub pause_closed : Attempt → State → State
pause_closed a s = elim (lookup a.change_id s.changes) [
  | none ↦ s
  | some ch ↦
      if terminal ch
      then s
      else set_change_now a.change_id ch ch.stage ChangeState.paused "OPTION_OR_TASK_CLOSED" s
]

unfoldable pub advance :
    Config → Completion → Card → Attempt → Bool → Time → List Key → State → Result State
advance cfg v card a valid t ids s =
    if is_generation a.operation || is_merge a.operation
    then (do
      x ← deref (lookup a.task_id s.exploration)
      (x', s') ← explored a.operation v card a valid ids x s
      explore_on cfg v.step a.task_id x' s')
    else ok
        (elim (lookup a.change_id s.changes) [ none ↦ s | some ch ↦ changed v card a valid t ch s ])

-- The part of Complete after its early ends.
unfoldable pub proceed :
    Config → Bool → Completion → Card → Attempt → Bool → Time → State → Result State
proceed cfg locked v card a valid t s = do
  (ids, s1) ← requests v card locked a valid s
  over ← closed_under a v.step s1
  if over
      then ok (leave v a (pause_closed a s1))
      else (do s2 ← advance cfg v card a valid t ids s1; ok (leave v a s2))

-- The blocker that a fatal reason becomes.
unfoldable pub report : Config → Attempt → Option Code → State → State
report cfg a none s = s
report cfg a (some code) s = block_in code a.task_id a.profile cfg.distro (Message.about a.id) s

-- The part of Complete after the settlement, where `a` is as it stands in the state.
unfoldable pub finish_attempt :
    Config → Bool → Completion → Card → Attempt → Bool → Time → State → Result State
finish_attempt cfg locked v card a valid t s =
    if is_terminated a.status && is_fatal v.reason
    then ok (touch a.task_id (release (report cfg a v.reason s)))
    else if is_discussion a.operation
    then reply v card a (valid && is_returned a.status) s
    else proceed cfg locked v card a (valid && is_returned a.status) t s

unfoldable pub halt_or_conclude :
    Config → Bool → Completion → Card → Attempt → Bool → Time → State → Result State
halt_or_conclude cfg locked v card a valid t s = elim (lookup a.change_id s.changes) [
  | none ↦ finish_attempt cfg locked v card a valid t s
  | some ch ↦
      if change_halted a ch s
      then ok (
          leave v a (
            if is_aborted ch.state
            then s
            else set_change_now a.change_id ch ch.stage ChangeState.paused "" s))
      else finish_attempt cfg locked v card a valid t s
]

-- The state with the Attempt ended, its lease settled and the slot without an owner.
unfoldable pub end_in : Completion → Attempt → State → Result State
end_in v a s = do
  let kept : State = keep_artifact v.artifact a s
  let a' : Attempt = end_attempt v (now s) a
  let ended : State = record kept {
    attempts = insert v.attempt_id a' kept.attempts;
    draws = kept.draws + 1;
  }
  settled ← settle a.id v.elapsed v.uncertain ended
  let slot : Slot = record settled.slot { owner = none }
  ok (record settled { slot = slot })

-- The transaction of Complete. `locked` tells whether the gate of the task can be taken.
unfoldable pub complete_in : Config → Bool → Completion → State → Result (Unit {0} × State)
complete_in cfg locked v s = do
  a ← or_fail (lookup v.attempt_id s.attempts) Code.core_inconsistent
  fail_if (not (active_attempt a)) Code.core_inconsistent
  card ← card_for a.profile cfg
  fail_if (not (card.id == a.actor)) Code.core_inconsistent
  settled ← end_in v a s
  let (a', s1) = overrule v.attempt_id (end_attempt v (now s) a) settled
  let valid : Bool = v.valid && card_suffices a.operation card && not (interrupted a settled)
  s2 ← halt_or_conclude cfg locked v card a' valid (now s) s1
  ok (tt, s2)

unfoldable pub complete : Config → Disk → Bool → Completion → State → Result (Unit {0}) × State
complete cfg disk locked v db = update disk (complete_in cfg locked v) db
