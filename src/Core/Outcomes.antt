-- ===== src/Core/Outcomes.antt =====
-- What a finished Attempt comes to: the end of the transaction of Complete in
-- internal/core/runtime.go, for an exploration and for a Change.
use scp_harness.Base.{
  ◌+◌, pos, Bool, true, false, not, ◌&&◌, ◌||◌, none, some, List, [], ◌∷◌, ◌++◌, lookup, insert,
  Result, ok, ◌>>=◌, deref, if◌then◌else◌, Text, add64, present,
}
use scp_harness.Model.{
  Key, Time, State, Step, Change, ChangeState, Stage, Claim, ClaimType, Kind, Payload, Attempt,
  Review, AttemptStatus, Operation, Message, Card, Capability, Config, Exploration, Relation, has,
  is_open, is_mutation_op, is_review, is_reject, audit, fresh_id, drawn,
}
use scp_harness.Ledger.{lca}
use scp_harness.Core.Common.{create_option, set_change_now}
use scp_harness.Core.Options.{supersede}
use scp_harness.Core.Steps.{promotion_evidence, exploration_step}
use scp_harness.Core.Slots.{finish_activity}
use scp_harness.Core.Completions.{Completion}
use scp_harness.Worker.{Answer, Disposition, partition, empty}
use Prim.Native.String.{String}

abbrev pub is_returned : AttemptStatus → Bool
is_returned AttemptStatus.returned = true
is_returned _ = false

-- `"AGENT_" + a.Status`
abbrev pub agent_reason : AttemptStatus → String
agent_reason AttemptStatus.preparing = "AGENT_PREPARING"
agent_reason AttemptStatus.running = "AGENT_RUNNING"
agent_reason AttemptStatus.returned = "INVALID_AGENT_OUTPUT"
agent_reason AttemptStatus.timed_out = "AGENT_TIMED_OUT"
agent_reason AttemptStatus.interrupted = "AGENT_INTERRUPTED"
agent_reason AttemptStatus.crashed = "AGENT_CRASHED"
agent_reason AttemptStatus.terminated = "AGENT_TERMINATED"
agent_reason AttemptStatus.other = "AGENT_"

-- An option_generation counts, and its options join the batch.
abbrev pub generated : List Key → Exploration → Exploration
generated ids x = record x { count = add64 x.count (pos 1); batch = x.batch ++ ids }

abbrev pub succeeds : Result (Unit {0}) → Bool
succeeds (ok _) = true
succeeds _ = false

-- A merge_judge ends the judging, with its groups if they are a partition of the participants.
unfoldable pub judge :
    Key → Bool → List (List Key) → List Key → Exploration → State → Exploration × State
judge task valid groups participants x s =
    if valid && succeeds (partition groups participants)
    then (record x { judged = true; groups = groups }, s)
    else (
      record x { judged = true; groups = [] },
      audit task "INVALID_OUTPUT" (Message.words "invalid merge partition") s,
    )

-- The loop of a merge_synth over its participants: a closed one makes the answer invalid.
unfoldable pub check_open : Key → List Key → Bool → State → Bool × State
check_open task [] valid s = (valid, s)
check_open task (id ∷ ids) valid s =
    let closed : State =
      audit task "INVALID_STATE" (Message.words "merge participant closed during Attempt") s in
    elim (lookup id s.options) [
      | none ↦ check_open task ids false closed
      | some o ↦
          if is_open o.status then check_open task ids valid s else check_open task ids false closed
    ]

-- The merged option of a merge_synth, for its participants, which are superseded.
unfoldable pub synthesise : Card → Attempt → List Key → Text → State → Result State
synthesise card a participants text s = do
  parent ← lca participants s.accounts
  t ← deref (lookup a.task_id s.tasks)
  let (o, made) = create_option t text parent card.id a.sha a.revision participants Relation.merge s
  supersede participants made

-- A merge_synth: the merged option, if the answer stands, and the next group.
unfoldable pub synthesised :
    Completion → Card → Attempt → Bool → Exploration → State → Result (Exploration × State)
synthesised v card a valid x s = do
  let (valid', checked) = check_open a.task_id v.step.participants valid s
  s' ←
      if valid' && has Capability.option_merge card
      then synthesise card a v.step.participants v.answer.text checked
      else ok checked
  ok (record x { group_index = x.group_index + 1 }, s')

-- The switch of Complete over an exploration's operation; `valid` stands for a valid answer of an
-- Attempt that has returned.
unfoldable pub explored :
    Operation
    → Completion
    → Card
    → Attempt
    → Bool
    → List Key
    → Exploration
    → State
    → Result (Exploration × State)
explored Operation.option_generation v card a valid ids x s = ok (generated ids x, s)
explored Operation.merge_judge v card a valid ids x s =
    ok (judge a.task_id valid v.answer.groups v.step.participants x s)
explored Operation.merge_synth v card a valid ids x s = synthesised v card a valid x s
explored _ v card a valid ids x s = ok (x, s)

-- The exploration goes on, or it is done and the activity is over.
unfoldable pub explore_on : Config → Step → Key → Exploration → State → Result State
explore_on cfg p task x s = do
  (next, x') ← exploration_step task x cfg.exploration_n
  ok (
      if present next
      then record s { exploration = insert task x' s.exploration }
      else finish_activity p
          (record s { exploration = insert task (record x' { done = true }) s.exploration }))

-- The loop over the findings of a review: each becomes a claim about the artifact.
unfoldable pub add_findings : Card → Attempt → Key → Time → List Text → State → State
add_findings card a artifact t [] s = s
add_findings card a artifact t (finding ∷ findings) s =
    let claim : Claim = record {
      id = fresh_id s;
      task_id = a.task_id;
      subject_type = Kind.artifact;
      subject_id = artifact;
      type = ClaimType.review_finding;
      payload = Payload.finding_object finding;
      issuer = card.id;
      sha = a.sha;
      revision = a.revision;
      created = t;
    } in
    add_findings card a artifact t findings
      (record (drawn s) { claims = insert claim.id claim s.claims })

-- What a valid review does to its Change: it waits for a promotion, is mutated again, or waits for
-- an operator.
unfoldable pub judge_change : Attempt → Answer → Change → State → State
judge_change a answer ch s =
    if promotion_evidence ch s
    then audit a.task_id "CHANGE_AWAIT_PROMOTION" (Message.about ch.id)
        (set_change_now a.change_id ch Stage.await_promotion ChangeState.queued "" s)
    else if is_reject answer.verdict && not (empty answer.findings)
    then set_change_now a.change_id ch Stage.mutation ChangeState.queued "" s
    else set_change_now a.change_id ch Stage.review ChangeState.blocked "REVIEW_REQUIRES_ATTENTION"
        s

unfoldable pub reviewed : Completion → Card → Attempt → Time → Change → State → State
reviewed v card a t ch s =
    let artifact : Key = v.step.target_id in
    let review : Review = record {
      ci_run_id = ch.ci_run_id;
      artifact_id = artifact;
      attempt_id = a.id;
      verdict = v.answer.verdict;
      findings = v.answer.findings;
      created = t;
    } in
    let ch' : Change = record ch { review_attempt_id = a.id } in
    judge_change a v.answer ch' (
      add_findings card a artifact t v.answer.findings (record s {
        reviews = insert artifact review s.reviews;
        changes = insert a.change_id ch' s.changes;
      }))

abbrev pub is_drop : Disposition → Bool
is_drop Disposition.drop_final = true
is_drop _ = false

abbrev pub stage_after : Disposition → Stage
stage_after Disposition.promote_final = Stage.ci
stage_after _ = Stage.mutation

-- Where a valid mutation leads.
unfoldable pub mutated : Completion → Attempt → Change → State → State
mutated v a ch s =
    if not (present v.artifact) || is_drop v.answer.disposition
    then set_change_now a.change_id ch Stage.mutation ChangeState.blocked "NO_SUBMITTED_RESULT" s
    else set_change_now a.change_id ch (stage_after v.answer.disposition) ChangeState.queued "" s

-- The branch of Complete for a Change.
unfoldable pub changed : Completion → Card → Attempt → Bool → Time → Change → State → State
changed v card a valid t ch s =
    if not valid
    then set_change_now a.change_id ch ch.stage ChangeState.blocked (agent_reason a.status) s
    else if is_mutation_op a.operation
    then mutated v a ch s
    else if is_review a.operation
    then reviewed v card a t ch s
    else s
