-- ===== src/Core/Concluding.antt =====
-- Proofs that what Complete of internal/core/runtime.go makes of an exploration or of a Change does
-- not disturb the books.
use scp_harness.Base.{
  ◌&&◌, ◌||◌, refl, Bool, true, false, not, List, [], ◌∷◌, lookup, insert, Result, ok, deref,
  deref-ok, Yields, Yields-ok, Yields-bind, if◌then◌else◌, arith, Bool-cases, Option-cases, inl,
  inr, Text, present,
}
use scp_harness.Model.{
  Key, Time, State, Change, ChangeState, Stage, Claim, ClaimType, Payload, Review, Kind, Card,
  Capability, Attempt, Step, Operation, Exploration, Config, Message, Relation, CloseReason, has,
  is_open, is_mutation_op, is_review, is_reject, audit, fresh_id, drawn,
}
use scp_harness.Ledger.{lca}
use scp_harness.Core.Common.{create_option, close_proposal, set_change_now}
use scp_harness.Core.Options.{supersede}
use scp_harness.Core.Steps.{promotion_evidence, exploration_step}
use scp_harness.Core.Slots.{finish_activity}
use scp_harness.Core.Completions.{Completion}
use scp_harness.Core.Outcomes.{
  succeeds, judge, check_open, synthesise, synthesised, explored, explore_on, add_findings,
  judge_change, reviewed, is_drop, mutated, changed,
}
use scp_harness.Core.Books.{
  Books, Served, Served-refl, Served-trans, Served-frame, either-Served, audit-Served,
  set_change_now-Served, finish_activity-Served, create_option-Served,
}
use scp_harness.Core.Serving.{Yields-after, either_call}
use scp_harness.Core.Requesting.{found-IsKnown}
use scp_harness.Worker.{Answer, partition, empty}

supersede-Served : (ids : List Key) (s : State) → Books s → Yields (Served s) (supersede ids s)
unfolding supersede
supersede-Served [] s h = Yields-ok (Served s) s (Served-refl s h)
supersede-Served (id ∷ ids) s h = Yields-after (Served s) (deref (lookup id s.options)) _ λ o.
    let s1 : State = record s {
      options = insert id (close_proposal CloseReason.superseded o) s.options;
    } in
    let first = Served-frame s s1 refl refl refl refl refl (omega arith) h in
    λ s2 e. Served-trans s s1 s2 first (supersede-Served ids s1 first.books s2 e)

check_open-Served :
    (task : Key) (ids : List Key) (valid : Bool) (s : State)
    → Books s
    → Served s (check_open task ids valid s).1
unfolding check_open
check_open-Served task [] valid s h = Served-refl s h
check_open-Served task (id ∷ ids) valid s h =
    let closed : State =
      audit task "INVALID_STATE" (Message.words "merge participant closed during Attempt") s in
    let first : Served s closed = audit-Served task _ _ s h in
    let rest =
      Served-trans s closed _ first (check_open-Served task ids false closed first.books) in
    elim (Option-cases (lookup id s.options)) [
      | inl missing ↦ rw (check_open, missing) rest
      | inr (o, e) ↦ elim (Bool-cases (is_open o.status)) [
        | inl stays ↦ rw (check_open, e, stays) (check_open-Served task ids valid s h)
        | inr ended ↦ rw (check_open, e, ended) rest
      ]
    ]

synthesise-Served :
    (card : Card) (a : Attempt) (participants : List Key) (text : Text) (s : State)
    → Books s
    → Yields (Served s) (synthesise card a participants text s)
unfolding synthesise
synthesise-Served card a participants text s h =
    Yields-after (Served s) (lca participants s.accounts) _ λ parent.
      Yields-bind (Served s) (deref (lookup a.task_id s.tasks)) _ λ t et.
        let known = found-IsKnown a.task_id s h (deref-ok (lookup a.task_id s.tasks) et) in
        let made : State =
          (create_option t text parent card.id a.sha a.revision participants Relation.merge s).1 in
        let first : Served s made =
          create_option-Served t text parent card.id a.sha a.revision participants Relation.merge s
            h known in
        λ s2 e. Served-trans s made s2 first (supersede-Served participants made first.books s2 e)

synthesised-Served :
    (v : Completion) (card : Card) (a : Attempt) (valid : Bool) (x : Exploration) (s : State)
    → Books s
    → Yields (λ r. Served s r.1) (synthesised v card a valid x s)
unfolding synthesised
synthesised-Served v card a valid x s h =
    let P : Exploration × State → Type 0 = λ r. Served s r.1 in
    let ids : List Key = v.step.participants in
    let r : Bool × State = check_open a.task_id ids valid s in
    let first : Served s r.1 = check_open-Served a.task_id ids valid s h in
    let call : Result State = synthesise card a ids v.answer.text r.1 in
    Yields-bind P (if r.0 && has Capability.option_merge card then call else ok r.1) _ λ s' e.
      let second : Served r.1 s' =
        either_call (Served r.1) (r.0 && has Capability.option_merge card) call (ok r.1)
          (synthesise-Served card a ids v.answer.text r.1 first.books)
          (Yields-ok (Served r.1) r.1 (Served-refl r.1 first.books)) s' e in
      Yields-ok P _ (Served-trans s r.1 s' first second)

judge-Served :
    (task : Key) (valid : Bool) (groups : List (List Key)) (participants : List Key)
    (x : Exploration) (s : State)
    → Books s
    → Served s (judge task valid groups participants x s).1
unfolding judge
judge-Served task valid groups participants x s h =
    elim (Bool-cases (valid && succeeds (partition groups participants))) [
      | inl sound ↦ rw sound (Served-refl s h)
      | inr unsound ↦ rw unsound (audit-Served task _ _ s h)
    ]

pub explored-Served :
    (op : Operation) (v : Completion) (card : Card) (a : Attempt) (valid : Bool) (ids : List Key)
    (x : Exploration) (s : State)
    → Books s
    → Yields (λ r. Served s r.1) (explored op v card a valid ids x s)
unfolding explored
explored-Served Operation.option_generation v card a valid ids x s h =
    Yields-ok (λ r. Served s r.1) _ (Served-refl s h)
explored-Served Operation.merge_judge v card a valid ids x s h =
    Yields-ok (λ r. Served s r.1) _
      (judge-Served a.task_id valid v.answer.groups v.step.participants x s h)
explored-Served Operation.merge_synth v card a valid ids x s h =
    synthesised-Served v card a valid x s h
explored-Served _ v card a valid ids x s h = Yields-ok (λ r. Served s r.1) (x, s) (Served-refl s h)

pub explore_on-Served :
    (cfg : Config) (p : Step) (task : Key) (x : Exploration) (s : State)
    → Books s
    → Yields (Served s) (explore_on cfg p task x s)
unfolding explore_on
explore_on-Served cfg p task x s h =
    Yields-after (Served s) (exploration_step task x cfg.exploration_n) _ λ r.
      let on : State = record s { exploration = insert task r.1 s.exploration } in
      let over : State = record s {
        exploration = insert task (record r.1 { done = true }) s.exploration;
      } in
      let ended : Served s over = Served-frame s over refl refl refl refl refl (omega arith) h in
      Yields-ok (Served s) _ (
        either-Served (present r.0) s on (finish_activity p over)
          (Served-frame s on refl refl refl refl refl (omega arith) h)
          (Served-trans s over _ ended (finish_activity-Served p over ended.books)))

add_findings-Served :
    (card : Card) (a : Attempt) (artifact : Key) (t : Time) (fs : List Text) (s : State)
    → Books s
    → Served s (add_findings card a artifact t fs s)
unfolding add_findings
add_findings-Served card a artifact t [] s h = Served-refl s h
add_findings-Served card a artifact t (f ∷ fs) s h =
    let claim : Claim = record {
      id = fresh_id s;
      task_id = a.task_id;
      subject_type = Kind.artifact;
      subject_id = artifact;
      type = ClaimType.review_finding;
      payload = Payload.finding_object f;
      issuer = card.id;
      sha = a.sha;
      revision = a.revision;
      created = t;
    } in
    let s1 : State = record (drawn s) { claims = insert claim.id claim s.claims } in
    let first = Served-frame s s1 refl refl refl refl refl (omega arith) h in
    Served-trans s s1 _ first (add_findings-Served card a artifact t fs s1 first.books)

judge_change-Served :
    (a : Attempt) (answer : Answer) (ch : Change) (s : State)
    → Books s
    → Served s (judge_change a answer ch s)
unfolding judge_change
judge_change-Served a answer ch s h =
    let waits : State =
      set_change_now a.change_id ch Stage.await_promotion ChangeState.queued "" s in
    let first : Served s waits = set_change_now-Served a.change_id ch _ _ _ s h in
    either-Served (promotion_evidence ch s) s _ _
      (Served-trans s waits _ first (audit-Served a.task_id _ _ waits first.books))
      (either-Served (is_reject answer.verdict && not (empty answer.findings)) s _ _
        (set_change_now-Served a.change_id ch _ _ _ s h)
        (set_change_now-Served a.change_id ch _ _ _ s h))

reviewed-Served :
    (v : Completion) (card : Card) (a : Attempt) (t : Time) (ch : Change) (s : State)
    → Books s
    → Served s (reviewed v card a t ch s)
unfolding reviewed
reviewed-Served v card a t ch s h =
    let review : Review = record {
      ci_run_id = ch.ci_run_id;
      artifact_id = v.step.target_id;
      attempt_id = a.id;
      verdict = v.answer.verdict;
      findings = v.answer.findings;
      created = t;
    } in
    let ch' : Change = record ch { review_attempt_id = a.id } in
    let s1 : State = record s {
      reviews = insert v.step.target_id review s.reviews;
      changes = insert a.change_id ch' s.changes;
    } in
    let first : Served s s1 = Served-frame s s1 refl refl refl refl refl (omega arith) h in
    let s2 : State = add_findings card a v.step.target_id t v.answer.findings s1 in
    let second : Served s1 s2 =
      add_findings-Served card a v.step.target_id t v.answer.findings s1 first.books in
    Served-trans s s1 _ first
      (Served-trans s1 s2 _ second (judge_change-Served a v.answer ch' s2 second.books))

mutated-Served :
    (v : Completion) (a : Attempt) (ch : Change) (s : State) → Books s → Served s (mutated v a ch s)
unfolding mutated
mutated-Served v a ch s h =
    either-Served (not (present v.artifact) || is_drop v.answer.disposition) s _ _
      (set_change_now-Served a.change_id ch _ _ _ s h)
      (set_change_now-Served a.change_id ch _ _ _ s h)

pub changed-Served :
    (v : Completion) (card : Card) (a : Attempt) (valid : Bool) (t : Time) (ch : Change) (s : State)
    → Books s
    → Served s (changed v card a valid t ch s)
unfolding changed
changed-Served v card a valid t ch s h =
    either-Served (not valid) s _ _ (set_change_now-Served a.change_id ch _ _ _ s h) (
      either-Served (is_mutation_op a.operation) s _ _ (mutated-Served v a ch s h) (
        either-Served (is_review a.operation) s _ _ (reviewed-Served v card a t ch s h)
          (Served-refl s h)))
