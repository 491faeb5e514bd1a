-- ===== src/Core/Discussions.antt =====
-- The operations of internal/core/discussion.go that write.
use scp_harness.Base.{
  ◌+◌, pos, false, not, ◌&&◌, List, [], ◌∷◌, ◌++◌, lookup, insert, any_entry, Result, ok, Code,
  ◌>>=◌, ◌>>◌, fail_if, or_fail, deref, ◌==◌, le_ℤ, Text, blank,
}
use scp_harness.Model.{
  Key, Time, State, Proposal, Claim, ClaimType, Kind, Payload, Step, Change, ChangeState, Stage,
  Operation, Config, Capability, Card, Message, is_closed, terminal, flagged, require,
  operator_card, audit, touch, fresh_id, now, drawn,
}
use scp_harness.Store.{Disk}
use scp_harness.Core.Common.{core_update, after_tests, open_option}
use scp_harness.Core.Claims.{add_claim}

-- enqueueOption
unfoldable pub enqueue_option :
    {A : Type 0}
    → Result (Unit {0})
    → Key
    → (Proposal → State → Result (A × State))
    → State
    → Result (A × State)
enqueue_option gate id fn s = do
  o ← open_option id s
  gate
  fail_if (flagged o.task_id s.cancellations) Code.blocked
  x ← deref (lookup o.task_id s.exploration)
  fail_if (not x.done) Code.invalid_state
  fn o s

-- What ReleaseOption passes to it.
unfoldable pub release_option_in : Key → Proposal → State → Result (Change × State)
release_option_in id o s = do
  a ← deref (lookup id s.accounts)
  fail_if (le_ℤ a.remaining (pos 0)) Code.insufficient_resource
  fail_if (any_entry (λ _ ch. (ch.option_id == id) && not (terminal ch)) s.changes)
      Code.invalid_state
  t ← deref (lookup o.task_id s.tasks)
  let time : Time = now s
  let named : State = drawn s
  let ch : Change = record {
    id = fresh_id named;
    task_id = o.task_id;
    option_id = id;
    base_sha = t.sha;
    objective = t.objective;
    objective_revision = t.objective_revision;
    artifact_id = 0;
    ci_run_id = 0;
    review_attempt_id = 0;
    stage = Stage.mutation;
    state = ChangeState.queued;
    reason = "";
    timeout_streak = 0;
    timeout_reset_at = 0;
    started = false;
    created = time;
    updated = time;
  }
  let queued : State = record named { changes = insert ch.id ch s.changes; draws = named.draws + 1 }
  ok (ch, touch o.task_id (audit o.task_id "OPTION_RELEASED" (Message.about id) queued))

unfoldable pub release_option :
    Config → Disk → Result (Unit {0}) → Key → State → Result Change × State
release_option cfg disk gate id db =
    after_tests (require (Capability.option_release ∷ []) (operator_card cfg)) db
      (core_update disk (enqueue_option gate id (release_option_in id)) db)

-- The transaction of CommentOption.
unfoldable pub comment_option_in : Card → Key → Text → State → Result (Claim × State)
comment_option_in card id text s = do
  o ← or_fail (lookup id s.options) Code.not_found
  t ← deref (lookup o.task_id s.tasks)
  fail_if (is_closed t.status) Code.invalid_state
  (claim, s') ←
      add_claim t card Kind.option id ClaimType.discussion_comment (Payload.text_object text) t.sha
        t.revision s
  ok (claim, touch t.id s')

unfoldable pub comment_option : Config → Disk → Key → Text → State → Result Claim × State
comment_option cfg disk id text db =
    after_tests
      (do
        require (Capability.claim_publish ∷ []) (operator_card cfg)
        fail_if (blank text) Code.schema_invalid)
      db (core_update disk (comment_option_in (operator_card cfg) id text) db)

-- What DiscussOption passes to enqueueOption.
unfoldable pub discuss_option_in : Card → Key → Text → Proposal → State → Result (Claim × State)
discuss_option_in card id text o s = do
  t ← deref (lookup o.task_id s.tasks)
  a ← deref (lookup t.id s.accounts)
  fail_if (le_ℤ a.remaining (pos 0)) Code.insufficient_resource
  (claim, s') ←
      add_claim t card Kind.option id ClaimType.discussion_comment (Payload.text_object text) t.sha
        t.revision s
  let p : Step = record {
    change_id = 0;
    ci_run_id = 0;
    request_id = fresh_id s';
    task_id = t.id;
    option_id = id;
    operation = Operation.discussion;
    target_type = Kind.option;
    target_id = id;
    participants = [];
  }
  let asked : State = record s' { requests = s'.requests ++ (p ∷ []); draws = s'.draws + 1 }
  ok (claim, touch t.id (audit t.id "OPTION_DISCUSSION_REQUESTED" (Message.about id) asked))

unfoldable pub discuss_option :
    Config → Disk → Result (Unit {0}) → Key → Text → State → Result Claim × State
discuss_option cfg disk gate id text db =
    let caps : List Capability = Capability.option_discuss ∷ Capability.claim_publish ∷ [] in
    after_tests (do require caps (operator_card cfg); fail_if (blank text) Code.schema_invalid) db
      (core_update disk (enqueue_option gate id (discuss_option_in (operator_card cfg) id text)) db)
