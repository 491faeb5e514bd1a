-- ===== src/Model/Enums.antt =====
-- The closed sets of strings in internal/model. A stored text that is none of them is `other`.
use scp_harness.Base.{ℕ, Bool, true, false, Code}

pub data TaskStatus : Type 0 where
  active suspended closed other : TaskStatus

-- `opened` is "OPEN".
pub data OptionStatus : Type 0 where
  opened closed other : OptionStatus

-- `unset` is "".
pub data CloseReason : Type 0 where
  unset fulfilled superseded abandoned other : CloseReason

pub data Stage : Type 0 where
  mutation ci review await_promotion promotion other : Stage

pub data ChangeState : Type 0 where
  queued running paused blocked stale done aborted other : ChangeState

pub data AttemptStatus : Type 0 where
  preparing running returned timed_out interrupted crashed terminated other : AttemptStatus

pub data CiStatus : Type 0 where
  queued preparing running pass fail timeout terminated other : CiStatus

pub data Operation : Type 0 where
  mutation ci review promotion discussion option_generation merge_judge merge_synth : Operation
  recovery other : Operation

-- The kinds of a target and of a claim's subject.
pub data Kind : Type 0 where
  task option artifact other : Kind

pub data Verdict : Type 0 where
  approve reject other : Verdict

pub data Relation : Type 0 where
  propose split refine merge : Relation

pub data Scope : Type 0 where
  global worker_profile runner task other : Scope

pub data JournalState : Type 0 where
  prepared applied not_applied conflict other : JournalState

pub data SlotState : Type 0 where
  idle busy other : SlotState

-- `qualifying` types of a claim, those of a discussion, and any other text by a number, 0 if blank.
pub data ClaimType : Type 0 where
  fulfilled discussion_comment discussion_reply resource_propose review_finding : ClaimType
  other : ℕ → ClaimType

abbrev pub is_active : TaskStatus → Bool
is_active TaskStatus.active = true
is_active _ = false

abbrev pub is_closed : TaskStatus → Bool
is_closed TaskStatus.closed = true
is_closed _ = false

abbrev pub is_suspended : TaskStatus → Bool
is_suspended TaskStatus.suspended = true
is_suspended _ = false

abbrev pub is_open : OptionStatus → Bool
is_open OptionStatus.opened = true
is_open _ = false

abbrev pub option_closed : OptionStatus → Bool
option_closed OptionStatus.closed = true
option_closed _ = false

abbrev pub is_superseded : CloseReason → Bool
is_superseded CloseReason.superseded = true
is_superseded _ = false

abbrev pub is_queued : ChangeState → Bool
is_queued ChangeState.queued = true
is_queued _ = false

abbrev pub is_running : ChangeState → Bool
is_running ChangeState.running = true
is_running _ = false

abbrev pub is_paused : ChangeState → Bool
is_paused ChangeState.paused = true
is_paused _ = false

abbrev pub is_blocked : ChangeState → Bool
is_blocked ChangeState.blocked = true
is_blocked _ = false

abbrev pub is_stale : ChangeState → Bool
is_stale ChangeState.stale = true
is_stale _ = false

abbrev pub is_aborted : ChangeState → Bool
is_aborted ChangeState.aborted = true
is_aborted _ = false

abbrev pub is_await_promotion : Stage → Bool
is_await_promotion Stage.await_promotion = true
is_await_promotion _ = false

abbrev pub is_promotion : Stage → Bool
is_promotion Stage.promotion = true
is_promotion _ = false

abbrev pub is_mutation : Stage → Bool
is_mutation Stage.mutation = true
is_mutation _ = false

abbrev pub ci_queued : CiStatus → Bool
ci_queued CiStatus.queued = true
ci_queued _ = false

abbrev pub ci_passed : CiStatus → Bool
ci_passed CiStatus.pass = true
ci_passed _ = false

abbrev pub ci_timed_out : CiStatus → Bool
ci_timed_out CiStatus.timeout = true
ci_timed_out _ = false

abbrev pub ci_terminated : CiStatus → Bool
ci_terminated CiStatus.terminated = true
ci_terminated _ = false

abbrev pub is_approve : Verdict → Bool
is_approve Verdict.approve = true
is_approve _ = false

abbrev pub is_reject : Verdict → Bool
is_reject Verdict.reject = true
is_reject _ = false

abbrev pub is_idle : SlotState → Bool
is_idle SlotState.idle = true
is_idle _ = false

abbrev pub is_busy : SlotState → Bool
is_busy SlotState.busy = true
is_busy _ = false

abbrev pub is_prepared : JournalState → Bool
is_prepared JournalState.prepared = true
is_prepared _ = false

abbrev pub is_fulfilled : ClaimType → Bool
is_fulfilled ClaimType.fulfilled = true
is_fulfilled _ = false

-- `typ == "discussion.comment" || typ == "discussion.reply"`
abbrev pub is_discussion_type : ClaimType → Bool
is_discussion_type ClaimType.discussion_comment = true
is_discussion_type ClaimType.discussion_reply = true
is_discussion_type _ = false

abbrev pub is_resource_propose : ClaimType → Bool
is_resource_propose ClaimType.resource_propose = true
is_resource_propose _ = false

abbrev pub blank_type : ClaimType → Bool
blank_type (ClaimType.other ℕ.zero) = true
blank_type _ = false

abbrev pub is_task : Kind → Bool
is_task Kind.task = true
is_task _ = false

abbrev pub is_option : Kind → Bool
is_option Kind.option = true
is_option _ = false

abbrev pub is_artifact : Kind → Bool
is_artifact Kind.artifact = true
is_artifact _ = false

-- The operations by name, as the code compares them.
abbrev pub is_discussion : Operation → Bool
is_discussion Operation.discussion = true
is_discussion _ = false

abbrev pub is_merge : Operation → Bool
is_merge Operation.merge_judge = true
is_merge Operation.merge_synth = true
is_merge _ = false

abbrev pub is_ci : Operation → Bool
is_ci Operation.ci = true
is_ci _ = false

abbrev pub is_promotion_op : Operation → Bool
is_promotion_op Operation.promotion = true
is_promotion_op _ = false

abbrev pub is_mutation_op : Operation → Bool
is_mutation_op Operation.mutation = true
is_mutation_op _ = false

abbrev pub is_review : Operation → Bool
is_review Operation.review = true
is_review _ = false

abbrev pub is_global : Scope → Bool
is_global Scope.global = true
is_global _ = false

-- model.Exit: the exit status of a code. The default is unreachable, since `Code` is closed.
unfoldable pub exit : Code → ℕ
exit Code.internal_error = 1
exit Code.usage_error = 2
exit Code.invalid_config = 2
exit Code.invalid_json = 2
exit Code.schema_invalid = 2
exit Code.ambiguous_id = 3
exit Code.not_found = 3
exit Code.capability_denied = 3
exit Code.precondition_failed = 3
exit Code.invalid_state = 3
exit Code.insufficient_resource = 3
exit Code.limit_exceeded = 3
exit Code.precondition_changed = 3
exit Code.worker_unavailable = 4
exit Code.runner_unavailable = 4
exit Code.repository_unavailable = 4
exit Code.blocked = 4
exit Code.storage_failure = 5
exit Code.core_inconsistent = 5
