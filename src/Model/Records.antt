-- ===== src/Model/Records.antt =====
-- The records of internal/model/model.go and internal/model/change.go, field by field.
use scp_harness.Base.{ℕ, ℤ, Bool, List, Option, Text, Code}
use scp_harness.Model.Enums.{
  TaskStatus, OptionStatus, CloseReason, Stage, ChangeState, AttemptStatus, CiStatus, Operation,
  Kind, Verdict, Relation, Scope, JournalState, SlotState, ClaimType,
}
use scp_harness.Model.Names.{Key, Time, Payload, Message, LogPath}
use Prim.Native.String.{String}

pub record Resources : Type 0 where
  pub minted : ℤ
  pub remaining : ℤ
  pub outstanding : ℤ
  pub charged : ℤ
  pub retired : ℤ

pub record Task : Type 0 where
  pub objective_revision : ℤ
  pub id : Key
  pub objective : Text
  pub repo_path : Key
  pub repo_ref : Key
  pub responsible : Text
  pub status : TaskStatus
  pub sha : Key
  pub revision : ℤ
  pub resources : Resources
  pub created : Time
  pub updated : Time

-- model.Option
pub record Proposal : Type 0 where
  pub close_reason : CloseReason
  pub id : Key
  pub task_id : Key
  pub text : Text
  pub status : OptionStatus
  pub parent : Key
  pub remaining : ℤ
  pub sha : Key
  pub revision : ℤ
  pub actor : Key
  pub created : Time

pub record Claim : Type 0 where
  pub id : Key
  pub task_id : Key
  pub subject_type : Kind
  pub subject_id : Key
  pub type : ClaimType
  pub payload : Payload
  pub issuer : Key
  pub sha : Key
  pub revision : ℤ
  pub created : Time

pub record Artifact : Type 0 where
  pub change_id : Key
  pub id : Key
  pub task_id : Key
  pub anchor : Key
  pub attempt_id : Key
  pub blob_path : Key
  pub sha256 : Key
  pub size : ℤ
  pub base_sha : Key
  pub created : Time

pub record Attempt : Type 0 where
  pub objective : Text
  pub change_id : Key
  pub id : Key
  pub task_id : Key
  pub operation : Operation
  pub target_type : Kind
  pub target_id : Key
  pub actor : Key
  pub profile : Key
  pub anchor_type : Kind
  pub anchor_id : Key
  pub lease : ℤ
  pub sha : Key
  pub revision : ℤ
  pub started : Time
  pub ended : Option Time
  pub status : AttemptStatus
  pub exit_code : Option ℤ
  pub reason : Option String
  pub stdout : LogPath
  pub stderr : LogPath
  pub artifact_id : Option Key

pub record Blocker : Type 0 where
  pub id : Key
  pub kind : Code
  pub scope : Scope
  pub subject : Option Key
  pub message : Message
  pub created : Time
  pub resolved : Option Time

pub record Journal : Type 0 where
  pub id : Key
  pub task_id : Key
  pub artifact_id : Key
  pub ref : Key
  pub old_sha : Key
  pub new_sha : Key
  pub state : JournalState
  pub created : Time

pub record Account : Type 0 where
  pub task_id : Key
  pub parent : Key
  pub remaining : ℤ

pub record Lease : Type 0 where
  pub task_id : Key
  pub anchor : Key
  pub amount : ℤ

pub record Edge : Type 0 where
  pub parent : Key
  pub child : Key
  pub relation : Relation

pub record Exploration : Type 0 where
  pub done : Bool
  pub count : ℤ
  pub batch : List Key
  pub judged : Bool
  pub groups : List (List Key)
  pub group_index : ℕ

pub record Step : Type 0 where
  pub change_id : Key
  pub ci_run_id : Key
  pub request_id : Key
  pub task_id : Key
  pub option_id : Key
  pub operation : Operation
  pub target_type : Kind
  pub target_id : Key
  pub participants : List Key

pub record Review : Type 0 where
  pub ci_run_id : Key
  pub artifact_id : Key
  pub attempt_id : Key
  pub verdict : Verdict
  pub findings : List Text
  pub created : Time

pub record Event : Type 0 where
  pub id : Key
  pub task_id : Key
  pub code : String
  pub message : Message
  pub created : Time

pub record Slot : Type 0 where
  pub kind : Operation
  pub state : SlotState
  pub owner : Option Key

pub record Change : Type 0 where
  pub id : Key
  pub task_id : Key
  pub option_id : Key
  pub base_sha : Key
  pub objective : Text
  pub objective_revision : ℤ
  pub artifact_id : Key
  pub ci_run_id : Key
  pub review_attempt_id : Key
  pub stage : Stage
  pub state : ChangeState
  pub reason : String
  pub timeout_streak : ℕ
  pub timeout_reset_at : Time
  pub started : Bool
  pub created : Time
  pub updated : Time

pub record CiRun : Type 0 where
  pub id : Key
  pub change_id : Key
  pub artifact_id : Key
  pub status : CiStatus
  pub created : Time
  pub started : Time
  pub ended : Time
  pub exit_code : Option ℤ
  pub stdout : LogPath
  pub stderr : LogPath
  pub stdout_truncated : Bool
  pub stderr_truncated : Bool
  pub lease : ℤ
  pub elapsed : ℤ
  pub timeout : ℤ
  pub command : List Key
  pub config_hash : Key

pub record ObjectiveRevision : Type 0 where
  pub task_id : Key
  pub revision : ℤ
  pub old : Text
  pub new : Text
  pub operator : Key
  pub created : Time
