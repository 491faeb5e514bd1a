-- ===== src/Store/Queries.antt =====
-- Subject and TaskQuiescent of internal/store/store.go.
use scp_harness.Base.{
  Bool, false, not, ◌&&◌, Option, none, some, lookup, any_entry, ◌==◌, present, if◌then◌else◌,
}
use scp_harness.Model.{Key, State, Kind, Proposal, Artifact, active_attempt}

abbrev pub option_of_task : Key → Option Proposal → Bool
option_of_task task none = false
option_of_task task (some o) = o.task_id == task

abbrev pub artifact_of_task : Key → Option Artifact → Bool
artifact_of_task task none = false
artifact_of_task task (some a) = a.task_id == task

unfoldable pub is_subject : Key → Kind → Key → State → Bool
is_subject task Kind.task id s = (id == task) && present (lookup id s.tasks)
is_subject task Kind.option id s = option_of_task task (lookup id s.options)
is_subject task Kind.artifact id s = artifact_of_task task (lookup id s.artifacts)
is_subject task Kind.other id s = false

unfoldable pub task_quiescent : Key → State → Bool
task_quiescent task s =
    if s.slot_task == task
    then false
    else if any_entry (λ _ a. (a.task_id == task) && active_attempt a) s.attempts
    then false
    else not (any_entry (λ _ l. l.task_id == task) s.leases)
