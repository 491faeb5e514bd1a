-- ===== src/Store/ChangeChecks.antt =====
-- validateChanges of internal/store/change.go. Every complaint has the code CORE_INCONSISTENT, so
-- each loop is a test. What a loop follows without a test, an earlier check has found present.
use scp_harness.Base.{
  ℕ, ◌+◌, Bool, true, false, not, ◌&&◌, ◌||◌, List, [], ◌∷◌, Map, lookup, all_entries, holds,
  count_entries, ◌==◌, leb, present, contains, if◌then◌else◌,
}
use scp_harness.Model.{
  Key, State, Artifact, Attempt, Change, CiRun, Stage, ChangeState, CiStatus, terminal, active_run,
  active_attempt, is_mutation, is_review, is_mutation_op,
}

abbrev known_stage : Stage → Bool
known_stage Stage.other = false
known_stage _ = true

abbrev known_state : ChangeState → Bool
known_state ChangeState.other = false
known_state _ = true

abbrev known_ci_status : CiStatus → Bool
known_ci_status CiStatus.other = false
known_ci_status _ = true

-- The body of the loop over the changes, but for the uniqueness of nonterminal ones.
unfoldable pub change_consistent : State → Key → Change → Bool
change_consistent s id ch =
    (ch.id == id)
    && present (lookup ch.task_id s.tasks)
    && holds (λ o. o.task_id == ch.task_id) (lookup ch.option_id s.options)
    && not (ch.base_sha == 0)
    && (known_stage ch.stage && known_state ch.state)
    && ((ch.artifact_id == 0)
        || holds (λ a. (a.change_id == id) && (a.base_sha == ch.base_sha))
            (lookup ch.artifact_id s.artifacts))
    && ((ch.ci_run_id == 0)
        || holds (λ r. r.artifact_id == ch.artifact_id) (lookup ch.ci_run_id s.ci_runs))
    && ((ch.review_attempt_id == 0)
        || holds
            (λ a. (a.change_id == id) && is_review a.operation && (a.target_id == ch.artifact_id))
            (lookup ch.review_attempt_id s.attempts))
    && (is_mutation ch.stage || not (ch.artifact_id == 0))

-- The set `options` of that loop: no option has two nonterminal changes.
unfoldable pub changes_distinct : List Key → Map Change → Bool
changes_distinct seen [] = true
changes_distinct seen ((_, ch) ∷ m) =
    not (not (terminal ch) && contains ch.option_id seen)
    && changes_distinct (if terminal ch then seen else ch.option_id ∷ seen) m

unfoldable pub ci_run_consistent : State → Key → CiRun → Bool
ci_run_consistent s id r =
    (r.id == id)
    && present (lookup r.artifact_id s.artifacts)
    && known_ci_status r.status
    && ((r.change_id == 0)
        || (present (lookup r.change_id s.changes)
            && holds (λ a. a.change_id == r.change_id) (lookup r.artifact_id s.artifacts)))
    && (if active_run r then present (lookup id s.leases) else not (present (lookup id s.leases)))

unfoldable pub attempt_authorized : State → Key → Attempt → Bool
attempt_authorized s id a =
    not ((is_mutation_op a.operation || is_review a.operation) && (a.change_id == 0))
    && ((a.change_id == 0) || holds (λ ch. ch.task_id == a.task_id) (lookup a.change_id s.changes))

unfoldable pub artifact_owned : State → Key → Artifact → Bool
artifact_owned s id a =
    not (a.change_id == 0)
    && present (lookup a.change_id s.changes)
    && holds (λ t. t.change_id == a.change_id) (lookup a.attempt_id s.attempts)

-- `active`: the runs and attempts that execute.
unfoldable pub activities : State → ℕ
activities s = count_entries active_run s.ci_runs + count_entries active_attempt s.attempts

unfoldable pub changes_valid : State → Bool
changes_valid s =
    all_entries (change_consistent s) s.changes
    && changes_distinct [] s.changes
    && all_entries (ci_run_consistent s) s.ci_runs
    && all_entries (attempt_authorized s) s.attempts
    && leb (activities s) 1
    && all_entries (artifact_owned s) s.artifacts
