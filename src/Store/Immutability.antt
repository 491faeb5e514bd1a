-- ===== src/Store/Immutability.antt =====
-- immutable of internal/store/store.go and immutableChanges of internal/store/change.go: what a
-- transaction may not alter. Every complaint has the code CORE_INCONSISTENT.
use scp_harness.Base.{
  Bool, true, false, not, ◌&&◌, ◌||◌, List, [], ◌∷◌, lookup, all_entries, holds, ◌==◌, eq_ℤ, Text,
}
use scp_harness.Model.{
  State, Proposal, Attempt, Change, CiRun, ObjectiveRevision, option_closed, terminal, same,
  ids_discrete, Proposal-discrete, Claim-discrete, Artifact-discrete, CiRun-discrete,
  revisions_discrete, Stage-discrete, ChangeState-discrete, Kind-discrete, Operation-discrete,
  LogPath-discrete,
}

abbrev same_text : Text → Text → Bool
same_text = same ids_discrete

unfoldable pub change_kept : Change → Change → Bool
change_kept old n =
    (old.id == n.id)
    && (old.task_id == n.task_id)
    && (old.option_id == n.option_id)
    && (old.base_sha == n.base_sha)
    && same_text old.objective n.objective
    && eq_ℤ old.objective_revision n.objective_revision
    && (old.created == n.created)
    && (not (terminal old)
        || (same Stage-discrete old.stage n.stage && same ChangeState-discrete old.state n.state))

unfoldable pub run_kept : CiRun → CiRun → Bool
run_kept old n =
    (n.id == old.id)
    && (n.artifact_id == old.artifact_id)
    && (n.change_id == old.change_id)
    && ((old.started == 0)
        || ((old.started == n.started)
            && eq_ℤ old.timeout n.timeout
            && eq_ℤ old.lease n.lease
            && (old.config_hash == n.config_hash)
            && same ids_discrete old.command n.command
            && same LogPath-discrete old.stdout n.stdout
            && same LogPath-discrete old.stderr n.stderr))
    && ((old.ended == 0) || same CiRun-discrete old n)

-- `after[:len(before)]` equals `before`: the history only grows.
unfoldable pub revisions_kept : List ObjectiveRevision → List ObjectiveRevision → Bool
revisions_kept [] after = true
revisions_kept (r ∷ before) [] = false
revisions_kept (r ∷ before) (q ∷ after) =
    same revisions_discrete (r ∷ []) (q ∷ []) && revisions_kept before after

unfoldable pub changes_kept : State → State → Bool
changes_kept before after =
    all_entries (λ id old. holds (change_kept old) (lookup id after.changes)) before.changes
    && all_entries (λ id old. holds (run_kept old) (lookup id after.ci_runs)) before.ci_runs
    && revisions_kept before.objective_revisions after.objective_revisions

-- All but the status, the close reason and the balance of an option stays.
unfoldable pub option_kept : Proposal → Proposal → Bool
option_kept old n =
    same Proposal-discrete
      (record old { status = n.status; close_reason = n.close_reason; remaining = n.remaining }) n
    && not (option_closed old.status && not (option_closed n.status))

unfoldable pub attempt_kept : Attempt → Attempt → Bool
attempt_kept old n =
    same_text old.objective n.objective
    && (old.change_id == n.change_id)
    && (old.id == n.id)
    && (old.task_id == n.task_id)
    && same Operation-discrete old.operation n.operation
    && same Kind-discrete old.target_type n.target_type
    && (old.target_id == n.target_id)
    && (old.anchor_id == n.anchor_id)
    && same Kind-discrete old.anchor_type n.anchor_type
    && eq_ℤ old.lease n.lease
    && (old.sha == n.sha)
    && eq_ℤ old.revision n.revision
    && (old.actor == n.actor)
    && (old.profile == n.profile)

unfoldable pub immutable : State → State → Bool
immutable before after =
    changes_kept before after
    && all_entries (λ id old. holds (option_kept old) (lookup id after.options)) before.options
    && all_entries (λ id old. holds (same Artifact-discrete old) (lookup id after.artifacts))
        before.artifacts
    && all_entries (λ id old. holds (same Claim-discrete old) (lookup id after.claims))
        before.claims
    && all_entries (λ id old. holds (attempt_kept old) (lookup id after.attempts)) before.attempts
