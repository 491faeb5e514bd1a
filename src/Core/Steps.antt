-- ===== src/Core/Steps.antt =====
-- What an activity is and whether it may run: Anchor, runnable and explorationStep of
-- internal/core/runtime.go, ChangeStep, PromotionEvidence and changeActive of
-- internal/core/change.go.
use scp_harness.Base.{
  ℕ, ◌+◌, ℤ, pos, Bool, true, false, not, ◌&&◌, ◌||◌, Option, none, some, List, [], ◌∷◌, lookup,
  any_entry, length, Result, ok, err, panic, Code, ◌>>=◌, or_fail, ◌==◌, if◌then◌else◌, lt_ℤ,
}
use scp_harness.Model.{
  Key, State, Proposal, Account, Step, Exploration, Change, CiRun, Artifact, Review, Stage,
  Operation, Kind, Config, is_discussion, is_merge, is_artifact, is_option, is_queued, is_running,
  is_active, is_open, is_superseded, is_busy, is_approve, ci_queued, ci_passed, active_run,
  active_attempt, flagged, fail_stop, profile_of, is_blocked_for, latest_ci,
}
use scp_harness.Ledger.{lca}

-- `append([]string{}, b[from:]...)`, from an index on
abbrev pub from_index : {A : Type 0} → ℕ → List A → List A
from_index n [] = []
from_index ℕ.zero (x ∷ xs) = x ∷ xs
from_index (ℕ.suc n) (x ∷ xs) = from_index n xs

-- Anchor: the account that an activity is charged to.
unfoldable pub anchor : Step → State → Result Key
anchor p s =
    if is_discussion p.operation
    then ok p.task_id
    else if is_merge p.operation
    then lca p.participants s.accounts
    else if is_artifact p.target_type
    then (do a ← or_fail (lookup p.target_id s.artifacts) Code.core_inconsistent; ok a.anchor)
    else if is_option p.target_type
    then ok p.target_id
    else ok p.task_id

-- The test on the step's Change, if it has one.
abbrev pub change_waits : Option Change → Bool
change_waits none = true
change_waits (some ch) = is_queued ch.state || is_running ch.state

-- An Option that is still usable as an input: an open one, or a superseded one that a Change or a
-- discussion goes on with.
abbrev pub input_usable : Step → Option Proposal → Bool
input_usable p none = false
input_usable p (some o) =
    is_open o.status
    || not (
        (p.change_id == 0) && not (is_discussion p.operation) || not (is_superseded o.close_reason))

abbrev pub funded : Option Account → Bool
funded none = false
funded (some a) = lt_ℤ (pos 0) a.remaining

abbrev pub task_admits : Step → State → Bool
task_admits p s = elim (lookup p.task_id s.tasks) [
  | none ↦ false
  | some t ↦ is_active t.status && not (flagged p.task_id s.cancellations) && not (fail_stop s)
]

-- The worker profile and the runner that an activity needs; 0 where it needs none.
unfoldable pub needs : Config → Operation → Result (Key × Key)
needs cfg Operation.ci = ok (0, cfg.test_distro)
needs cfg Operation.promotion = ok (0, 0)
needs cfg op = do p ← profile_of op cfg; ok (p.id, cfg.distro)

-- `e == nil && s.Accounts[anchor] != nil && s.Accounts[anchor].Remaining > 0`
unfoldable pub anchor_funded : Result Key → State → Result Bool
anchor_funded (ok k) s = ok (funded (lookup k s.accounts))
anchor_funded (err _) s = ok false
anchor_funded panic s = panic

unfoldable pub runnable : Config → Step → State → Result Bool
runnable cfg p s =
    let admitted : Bool =
      change_waits (lookup p.change_id s.changes)
      && task_admits p s
      && ((p.option_id == 0) || input_usable p (lookup p.option_id s.options)) in
    if not admitted then ok false else do
      (profile, runner) ← needs cfg p.operation
      if is_blocked_for p.task_id profile runner s then ok false else anchor_funded (anchor p s) s

-- ChangeStep: the activity that a Change's stage stands for.
unfoldable pub change_step : Change → Option Step
change_step ch =
    let step : Operation → Kind → Key → Option Step = λ op kind target. some (record {
      change_id = ch.id;
      ci_run_id = 0;
      request_id = 0;
      task_id = ch.task_id;
      option_id = ch.option_id;
      operation = op;
      target_type = kind;
      target_id = target;
      participants = [];
    }) in
    elim ch.stage [
      | Stage.mutation ↦
          if ch.artifact_id == 0
          then step Operation.mutation Kind.option ch.option_id
          else step Operation.mutation Kind.artifact ch.artifact_id
      | Stage.ci ↦ step Operation.ci Kind.artifact ch.artifact_id
      | Stage.review ↦ step Operation.review Kind.artifact ch.artifact_id
      | Stage.promotion ↦ step Operation.promotion Kind.artifact ch.artifact_id
      | Stage.await_promotion ↦ none
      | Stage.other ↦ none
    ]

-- The last conjunction of PromotionEvidence, on the records that it finds.
abbrev pub evidence_agrees : Change → Option Artifact → Option CiRun → Option Review → State → Bool
evidence_agrees ch (some a) (some ci) (some review) s =
    (elim (latest_ci a.id s) [ none ↦ false | some l ↦ l.id == ch.ci_run_id ])
    && (a.change_id == ch.id)
    && (a.base_sha == ch.base_sha)
    && (ci.artifact_id == a.id)
    && ci_passed ci.status
    && (review.attempt_id == ch.review_attempt_id)
    && (review.ci_run_id == ci.id)
    && is_approve review.verdict
evidence_agrees ch _ _ _ s = false

abbrev pub unsettled_run : Key → CiRun → Bool
unsettled_run artifact r = (r.artifact_id == artifact) && (active_run r || ci_queued r.status)

unfoldable pub promotion_evidence : Change → State → Bool
promotion_evidence ch s =
    not (any_entry (λ _ r. unsettled_run ch.artifact_id r) s.ci_runs)
    && evidence_agrees ch (lookup ch.artifact_id s.artifacts) (lookup ch.ci_run_id s.ci_runs)
        (lookup ch.artifact_id s.reviews) s

abbrev pub pending_change : Key → Option Step → Bool
pending_change id none = false
pending_change id (some p) = p.change_id == id

-- changeActive
unfoldable pub change_active : Key → State → Bool
change_active id s =
    any_entry (λ _ a. (a.change_id == id) && active_attempt a) s.attempts
    || any_entry (λ _ r. (r.change_id == id) && active_run r) s.ci_runs
    || is_busy s.slot.state && pending_change id (lookup s.slot_task s.pending)

-- `for x.GroupIndex < len(x.Groups) && len(x.Groups[x.GroupIndex]) == 1 { x.GroupIndex++ }`, from
-- an index and the groups from it on.
unfoldable pub skip_singles : ℕ → List (List Key) → ℕ × List (List Key)
skip_singles i [] = (i, [])
skip_singles i (g ∷ gs) =
    let skipped = skip_singles (i + 1) gs in if length g == 1 then skipped else (i, g ∷ gs)

abbrev exploring : Key → Operation → Kind → Key → List Key → Step
exploring task op kind target participants = record {
  change_id = 0;
  ci_run_id = 0;
  request_id = 0;
  task_id = task;
  option_id = 0;
  operation = op;
  target_type = kind;
  target_id = target;
  participants = participants;
}

-- The end of explorationStep, on the group that comes next; an empty group is read out of range.
unfoldable pub synthesis : Key → List (List Key) → Result (Option Step)
synthesis task [] = ok none
synthesis task ([] ∷ groups) = panic
synthesis task ((k ∷ ks) ∷ groups) =
    ok (some (exploring task Operation.merge_synth Kind.option k (k ∷ ks)))

unfoldable pub merging_step : Key → Exploration → Result (Option Step × Exploration)
merging_step task x = do
  let (i, groups) = skip_singles x.group_index (from_index x.group_index x.groups)
  p ← synthesis task groups
  ok (p, record x { group_index = i })

-- explorationStep, with the exploration whose group index it moves.
unfoldable pub exploration_step : Key → Exploration → ℤ → Result (Option Step × Exploration)
exploration_step task x n =
    if lt_ℤ x.count n
    then ok (some (exploring task Operation.option_generation Kind.task task []), x)
    else elim x.batch [
      | [] ↦ ok (none, x)
      | k ∷ [] ↦ ok (none, x)
      | k ∷ j ∷ batch ↦
          if not x.judged
          then ok (some (exploring task Operation.merge_judge Kind.option k (k ∷ j ∷ batch)), x)
          else merging_step task x
    ]
