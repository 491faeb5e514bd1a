-- ===== src/Core/Completions.antt =====
-- What a finished Attempt brings: the Completion of internal/core/runtime.go, and the loops of
-- Complete over the claims and the options that a worker asks for.
use scp_harness.Base.{
  ℤ, Bool, true, false, not, ◌&&◌, ◌||◌, Option, none, some, List, [], ◌∷◌, ◌++◌, lookup, insert,
  Result, ok, err, panic, Code, ◌>>=◌, deref, ◌==◌, if◌then◌else◌, Text,
}
use scp_harness.Model.{
  Key, Time, State, Task, Step, Change, Claim, Artifact, Attempt, AttemptStatus, LogPath, Kind,
  Message, Card, Capability, Operation, Relation, exit, has, is_open, is_mutation_op, is_review,
  audit,
}
use scp_harness.Core.Common.{create_option}
use scp_harness.Core.Claims.{add_claim, qualifying_claim}
use scp_harness.Core.Blockers.{code_name}
use scp_harness.Worker.{Answer, ClaimRequest}

-- A Reason is always the code of an error, or "".
pub record Completion : Type 0 where
  pub attempt_id : Key
  pub step : Step
  pub artifact : Option Artifact
  pub answer : Answer
  pub valid : Bool
  pub status : AttemptStatus
  pub reason : Option Code
  pub exit_code : Option ℤ
  pub stdout : LogPath
  pub stderr : LogPath
  pub elapsed : ℤ
  pub uncertain : Bool
  pub visible : Kind → Key → Bool

abbrev pub is_generation : Operation → Bool
is_generation Operation.option_generation = true
is_generation _ = false

abbrev pub is_synth : Operation → Bool
is_synth Operation.merge_synth = true
is_synth _ = false

-- Without the capability that its operation takes, no answer is valid.
abbrev pub card_suffices : Operation → Card → Bool
card_suffices op card = not (
    is_review op && not (has Capability.review_decide card)
    || is_generation op && not (has Capability.option_propose card)
    || is_synth op && not (has Capability.option_merge card))

-- `ch.ArtifactID = id; ch.CIRunID = ""; ch.ReviewAttemptID = ""`
unfoldable pub bind_artifact : Key → Key → State → State
bind_artifact change id s = elim (lookup change s.changes) [
  | none ↦ s
  | some ch ↦
      let ch' : Change = record ch { artifact_id = id; ci_run_id = 0; review_attempt_id = 0 } in
      record s { changes = insert change ch' s.changes }
]

-- The artifact of a mutation is kept, and its Change begins anew from it.
unfoldable pub keep_artifact : Option Artifact → Attempt → State → State
keep_artifact none a s = s
keep_artifact (some f) a s =
    let f' : Artifact = record f { change_id = a.change_id } in
    if is_mutation_op a.operation
    then bind_artifact a.change_id f.id (record s { artifacts = insert f.id f' s.artifacts })
    else s

abbrev pub produced : Option Artifact → Attempt → Option Key
produced none a = a.artifact_id
produced (some f) a = if is_mutation_op a.operation then some f.id else a.artifact_id

-- The Attempt with how it ended, at a time.
unfoldable pub end_attempt : Completion → Time → Attempt → Attempt
end_attempt v t a = record a {
  artifact_id = produced v.artifact a;
  stdout = v.stdout;
  stderr = v.stderr;
  status = v.status;
  exit_code = v.exit_code;
  ended = some t;
  reason = elim v.reason [ none ↦ a.reason | some code ↦ some (code_name code) ];
}

-- An error of addClaim, which has changed nothing but what the state draws from: the worst end the
-- completion, the others are only reported.
unfoldable pub tolerate : Key → Result (Claim × State) → State → Result State
tolerate task (ok (claim, s')) s = ok s'
tolerate task (err e) s =
    if exit e == 5 then err e else ok (audit task (code_name e) (Message.error_text e) s)
tolerate task panic s = panic

-- One round of the loop over the claims. `locked` tells whether the task's gate can be taken.
unfoldable pub apply_claim :
    Card → Bool → (Kind → Key → Bool) → Attempt → Task → ClaimRequest → State → Result State
apply_claim card locked visible a t r s =
    if not (has Capability.claim_publish card) || not (visible r.subject_type r.subject_id)
    then ok (audit t.id "CAPABILITY_DENIED" (Message.words "worker Claim denied") s)
    else if qualifying_claim card r.subject_type r.type && not locked
    then ok (audit t.id "BLOCKED" (Message.words "worker completion Claim") s)
    else tolerate t.id
        (add_claim t card r.subject_type r.subject_id r.type r.payload a.sha a.revision s) s

unfoldable pub apply_claims :
    Card → Bool → (Kind → Key → Bool) → Attempt → List ClaimRequest → State → Result State
apply_claims card locked visible a [] s = ok s
apply_claims card locked visible a (r ∷ rs) s = do
  t ← deref (lookup a.task_id s.tasks)
  s' ← apply_claim card locked visible a t r s
  apply_claims card locked visible a rs s'

-- Where a new option hangs, if its semantic anchor is still open.
unfoldable pub option_parent : Attempt → Step → State → Result (Option (Key × List Key))
option_parent a p s = if p.option_id == 0 then ok (some (a.task_id, [])) else do
  o ← deref (lookup p.option_id s.options)
  ok (if is_open o.status then some (p.option_id, p.option_id ∷ []) else none)

unfoldable pub hang_option :
    Card → Attempt → Task → Text → Option (Key × List Key) → State → List Key × State
hang_option card a t text none s =
    ([], audit t.id "INVALID_STATE" (Message.words "closed semantic anchor") s)
hang_option card a t text (some (parent, parents)) s =
    let (o, s') = create_option t text parent card.id a.sha a.revision parents Relation.propose s in
    (o.id ∷ [], s')

-- One round of the loop over the options, with the ids of those made.
unfoldable pub propose_one : Card → Attempt → Step → Task → Text → State → Result (List Key × State)
propose_one card a p t text s =
    if not (has Capability.option_propose card)
    then ok ([], audit t.id "CAPABILITY_DENIED" (Message.words "worker Option denied") s)
    else (do place ← option_parent a p s; ok (hang_option card a t text place s))

unfoldable pub propose_all :
    Card → Attempt → Step → Task → List Text → State → Result (List Key × State)
propose_all card a p t [] s = ok ([], s)
propose_all card a p t (text ∷ texts) s = do
  (made, s') ← propose_one card a p t text s
  (rest, s'') ← propose_all card a p t texts s'
  ok (made ++ rest, s'')
