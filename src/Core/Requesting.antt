-- ===== src/Core/Requesting.antt =====
-- Proofs that the loops of Complete, internal/core/runtime.go, over what a worker asks for do not
-- disturb the books.
use scp_harness.Base.{
  ◌&&◌, ◌||◌, ℤ, ◌≡◌, ◌≢◌, refl, Option, none, some, Bool, true, false, not, List, [], ◌∷◌, lookup,
  Every-lookup, Result, ok, err, panic, ◌==◌, deref, deref-ok, Yields, Yields-ok, Yields-bind,
  arith, Text,
}
use scp_harness.Model.{
  Key, State, Task, Claim, Kind, Card, Capability, Attempt, Step, Message, Relation, exit, has,
  is_closed, audit,
}
use scp_harness.Core.Claims.{qualifying_claim}
use scp_harness.Core.Blockers.{code_name}
use scp_harness.Core.Common.{create_option}
use scp_harness.Core.Completions.{
  Completion, tolerate, apply_claim, apply_claims, option_parent, hang_option, propose_one,
  propose_all,
}
use scp_harness.Core.Completing.{requests}
use scp_harness.Core.Books.{
  Books, Served, Served-refl, Served-trans, audit-Served, create_option-Served,
}
use scp_harness.Core.Serving.{Yields-after, either_call, add_claim-Served}
use scp_harness.Worker.{ClaimRequest}
use Prim.Native.String.{String}

tolerate-Served :
    (task : Key) (call : Result (Claim × State)) (s : State)
    → Books s
    → Yields (λ r. Served s r.1) call
    → Yields (Served s) (tolerate task call s)
unfolding tolerate
tolerate-Served task (ok (claim, s')) s h y = Yields-ok (Served s) s' (y (claim, s') refl)
tolerate-Served task (err e) s h y =
    let s' : State = audit task (code_name e) (Message.error_text e) s in
    either_call (Served s) (exit e == 5) (err e) (ok s') (λ x ex. absurd (ground arith))
      (Yields-ok (Served s) s' (audit-Served task (code_name e) (Message.error_text e) s h))
tolerate-Served task panic s h y = λ x ex. absurd (ground arith)

apply_claim-Served :
    (card : Card) (locked : Bool) (visible : Kind → Key → Bool) (a : Attempt) (t : Task)
    (r : ClaimRequest) (s : State)
    → Books s
    → Yields (Served s) (apply_claim card locked visible a t r s)
unfolding apply_claim
apply_claim-Served card locked visible a t r s h =
    either_call (Served s)
      (not (has Capability.claim_publish card) || not (visible r.subject_type r.subject_id))
      (ok (audit t.id "CAPABILITY_DENIED" (Message.words "worker Claim denied") s)) _
      (Yields-ok (Served s) _ (audit-Served t.id _ _ s h))
      (either_call (Served s) (qualifying_claim card r.subject_type r.type && not locked)
        (ok (audit t.id "BLOCKED" (Message.words "worker completion Claim") s)) _
        (Yields-ok (Served s) _ (audit-Served t.id _ _ s h))
        (tolerate-Served t.id _ s h (
          add_claim-Served t card r.subject_type r.subject_id r.type r.payload a.sha a.revision s
            h)))

apply_claims-Served :
    (card : Card) (locked : Bool) (visible : Kind → Key → Bool) (a : Attempt)
    (rs : List ClaimRequest) (s : State)
    → Books s
    → Yields (Served s) (apply_claims card locked visible a rs s)
unfolding apply_claims
apply_claims-Served card locked visible a [] s h = Yields-ok (Served s) s (Served-refl s h)
apply_claims-Served card locked visible a (r ∷ rs) s h =
    Yields-after (Served s) (deref (lookup a.task_id s.tasks)) _ λ t.
      Yields-bind (Served s) (apply_claim card locked visible a t r s) _ λ s1 e1.
        let first = apply_claim-Served card locked visible a t r s h s1 e1 in
        λ s2 e2.
          Served-trans s s1 s2 first
            (apply_claims-Served card locked visible a rs s1 first.books s2 e2)

-- A task that was found stands under its id, and stays known.
abbrev pub IsKnown : Task → State → Type 0
IsKnown t s = lookup t.id s.tasks ≢ none

pub found-IsKnown :
    (k : Key) (s : State) {t : Task} → Books s → lookup k s.tasks ≡ some t → IsKnown t s
found-IsKnown k s {t} h e =
    let same : t.id ≡ k = Every-lookup (λ k (t : Task). t.id ≡ k) k s.tasks h.keyed e in
    λ missing. ground arith

create_option-tasks :
    (t : Task) (text : Text) (parent actor sha : Key) (rev : ℤ) (parents : List Key)
    (relation : Relation) (s : State)
    → (create_option t text parent actor sha rev parents relation s).1.tasks ≡ s.tasks
unfolding create_option
create_option-tasks t text parent actor sha rev parents relation s = refl

audit-tasks :
    (k : Key) (s : State) (code : String) (m : Message) → (audit k code m s).tasks ≡ s.tasks
unfolding audit
audit-tasks k s code m = refl

hang_option-Served :
    (card : Card) (a : Attempt) (t : Task) (text : Text) (place : Option (Key × List Key))
    (s : State)
    → Books s
    → IsKnown t s
    → Served s (hang_option card a t text place s).1
      × ((hang_option card a t text place s).1.tasks ≡ s.tasks)
unfolding hang_option
hang_option-Served card a t text none s h known =
    (audit-Served t.id _ _ s h, audit-tasks t.id s _ _)
hang_option-Served card a t text (some (parent, parents)) s h known = (
  create_option-Served t text parent card.id a.sha a.revision parents Relation.propose s h known,
  create_option-tasks t text parent card.id a.sha a.revision parents Relation.propose s,
)

propose_one-Served :
    (card : Card) (a : Attempt) (p : Step) (t : Task) (text : Text) (s : State)
    → Books s
    → IsKnown t s
    → Yields (λ r. Served s r.1 × (r.1.tasks ≡ s.tasks)) (propose_one card a p t text s)
unfolding propose_one
propose_one-Served card a p t text s h known =
    let P : List Key × State → Type 0 = λ r. Served s r.1 × (r.1.tasks ≡ s.tasks) in
    either_call P (not (has Capability.option_propose card)) (ok _) _
      (Yields-ok P ([], audit t.id "CAPABILITY_DENIED" (Message.words "worker Option denied") s)
        (audit-Served t.id _ _ s h, audit-tasks t.id s _ _))
      (Yields-after P (option_parent a p s) _ λ place.
        Yields-ok P (hang_option card a t text place s)
          (hang_option-Served card a t text place s h known))

propose_all-Served :
    (card : Card) (a : Attempt) (p : Step) (t : Task) (texts : List Text) (s : State)
    → Books s
    → IsKnown t s
    → Yields (λ r. Served s r.1) (propose_all card a p t texts s)
unfolding propose_all
propose_all-Served card a p t [] s h known = Yields-ok (λ r. Served s r.1) ([], s) (Served-refl s h)
propose_all-Served card a p t (text ∷ texts) s h known =
    let P : List Key × State → Type 0 = λ r. Served s r.1 in
    Yields-bind P (propose_one card a p t text s) _ λ r1 e1.
      let (first, same) = propose_one-Served card a p t text s h known r1 e1 in
      let known1 : IsKnown t r1.1 = rw same known in
      Yields-bind P (propose_all card a p t texts r1.1) _ λ r2 e2. Yields-ok P _ (
        Served-trans s r1.1 r2.1 first
          (propose_all-Served card a p t texts r1.1 first.books known1 r2 e2))

pub requests-Served :
    (v : Completion) (card : Card) (locked : Bool) (a : Attempt) (valid : Bool) (s : State)
    → Books s
    → Yields (λ r. Served s r.1) (requests v card locked a valid s)
unfolding requests
requests-Served v card locked a true s h =
    let P : List Key × State → Type 0 = λ r. Served s r.1 in
    Yields-bind P (apply_claims card locked v.visible a v.answer.claims s) _ λ s1 e1.
      let first = apply_claims-Served card locked v.visible a v.answer.claims s h s1 e1 in
      Yields-bind P (deref (lookup a.task_id s1.tasks)) _ λ t et.
        let known =
          found-IsKnown a.task_id s1 first.books (deref-ok (lookup a.task_id s1.tasks) et) in
        either_call P (is_closed t.status) (ok ([], s1))
          (propose_all card a v.step t v.answer.options s1) (Yields-ok P ([], s1) first)
          (λ r e.
            Served-trans s s1 r.1 first
              (propose_all-Served card a v.step t v.answer.options s1 first.books known r e))
requests-Served v card locked a false s h =
    Yields-ok (λ r. Served s r.1) _ (audit-Served a.task_id _ _ s h)
