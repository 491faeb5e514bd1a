-- ===== src/Core/Continuing.antt =====
-- Proofs about what the requests of a worker, in Complete of internal/core/runtime.go, can do to the
-- exploration of a task: nothing, unless they close the task.
use scp_harness.Base.{
  ◌≡◌, refl, ap, ◌∙◌, Bool, true, false, not, ◌&&◌, ◌||◌, Option, none, some, List, [], ◌∷◌, ℤ, pos,
  lookup, insert, erase, any_entry, lookup-insert, lookup-erase, Result, ok, err, panic, Code, ◌==◌,
  fail_if, or_fail, deref, Yields, Yields-ok, Yields-bind, arith, Bool-cases, inl, inr, Text,
  if◌then◌else◌, lt_ℤ, sub64, ◌+◌,
}
use scp_harness.Model.{
  Key, State, Task, Claim, ClaimType, Payload, Kind, Card, Capability, Attempt, Step, Message,
  Exploration, CloseReason, exit, flagged, has, is_closed, is_open, is_active, is_option, is_task,
  is_fulfilled, is_discussion_type, is_resource_propose, blank_type, require, audit,
}
use scp_harness.Ledger.{move, transfer, add, min_root_after_transfer}
use scp_harness.Store.{is_subject}
use scp_harness.Core.Common.{create_option, close_proposal, set_changes}
use scp_harness.Core.Claims.{
  close_option, close_task, fulfil, add_claim, pending_on, discussion_rejected, qualifying_claim,
  retire, task_remaining,
}
use scp_harness.Core.Blockers.{code_name}
use scp_harness.Core.Completions.{
  Completion, tolerate, apply_claim, apply_claims, option_parent, hang_option, propose_one,
  propose_all,
}
use scp_harness.Core.Completing.{requests}
use scp_harness.Core.Serving.{Yields-after, either_call}
use scp_harness.Worker.{ClaimRequest}
use Prim.Native.String.{String}
use scp_harness.Core.Bearings.{
  IsClosedTask, Unmoved, Unmoved-frame, Unmoved-trans, still-IsClosedTask,
}

pub data Going (k : Key) (s s' : State) : Type 0 where
  on : Unmoved k s s' → Going k s s'
  over : IsClosedTask k s' → Going k s s'

pub Going-trans : (k : Key) (a b c : State) → Going k a b → Going k b c → Going k a c
Going-trans k a b c (Going.on f) (Going.on g) = Going.on (Unmoved-trans k a b c f g)
Going-trans k a b c (Going.over f) (Going.on g) = Going.over (still-IsClosedTask k b c g f)
Going-trans k a b c f (Going.over g) = Going.over g

module _ (k : Key) where
  stays :
      (s s' : State)
      → s'.exploration ≡ s.exploration
      → s'.cancellations ≡ s.cancellations
      → s'.tasks ≡ s.tasks
      → Going k s s'
  stays s s' ex ec et = Going.on (Unmoved-frame k s s' ex ec et)

  same : (s : State) → Going k s s
  same s = stays s s refl refl refl

  either-Going :
      (b : Bool) (s x y : State) → Going k s x → Going k s y → Going k s (if b then x else y)
  either-Going true s x y hx hy = hx
  either-Going false s x y hx hy = hy

  audit-Going :
      (task : Key) (code : String) (m : Message) (s : State) → Going k s (audit task code m s)
  unfolding audit
  audit-Going task code m s = stays s _ refl refl refl

  move-Unmoved : (from to : Key) (n : ℤ) (s : State) → Yields (Unmoved k s) (move from to n s)
  unfolding move transfer
  move-Unmoved from to n s =
      let P : State → Type 0 = Unmoved k s in
      Yields-after P (or_fail (lookup from s.accounts) Code.precondition_failed) _ λ a.
        Yields-after P (or_fail (lookup to s.accounts) Code.precondition_failed) _ λ b.
          Yields-after P
            (fail_if (not (a.task_id == b.task_id) || (from == to) || lt_ℤ n (pos 0))
              Code.precondition_failed)
            _
            λ u.
              Yields-after P
                (fail_if
                  ((a.parent == 0)
                    && lt_ℤ (pos 0) n
                    && lt_ℤ (sub64 a.remaining n) min_root_after_transfer)
                  Code.insufficient_resource)
                _
                λ v. Yields-after P (fail_if (lt_ℤ a.remaining n) Code.insufficient_resource) _ λ w.
                  Yields-after P (add b.remaining n) _
                    λ x. Yields-ok P _ (Unmoved-frame k s _ refl refl refl)

  close_option-Going : (id : Key) (s : State) → Yields (Going k s) (close_option id s)
  unfolding close_option
  close_option-Going id s =
      let P : State → Type 0 = Going k s in
      Yields-after P (or_fail (lookup id s.options) Code.not_found) _ λ o.
        Yields-after P (fail_if (not (is_open o.status)) Code.invalid_state) _ λ u.
          Yields-after P (deref (lookup o.task_id s.tasks)) _ λ t.
            Yields-after P (fail_if (not (is_active t.status)) Code.invalid_state) _ λ v.
              Yields-after P
                (fail_if (any_entry (λ _ l. l.anchor == id) s.leases) Code.precondition_failed) _
                λ w. Yields-after P (deref (lookup id s.accounts)) _ λ a.
                  Yields-bind P (move id o.parent a.remaining s) _ λ s1 e.
                    let moved : Going k s s1 =
                      Going.on (move-Unmoved id o.parent a.remaining s s1 e) in
                    let closed : State = record s1 {
                      options = insert id (close_proposal CloseReason.fulfilled o) s1.options;
                    } in
                    let idle : State = record closed { pending = erase o.task_id closed.pending } in
                    let waits : Bool = pending_on id (lookup o.task_id closed.pending) in
                    Yields-ok P (if waits then idle else closed) (
                      Going-trans k s s1 _ moved (
                        either-Going waits s1 idle closed (stays s1 idle refl refl refl)
                          (stays s1 closed refl refl refl)))

  -- What closeTask leaves of the task and of the exploration under a key.
  closed-Going :
      (id : Key) (t : Task) (x : Exploration) (s s' : State)
      → s'.exploration ≡ insert id x s.exploration
      → s'.cancellations ≡ erase id s.cancellations
      → s'.tasks ≡ insert id t s.tasks
      → is_closed t.status ≡ true
      → Going k s s'
  closed-Going id t x s s' ex ec et c = elim (Bool-cases (k == id)) [
    | inl here ↦ Going.over (t, ap (lookup k) et ∙ ground (arith, lookup-insert id k t s.tasks), c)
    | inr other ↦ Going.on (record {
      exploration = ap (lookup k) ex ∙ ground (arith, lookup-insert id k x s.exploration);
      cancelled = ap (flagged k) ec ∙ ground (arith, lookup-erase id k s.cancellations);
      status = λ u e. (u, ap (lookup k) et ∙ ground (arith, lookup-insert id k t s.tasks), refl);
    })
  ]

  close_task-Going : (id : Key) (s : State) → Yields (Going k s) (close_task id s)
  unfolding close_task set_changes
  close_task-Going id s =
      let P : State → Type 0 = Going k s in
      Yields-after P (or_fail (lookup id s.tasks) Code.not_found) _ λ t.
        Yields-after P (fail_if (is_closed t.status) Code.invalid_state) _ λ u.
          Yields-after P
            (fail_if (any_entry (λ _ l. l.task_id == id) s.leases) Code.core_inconsistent) _
            λ v. Yields-after P (deref (lookup id s.exploration)) _ λ x. Yields-ok P _ (
              closed-Going id (retire (task_remaining id s.accounts (pos 0)) t)
                (record x { done = true }) s _ refl refl refl refl)

  fulfil-Going :
      (card : Card) (kind : Kind) (id : Key) (s : State)
      → Yields (Going k s) (fulfil card kind id s)
  unfolding fulfil
  fulfil-Going card kind id s =
      let first : Bool = is_option kind && has Capability.option_complete card in
      Yields-bind (Going k s) (if first then close_option id s else ok s) _ λ s1 e1.
        let h1 : Going k s s1 =
          either_call (Going k s) first (close_option id s) (ok s) (close_option-Going id s)
            (Yields-ok (Going k s) s (same s)) s1 e1 in
        either_call (Going k s) (is_task kind && has Capability.task_complete card)
          (close_task id s1) (ok s1)
          (λ s2 e2. Going-trans k s s1 s2 h1 (close_task-Going id s1 s2 e2))
          (Yields-ok (Going k s) s1 h1)

  add_claim-Going :
      (t : Task) (card : Card) (kind : Kind) (id : Key) (typ : ClaimType) (payload : Payload)
      (sha : Key) (rev : ℤ) (s : State)
      → Yields (λ r. Going k s r.1) (add_claim t card kind id typ payload sha rev s)
  unfolding add_claim
  add_claim-Going t card kind id typ payload sha rev s =
      let P : Claim × State → Type 0 = λ r. Going k s r.1 in
      let named : State = record s { draws = s.draws + 2 } in
      let call : Result State = if is_fulfilled typ then fulfil card kind id named else ok named in
      Yields-after P
        (fail_if (is_discussion_type typ && discussion_rejected kind payload) Code.schema_invalid) _
        λ u.
          Yields-after P
            (if is_resource_propose typ
              then require (Capability.claim_publish ∷ Capability.resource_propose ∷ []) card
              else ok tt)
            _
            λ v.
              Yields-after P
                (fail_if (not (is_subject t.id kind id s) || blank_type typ)
                  Code.precondition_failed)
                _
                λ w. Yields-bind P call _ λ s1 e.
                  let second : Going k named s1 =
                    either_call (Going k named) (is_fulfilled typ) (fulfil card kind id named)
                      (ok named) (fulfil-Going card kind id named)
                      (Yields-ok (Going k named) named (same named)) s1 e in
                  Yields-ok P _ (
                    Going-trans k s named _ (stays s named refl refl refl)
                      (Going-trans k named s1 _ second (stays s1 _ refl refl refl)))

  tolerate-Going :
      (task : Key) (call : Result (Claim × State)) (s : State)
      → Yields (λ r. Going k s r.1) call
      → Yields (Going k s) (tolerate task call s)
  unfolding tolerate
  tolerate-Going task (ok (claim, s1)) s y = Yields-ok (Going k s) s1 (y (claim, s1) refl)
  tolerate-Going task (err e) s y =
      let s1 : State = audit task (code_name e) (Message.error_text e) s in
      either_call (Going k s) (exit e == 5) (err e) (ok s1) (λ x ex. absurd (ground arith))
        (Yields-ok (Going k s) s1 (audit-Going task (code_name e) (Message.error_text e) s))
  tolerate-Going task panic s y = λ x ex. absurd (ground arith)

  apply_claim-Going :
      (card : Card) (locked : Bool) (visible : Kind → Key → Bool) (a : Attempt) (t : Task)
      (r : ClaimRequest) (s : State)
      → Yields (Going k s) (apply_claim card locked visible a t r s)
  unfolding apply_claim
  apply_claim-Going card locked visible a t r s =
      either_call (Going k s)
        (not (has Capability.claim_publish card) || not (visible r.subject_type r.subject_id))
        (ok (audit t.id "CAPABILITY_DENIED" (Message.words "worker Claim denied") s)) _
        (Yields-ok (Going k s) _ (audit-Going t.id _ _ s))
        (either_call (Going k s) (qualifying_claim card r.subject_type r.type && not locked)
          (ok (audit t.id "BLOCKED" (Message.words "worker completion Claim") s)) _
          (Yields-ok (Going k s) _ (audit-Going t.id _ _ s))
          (tolerate-Going t.id _ s (
            add_claim-Going t card r.subject_type r.subject_id r.type r.payload a.sha a.revision
              s)))

  apply_claims-Going :
      (card : Card) (locked : Bool) (visible : Kind → Key → Bool) (a : Attempt)
      (rs : List ClaimRequest) (s : State)
      → Yields (Going k s) (apply_claims card locked visible a rs s)
  unfolding apply_claims
  apply_claims-Going card locked visible a [] s = Yields-ok (Going k s) s (same s)
  apply_claims-Going card locked visible a (r ∷ rs) s =
      Yields-after (Going k s) (deref (lookup a.task_id s.tasks)) _ λ t.
        Yields-bind (Going k s) (apply_claim card locked visible a t r s) _ λ s1 e1 s2 e2.
          Going-trans k s s1 s2 (apply_claim-Going card locked visible a t r s s1 e1)
            (apply_claims-Going card locked visible a rs s1 s2 e2)

  hang_option-Going :
      (card : Card) (a : Attempt) (t : Task) (text : Text) (place : Option (Key × List Key))
      (s : State)
      → Going k s (hang_option card a t text place s).1
  unfolding hang_option create_option
  hang_option-Going card a t text none s = audit-Going t.id _ _ s
  hang_option-Going card a t text (some (parent, parents)) s = stays s _ refl refl refl

  propose_one-Going :
      (card : Card) (a : Attempt) (p : Step) (t : Task) (text : Text) (s : State)
      → Yields (λ r. Going k s r.1) (propose_one card a p t text s)
  unfolding propose_one
  propose_one-Going card a p t text s =
      let P : List Key × State → Type 0 = λ r. Going k s r.1 in
      either_call P (not (has Capability.option_propose card)) (ok _) _
        (Yields-ok P ([], audit t.id "CAPABILITY_DENIED" (Message.words "worker Option denied") s)
          (audit-Going t.id _ _ s))
        (Yields-after P (option_parent a p s) _ λ place.
          Yields-ok P (hang_option card a t text place s) (hang_option-Going card a t text place s))

  propose_all-Going :
      (card : Card) (a : Attempt) (p : Step) (t : Task) (texts : List Text) (s : State)
      → Yields (λ r. Going k s r.1) (propose_all card a p t texts s)
  unfolding propose_all
  propose_all-Going card a p t [] s = Yields-ok (λ r. Going k s r.1) ([], s) (same s)
  propose_all-Going card a p t (text ∷ texts) s =
      let P : List Key × State → Type 0 = λ r. Going k s r.1 in
      Yields-bind P (propose_one card a p t text s) _ λ r1 e1.
        Yields-bind P (propose_all card a p t texts r1.1) _ λ r2 e2. Yields-ok P _ (
          Going-trans k s r1.1 r2.1 (propose_one-Going card a p t text s r1 e1)
            (propose_all-Going card a p t texts r1.1 r2 e2))

  pub requests-Going :
      (v : Completion) (card : Card) (locked : Bool) (a : Attempt) (valid : Bool) (s : State)
      → Yields (λ r. Going k s r.1) (requests v card locked a valid s)
  unfolding requests
  requests-Going v card locked a true s =
      let P : List Key × State → Type 0 = λ r. Going k s r.1 in
      Yields-bind P (apply_claims card locked v.visible a v.answer.claims s) _ λ s1 e1.
        let first = apply_claims-Going card locked v.visible a v.answer.claims s s1 e1 in
        Yields-after P (deref (lookup a.task_id s1.tasks)) _ λ t.
          either_call P (is_closed t.status) (ok ([], s1))
            (propose_all card a v.step t v.answer.options s1) (Yields-ok P ([], s1) first)
            (λ r e.
              Going-trans k s s1 r.1 first
                (propose_all-Going card a v.step t v.answer.options s1 r e))
  requests-Going v card locked a false s =
      Yields-ok (λ r. Going k s r.1) _ (audit-Going a.task_id _ _ s)
