-- ===== src/Core/Vacating.antt =====
-- Proofs that Complete of internal/core/runtime.go leaves the slot idle on each of its branches,
-- whatever state it starts from.
use scp_harness.Base.{
  ◌&&◌, ◌≡◌, refl, ◌∙◌, Bool, not, lookup, Code, deref, or_fail, fail_if, Yields, Yields-bind, ok,
  Yields-ok, arith, Option-cases, inl, inr, ◌==◌,
}
use scp_harness.Model.{
  Key, Time, State, Attempt, Step, Kind, Card, Capability, ClaimType, Payload, Config, has,
  is_discussion, touch, active_attempt, card_for, now,
}
use scp_harness.Core.Claims.{add_claim}
use scp_harness.Core.Slots.{release, finish_activity, idle_slot}
use scp_harness.Core.Completions.{Completion, card_suffices, end_attempt}
use scp_harness.Core.Outcomes.{is_returned}
use scp_harness.Core.Completing.{
  change_halted, is_fatal, is_terminated, leave, reply, requests, closed_under, advance, proceed,
  interrupted, overrule, report, finish_attempt, halt_or_conclude, end_in, complete_in,
}
use scp_harness.Core.Serving.{Yields-after, either_call}

abbrev pub Idle : State → Type 0
Idle s = s.slot ≡ idle_slot

pub release-Idle : (s : State) → Idle (release s)
unfolding release
release-Idle s = refl

touch-slot : (k : Key) (s : State) → (touch k s).slot ≡ s.slot
unfolding touch
touch-slot k s = ground arith

pub touch-Idle : (k : Key) (s : State) → Idle s → Idle (touch k s)
touch-Idle k s h = touch-slot k s ∙ h

pub finish_activity-Idle : (p : Step) (s : State) → Idle (finish_activity p s)
unfolding finish_activity
finish_activity-Idle p s = release-Idle _

pub leave-Idle : (v : Completion) (a : Attempt) (s : State) → Idle (leave v a s)
unfolding leave
leave-Idle v a s = touch-Idle a.task_id (finish_activity v.step s) (finish_activity-Idle v.step s)

left-Idle : (v : Completion) (a : Attempt) (s : State) → Yields Idle (ok (leave v a s))
left-Idle v a s = Yields-ok Idle (leave v a s) (leave-Idle v a s)

reply-Idle :
    (v : Completion) (card : Card) (a : Attempt) (valid : Bool) (s : State)
    → Yields Idle (reply v card a valid s)
unfolding reply
reply-Idle v card a valid s = Yields-after Idle (deref (lookup a.task_id s.tasks)) _ λ t.
    either_call Idle (valid && has Capability.claim_publish card) _ _
      (Yields-after Idle
        (add_claim t card Kind.option a.target_id ClaimType.discussion_reply
          (Payload.text_object v.answer.text) a.sha a.revision s)
        _ λ r. left-Idle v a r.1)
      (left-Idle v a _)

proceed-Idle :
    (cfg : Config) (locked : Bool) (v : Completion) (card : Card) (a : Attempt) (valid : Bool)
    (t : Time) (s : State)
    → Yields Idle (proceed cfg locked v card a valid t s)
unfolding proceed
proceed-Idle cfg locked v card a valid t s =
    Yields-after Idle (requests v card locked a valid s) _ λ r.
      Yields-after Idle (closed_under a v.step r.1) _ λ over.
        either_call Idle over _ _ (left-Idle v a _)
          (Yields-after Idle (advance cfg v card a valid t r.0 r.1) _ λ s2. left-Idle v a s2)

finish_attempt-Idle :
    (cfg : Config) (locked : Bool) (v : Completion) (card : Card) (a : Attempt) (valid : Bool)
    (t : Time) (s : State)
    → Yields Idle (finish_attempt cfg locked v card a valid t s)
unfolding finish_attempt
finish_attempt-Idle cfg locked v card a valid t s =
    let reported : State = report cfg a v.reason s in
    either_call Idle (is_terminated a.status && is_fatal v.reason) _ _
      (Yields-ok Idle (touch a.task_id (release reported))
        (touch-Idle a.task_id (release reported) (release-Idle reported)))
      (either_call Idle (is_discussion a.operation) _ _
        (reply-Idle v card a (valid && is_returned a.status) s)
        (proceed-Idle cfg locked v card a (valid && is_returned a.status) t s))

halt_or_conclude-Idle :
    (cfg : Config) (locked : Bool) (v : Completion) (card : Card) (a : Attempt) (valid : Bool)
    (t : Time) (s : State)
    → Yields Idle (halt_or_conclude cfg locked v card a valid t s)
unfolding halt_or_conclude
halt_or_conclude-Idle cfg locked v card a valid t s =
    let on = finish_attempt-Idle cfg locked v card a valid t s in
    elim (Option-cases (lookup a.change_id s.changes)) [
      | inl missing ↦ rw (halt_or_conclude, missing) on
      | inr (ch, e) ↦
          rw (halt_or_conclude, e)
            (either_call Idle (change_halted a ch s) _ _ (left-Idle v a _) on)
    ]

pub complete_in-Idle :
    (cfg : Config) (locked : Bool) (v : Completion) (s : State)
    → Yields (λ r. Idle r.1) (complete_in cfg locked v s)
unfolding complete_in
complete_in-Idle cfg locked v s =
    let P : Unit {0} × State → Type 0 = λ r. Idle r.1 in
    Yields-after P (or_fail (lookup v.attempt_id s.attempts) Code.core_inconsistent) _ λ a.
      Yields-after P (fail_if (not (active_attempt a)) Code.core_inconsistent) _ λ u.
        Yields-after P (card_for a.profile cfg) _ λ card.
          Yields-after P (fail_if (not (card.id == a.actor)) Code.core_inconsistent) _ λ w.
            Yields-after P (end_in v a s) _ λ s1.
              let o : Attempt × State = overrule v.attempt_id (end_attempt v (now s) a) s1 in
              let valid : Bool =
                v.valid && card_suffices a.operation card && not (interrupted a s1) in
              Yields-bind P (halt_or_conclude cfg locked v card o.0 valid (now s) o.1) _ λ s2 e2.
                Yields-ok P (tt, s2)
                  (halt_or_conclude-Idle cfg locked v card o.0 valid (now s) o.1 s2 e2)
