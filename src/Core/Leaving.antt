-- ===== src/Core/Leaving.antt =====
-- Proofs that Complete of internal/core/runtime.go, after the settlement, leaves the slot idle and
-- the books in order on each of its branches.
use scp_harness.Base.{
  ◌&&◌, ◌||◌, ◌≡◌, refl, ◌∙◌, Option, none, some, Bool, List, lookup, Code, deref, Yields,
  Yields-ok, Yields-bind, arith, Option-cases, inl, inr,
}
use scp_harness.Model.{
  Key, Time, State, Attempt, Step, Kind, Card, Capability, ClaimType, Payload, Config, has,
  is_aborted, is_discussion, is_merge, terminal, touch,
}
use scp_harness.Core.Claims.{add_claim}
use scp_harness.Core.Slots.{release, finish_activity, idle_slot}
use scp_harness.Core.Completions.{Completion, is_generation}
use scp_harness.Core.Outcomes.{is_returned, explored}
use scp_harness.Core.Completing.{
  change_halted, is_fatal, is_terminated, leave, reply, requests, closed_under, pause_closed,
  advance, proceed, report, finish_attempt, halt_or_conclude,
}
use scp_harness.Core.Books.{
  Books, Served, Served-refl, Served-trans, either-Served, audit-Served, set_change_now-Served,
  finish_activity-Served, release-Served, touch-Served, block_in-Served,
}
use scp_harness.Core.Serving.{Yields-after, either_call, add_claim-Served}
use scp_harness.Core.Requesting.{requests-Served}
use scp_harness.Core.Concluding.{explored-Served, explore_on-Served, changed-Served}

-- The state after an activity: the books are undisturbed and the slot is idle.
pub record Left (s s' : State) : Type 0 where
  pub served : Served s s'
  pub idle : s'.slot ≡ idle_slot

release-slot : (s : State) → (release s).slot ≡ idle_slot
unfolding release
release-slot s = refl

touch-slot : (k : Key) (s : State) → (touch k s).slot ≡ s.slot
unfolding touch
touch-slot k s = ground arith

finish-slot : (p : Step) (s : State) → (finish_activity p s).slot ≡ idle_slot
unfolding finish_activity
finish-slot p s = release-slot _

leave-Left : (v : Completion) (a : Attempt) (s s1 : State) → Served s s1 → Left s (leave v a s1)
unfolding leave
leave-Left v a s s1 h =
    let s2 : State = finish_activity v.step s1 in
    let finished : Served s1 s2 = finish_activity-Served v.step s1 h.books in
    record {
      served =
          Served-trans s s1 _ h
            (Served-trans s1 s2 _ finished (touch-Served a.task_id s2 finished.books));
      idle = touch-slot a.task_id s2 ∙ finish-slot v.step s1;
    }

reply-Left :
    (v : Completion) (card : Card) (a : Attempt) (valid : Bool) (s : State)
    → Books s
    → Yields (Left s) (reply v card a valid s)
unfolding reply
reply-Left v card a valid s h = Yields-after (Left s) (deref (lookup a.task_id s.tasks)) _ λ t.
    either_call (Left s) (valid && has Capability.claim_publish card) _ _
      (Yields-bind (Left s)
        (add_claim t card Kind.option a.target_id ClaimType.discussion_reply
          (Payload.text_object v.answer.text) a.sha a.revision s)
        _
        λ r e. Yields-ok (Left s) _ (
          leave-Left v a s r.1 (
            add_claim-Served t card Kind.option a.target_id ClaimType.discussion_reply
              (Payload.text_object v.answer.text) a.sha a.revision s h r e)))
      (Yields-ok (Left s) _ (leave-Left v a s _ (audit-Served t.id _ _ s h)))

pause_closed-Served : (a : Attempt) (s : State) → Books s → Served s (pause_closed a s)
unfolding pause_closed
pause_closed-Served a s h = elim (Option-cases (lookup a.change_id s.changes)) [
  | inl missing ↦ rw (pause_closed, missing) (Served-refl s h)
  | inr (ch, e) ↦
      rw (pause_closed, e)
        (either-Served (terminal ch) s s _ (Served-refl s h)
          (set_change_now-Served a.change_id ch _ _ _ s h))
]

advance-Served :
    (cfg : Config) (v : Completion) (card : Card) (a : Attempt) (valid : Bool) (t : Time)
    (ids : List Key) (s : State)
    → Books s
    → Yields (Served s) (advance cfg v card a valid t ids s)
unfolding advance
advance-Served cfg v card a valid t ids s h =
    either_call (Served s) (is_generation a.operation || is_merge a.operation) _ _
      (Yields-after (Served s) (deref (lookup a.task_id s.exploration)) _ λ x.
        Yields-bind (Served s) (explored a.operation v card a valid ids x s) _ λ r e.
          let first : Served s r.1 = explored-Served a.operation v card a valid ids x s h r e in
          λ s2 e2.
            Served-trans s r.1 s2 first
              (explore_on-Served cfg v.step a.task_id r.0 r.1 first.books s2 e2))
      (elim (Option-cases (lookup a.change_id s.changes)) [
        | inl missing ↦ rw missing (Yields-ok (Served s) s (Served-refl s h))
        | inr (ch, e) ↦ rw e (Yields-ok (Served s) _ (changed-Served v card a valid t ch s h))
      ])

proceed-Left :
    (cfg : Config) (locked : Bool) (v : Completion) (card : Card) (a : Attempt) (valid : Bool)
    (t : Time) (s : State)
    → Books s
    → Yields (Left s) (proceed cfg locked v card a valid t s)
unfolding proceed
proceed-Left cfg locked v card a valid t s h =
    let P : State → Type 0 = Left s in
    Yields-bind P (requests v card locked a valid s) _ λ r e.
      let first : Served s r.1 = requests-Served v card locked a valid s h r e in
      Yields-after P (closed_under a v.step r.1) _ λ over.
        either_call P over _ _
          (Yields-ok P _ (
            leave-Left v a s _
              (Served-trans s r.1 _ first (pause_closed-Served a r.1 first.books))))
          (Yields-bind P (advance cfg v card a valid t r.0 r.1) _ λ s2 e2. Yields-ok P _ (
            leave-Left v a s s2 (
              Served-trans s r.1 s2 first
                (advance-Served cfg v card a valid t r.0 r.1 first.books s2 e2))))

report-Served :
    (cfg : Config) (a : Attempt) (reason : Option Code) (s : State)
    → Books s
    → Served s (report cfg a reason s)
unfolding report
report-Served cfg a none s h = Served-refl s h
report-Served cfg a (some code) s h = block_in-Served code a.task_id a.profile cfg.distro _ s h

finish_attempt-Left :
    (cfg : Config) (locked : Bool) (v : Completion) (card : Card) (a : Attempt) (valid : Bool)
    (t : Time) (s : State)
    → Books s
    → Yields (Left s) (finish_attempt cfg locked v card a valid t s)
unfolding finish_attempt
finish_attempt-Left cfg locked v card a valid t s h =
    let reported : State = report cfg a v.reason s in
    let first : Served s reported = report-Served cfg a v.reason s h in
    let second : Served reported (release reported) = release-Served reported first.books in
    either_call (Left s) (is_terminated a.status && is_fatal v.reason) _ _
      (Yields-ok (Left s) _ (record {
        served = Served-trans s reported _ first (
            Served-trans reported (release reported) _ second
              (touch-Served a.task_id (release reported) second.books));
        idle = touch-slot a.task_id (release reported) ∙ release-slot reported;
      }))
      (either_call (Left s) (is_discussion a.operation) _ _
        (reply-Left v card a (valid && is_returned a.status) s h)
        (proceed-Left cfg locked v card a (valid && is_returned a.status) t s h))

pub halt_or_conclude-Left :
    (cfg : Config) (locked : Bool) (v : Completion) (card : Card) (a : Attempt) (valid : Bool)
    (t : Time) (s : State)
    → Books s
    → Yields (Left s) (halt_or_conclude cfg locked v card a valid t s)
unfolding halt_or_conclude
halt_or_conclude-Left cfg locked v card a valid t s h =
    let on = finish_attempt-Left cfg locked v card a valid t s h in
    elim (Option-cases (lookup a.change_id s.changes)) [
      | inl missing ↦ rw (halt_or_conclude, missing) on
      | inr (ch, e) ↦
          rw (halt_or_conclude, e)
            (either_call (Left s) (change_halted a ch s) _ _
              (Yields-ok (Left s) _ (
                leave-Left v a s _ (
                  either-Served (is_aborted ch.state) s s _ (Served-refl s h)
                    (set_change_now-Served a.change_id ch _ _ _ s h))))
              on)
    ]
