-- ===== src/Core/ChangeMoves.antt =====
-- Proofs about ChangeAction of internal/core/change.go, over all its commands.
use scp_harness.Base.{
  ok-inj, ◌≡◌, ◌≢◌, refl, ap, sym, ◌∙◌, subst, ◌⊎◌, Bool, true, false, not, ◌||◌, some, lookup,
  insert, lookup-insert_self, ok, Result-cases, Option-cases, Bool-cases, inl, inr, arith,
}
use scp_harness.Model.{
  Key, State, Change, ChangeState, Stage, terminal, flagged, Message, touch, audit, set_change, now,
  is_queued, is_await_promotion,
}
use Prim.Native.String.{String}
use scp_harness.Core.Common.{set_change_now}
use scp_harness.Core.Steps.{promotion_evidence, change_active}
use scp_harness.Core.Changes.{
  ChangeCommand, interrupts_activity, change_admits, halt_change, rewind, requeue_change,
  promote_change, switch_change, change_action_in, command_event,
}
use scp_harness.Core.Rewinding.{
  OwnsArtifact, rewind_resume, rewind_retry_ci, rewind_rework, rewind_retry_review,
  requeue_change-Switched,
}

-- What each command asks of a Change, and where it takes it.
abbrev pub Move : ChangeCommand → Key → State → Change → Change → Type 0
Move ChangeCommand.pause id s ch n = (n.stage ≡ ch.stage) × (n.state ≡ ChangeState.paused)
Move ChangeCommand.abort id s ch n = (n.stage ≡ ch.stage) × (n.state ≡ ChangeState.aborted)
Move ChangeCommand.promote id s ch n =
    (ch.stage ≡ Stage.await_promotion)
    × (ch.state ≡ ChangeState.queued)
    × (promotion_evidence ch s ≡ true)
    × (n.stage ≡ Stage.promotion)
    × (n.state ≡ ChangeState.queued)
Move ChangeCommand.resume id s ch n =
    ((ch.state ≡ ChangeState.paused) ⊎ (ch.state ≡ ChangeState.blocked))
    × (n.stage ≡ ch.stage)
    × (n.state ≡ ChangeState.queued)
Move ChangeCommand.retry_ci id s ch n =
    (ch.state ≢ ChangeState.stale)
    × OwnsArtifact id ch s
    × (n.stage ≡ Stage.ci)
    × (n.state ≡ ChangeState.queued)
Move ChangeCommand.retry_review id s ch n =
    (ch.state ≢ ChangeState.stale)
    × OwnsArtifact id ch s
    × (n.stage ≡ Stage.review)
    × (n.state ≡ ChangeState.queued)
Move ChangeCommand.rework id s ch n =
    (ch.state ≢ ChangeState.stale)
    × OwnsArtifact id ch s
    × (n.stage ≡ Stage.mutation)
    × (n.state ≡ ChangeState.queued)
Move ChangeCommand.unknown id s ch n = ⊥

-- The new record of the Change is stored under its key, after one of the moves.
abbrev Switched : ChangeCommand → Key → State → Change → State → Type 0
Switched command id s ch s' =
    (n : Change) × (s'.changes ≡ insert id n s.changes) × Move command id s ch n

promote_change-Switched :
    (id : Key) (ch : Change) (s : State) {s' : State}
    → promote_change id ch s ≡ ok s'
    → Switched ChangeCommand.promote id s ch s'
unfolding promote_change set_change_now set_change
promote_change-Switched id ch s {s'} h =
    let asked : Bool =
      not (is_await_promotion ch.stage)
      || not (is_queued ch.state)
      || not (promotion_evidence ch s) in
    elim (Bool-cases asked) [
      | inl refused ↦ absurd (ground arith)
      | inr met ↦
          let made : set_change_now id ch Stage.promotion ChangeState.queued "" s ≡ s' =
            ground arith in
          (
            set_change Stage.promotion ChangeState.queued "" (now s) ch,
            ap (λ (x : State). x.changes) (sym made),
            (ground arith, ground arith, ground arith, refl, refl),
          )
    ]

halt_change-Switched :
    (state : ChangeState) (id : Key) (ch : Change) (s : State) {s' : State}
    → ok (halt_change state id ch s) ≡ ok s'
    → (n : Change) × (s'.changes ≡ insert id n s.changes) × (n.stage ≡ ch.stage) × (n.state ≡ state)
unfolding halt_change set_change_now set_change
halt_change-Switched state id ch s h = (
  set_change ch.stage state "" (now s) ch,
  ap (λ (x : State). x.changes) (sym (ok-inj h)),
  refl,
  refl,
)

module _ (id : Key) (ch : Change) (s : State) where
  -- The three retries, and a resumption, from what they rewind to.
  queued_from :
      (command : ChangeCommand) {s' : State}
      → requeue_change command id ch s ≡ ok s'
      → ((back : Change) (n : Change)
          → rewind command id ch s ≡ ok back
          → ch.state ≢ ChangeState.stale
          → n.stage ≡ back.stage
          → n.state ≡ ChangeState.queued
          → Move command id s ch n)
      → Switched command id s ch s'
  queued_from command h f =
      let (back, n, eb, fresh, at, stage, state) = requeue_change-Switched command id ch s h in
      (n, at, f back n eb fresh stage state)

  switch_change-Switched :
      (command : ChangeCommand) {s' : State}
      → switch_change command id ch s ≡ ok s'
      → Switched command id s ch s'
  unfolding switch_change
  switch_change-Switched ChangeCommand.pause h =
      let (n, at, stage, state) = halt_change-Switched ChangeState.paused id ch s h in
      (n, at, (stage, state))
  switch_change-Switched ChangeCommand.abort h =
      let (n, at, stage, state) = halt_change-Switched ChangeState.aborted id ch s h in
      (n, at, (stage, state))
  switch_change-Switched ChangeCommand.promote h = promote_change-Switched id ch s h
  switch_change-Switched ChangeCommand.resume h =
      queued_from ChangeCommand.resume h λ back n eb fresh stage state.
        let (was, same) = rewind_resume id ch s eb in
        (was, stage ∙ ap (λ (x : Change). x.stage) same, state)
  switch_change-Switched ChangeCommand.retry_ci h =
      queued_from ChangeCommand.retry_ci h λ back n eb fresh stage state.
        let (own, to) = rewind_retry_ci id ch s eb in (fresh, own, stage ∙ to, state)
  switch_change-Switched ChangeCommand.retry_review h =
      queued_from ChangeCommand.retry_review h λ back n eb fresh stage state.
        let (own, to) = rewind_retry_review id ch s eb in (fresh, own, stage ∙ to, state)
  switch_change-Switched ChangeCommand.rework h =
      queued_from ChangeCommand.rework h λ back n eb fresh stage state.
        let (own, to) = rewind_rework id ch s eb in (fresh, own, stage ∙ to, state)
  switch_change-Switched ChangeCommand.unknown h = absurd (ground arith)

touched-changes : (task : Key) (s : State) → (touch task s).changes ≡ s.changes
unfolding touch
touched-changes task s = ground arith

audited-changes :
    (task : Key) (code : String) (message : Message) (s : State)
    → (audit task code message s).changes ≡ s.changes
unfolding audit
audited-changes task code message s = refl

change_admits-ok :
    (command : ChangeCommand) (id : Key) (ch : Change) (s : State) {u : Unit {0}}
    → change_admits command id ch s ≡ ok u
    → (terminal ch ≡ false)
      × (flagged ch.task_id s.cancellations ≡ false)
      × (interrupts_activity command ≡ false → change_active id s ≡ false)
unfolding change_admits
change_admits-ok command id ch s h = (ground arith, ground arith, ground arith)

-- When the transaction of ChangeAction succeeds, the Change was there and not terminal, its task
-- was not being cancelled, and unless the command is pause or abort no activity of the Change was
-- unsettled; the Change made the move of that command, is what is returned, and the map of Changes
-- differs in its entry alone. A promotion needs the stage AWAIT_PROMOTION, the state QUEUED and
-- PromotionEvidence; a resumption needs PAUSED or BLOCKED; a retry needs a current Artifact of the
-- Change and a state other than STALE; no other word is a command.
pub change_action_in-Move :
    (command : ChangeCommand) (id : Key) (s : State) {n : Change} {s' : State}
    → change_action_in command id s ≡ ok (n, s')
    → (ch : Change) × (lookup id s.changes ≡ some ch)
      × (terminal ch ≡ false)
      × (flagged ch.task_id s.cancellations ≡ false)
      × (interrupts_activity command ≡ false → change_active id s ≡ false)
      × Move command id s ch n
      × (s'.changes ≡ insert id n s.changes)
unfolding change_action_in
change_action_in-Move command id s {n} {s'} h = elim (Option-cases (lookup id s.changes)) [
  | inl missing ↦ absurd (ground arith)
  | inr (ch, ech) ↦ elim (Result-cases (change_admits command id ch s)) [
    | inr fails ↦ absurd (ground arith)
    | inl (u, admitted) ↦ elim (Result-cases (switch_change command id ch s)) [
      | inr fails ↦ absurd (ground arith)
      | inl (s1, switched) ↦
          let (clear, idle, settled) = change_admits-ok command id ch s admitted in
          let (m, at, move) = switch_change-Switched id ch s command switched in
          let after : State =
            touch ch.task_id (audit ch.task_id (command_event command) (Message.about ch.id) s1) in
          let changes : after.changes ≡ insert id m s.changes =
            touched-changes ch.task_id _
            ∙ audited-changes ch.task_id (command_event command) (Message.about ch.id) s1
            ∙ at in
          let found : lookup id after.changes ≡ some m =
            ap (lookup id) changes ∙ lookup-insert_self id m s.changes in
          let returned : (m ≡ n) × (after ≡ s') = ground arith in
          (
            ch,
            ech,
            clear,
            idle,
            settled,
            subst (Move command id s ch) returned.0 move,
            ap (λ (x : State). x.changes) (sym returned.1)
                ∙ changes
                ∙ ap (λ x. insert id x s.changes) returned.0,
          )
    ]
  ]
]
