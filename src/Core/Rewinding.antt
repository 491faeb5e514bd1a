-- ===== src/Core/Rewinding.antt =====
-- Proofs about the part of ChangeAction of internal/core/change.go that puts a Change back into the
-- queue.
use scp_harness.Base.{
  Yields, Yields-bind, Yields-ok, or_fail, or_fail-ok, fail_if, ◌>>=◌, ◌>>◌, Result, Code, ◌≡◌, ◌≢◌,
  refl, ap, sym, ◌⊎◌, not, ◌&&◌, some, lookup, insert, ok, Result-cases, Bool-cases, inl, inr,
  arith, ==_iff, ◌==◌,
}
use scp_harness.Model.{
  Key, State, Change, ChangeState, Stage, Artifact, set_change, latest_ci, now, drawn, is_stale,
  is_paused, is_blocked,
}
use scp_harness.Core.Common.{set_change_now}
use scp_harness.Core.Changes.{ChangeCommand, rewind, requeue_change}

-- The current Artifact is there and is the Change's own.
abbrev pub OwnsArtifact : Key → Change → State → Type 0
OwnsArtifact id ch s =
    (a : Artifact) × (lookup ch.artifact_id s.artifacts ≡ some a) × (a.change_id ≡ id)

-- What a rewound Change is, before it is queued.
pub rewind_resume :
    (id : Key) (ch : Change) (s : State) {n : Change}
    → rewind ChangeCommand.resume id ch s ≡ ok n
    → ((ch.state ≡ ChangeState.paused) ⊎ (ch.state ≡ ChangeState.blocked)) × (n ≡ ch)
unfolding rewind
rewind_resume id ch s {n} h =
    elim (Bool-cases (not (is_paused ch.state) && not (is_blocked ch.state))) [
      | inl refused ↦ absurd (ground arith)
      | inr met ↦ (ground arith, ground arith)
    ]

-- What the three retries ask of the current Artifact.
owned_then :
    (id : Key) (ch : Change) (s : State) (P : Change → Type 0) (next : Artifact → Result Change)
    → ((a : Artifact) → OwnsArtifact id ch s → Yields P (next a))
    → Yields P (do
      a ← or_fail (lookup ch.artifact_id s.artifacts) Code.precondition_failed
      fail_if (not (a.change_id == id)) Code.precondition_failed
      next a)
owned_then id ch s P next f =
    Yields-bind P (or_fail (lookup ch.artifact_id s.artifacts) Code.precondition_failed) _ λ a ea.
      Yields-bind P (fail_if (not (a.change_id == id)) Code.precondition_failed) _ λ u eu. f a (
        a,
        or_fail-ok (lookup ch.artifact_id s.artifacts) Code.precondition_failed ea,
        ground (arith, eu, ==_iff a.change_id id),
      )

-- It goes back to a stage.
abbrev Rewound : Key → Change → State → Stage → Change → Type 0
Rewound id ch s stage n = OwnsArtifact id ch s × (n.stage ≡ stage)

pub rewind_retry_ci :
    (id : Key) (ch : Change) (s : State) {n : Change}
    → rewind ChangeCommand.retry_ci id ch s ≡ ok n
    → OwnsArtifact id ch s × (n.stage ≡ Stage.ci)
unfolding rewind
rewind_retry_ci id ch s h =
    let P : Change → Type 0 = Rewound id ch s Stage.ci in
    owned_then id ch s P _ (λ a own. Yields-ok P _ (own, refl)) _ h

pub rewind_rework :
    (id : Key) (ch : Change) (s : State) {n : Change}
    → rewind ChangeCommand.rework id ch s ≡ ok n
    → OwnsArtifact id ch s × (n.stage ≡ Stage.mutation)
unfolding rewind
rewind_rework id ch s h =
    let P : Change → Type 0 = Rewound id ch s Stage.mutation in
    owned_then id ch s P _ (λ a own. Yields-ok P _ (own, refl)) _ h

pub rewind_retry_review :
    (id : Key) (ch : Change) (s : State) {n : Change}
    → rewind ChangeCommand.retry_review id ch s ≡ ok n
    → OwnsArtifact id ch s × (n.stage ≡ Stage.review)
unfolding rewind
rewind_retry_review id ch s h =
    let P : Change → Type 0 = Rewound id ch s Stage.review in
    owned_then id ch s P _
      (λ a own.
        Yields-bind P (or_fail (latest_ci a.id s) Code.precondition_failed) _
          λ ci ec. Yields-ok P _ (own, refl))
      _ h

-- Queueing a rewound Change keeps the stage that it was rewound to.
pub requeue_change-Switched :
    (command : ChangeCommand) (id : Key) (ch : Change) (s : State) {s' : State}
    → requeue_change command id ch s ≡ ok s'
    → (back : Change) × (n : Change) × (rewind command id ch s ≡ ok back)
      × (ch.state ≢ ChangeState.stale)
      × (s'.changes ≡ insert id n s.changes)
      × (n.stage ≡ back.stage)
      × (n.state ≡ ChangeState.queued)
unfolding requeue_change set_change_now set_change
requeue_change-Switched command id ch s {s'} h = elim (Result-cases (rewind command id ch s)) [
  | inl (back, eb) ↦ elim (Bool-cases (is_stale ch.state)) [
    | inl late ↦ absurd (ground arith)
    | inr fresh ↦
        let reset : Change = record back { timeout_reset_at = now s } in
        let made : set_change_now id reset back.stage ChangeState.queued "" (drawn s) ≡ s' =
          ground arith in
        (
          back,
          set_change back.stage ChangeState.queued "" (now (drawn s)) reset,
          eb,
          (λ e. absurd (ground arith)),
          ap (λ (x : State). x.changes) (sym made),
          refl,
          refl,
        )
  ]
  | inr fails ↦ absurd (ground arith)
]
