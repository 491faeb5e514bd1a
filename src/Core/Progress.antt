-- ===== src/Core/Progress.antt =====
-- Proofs that Complete of internal/core/runtime.go moves an exploration on, unless it closes the task.
use scp_harness.Base.{
  ◌+◌, ◌≡◌, refl, ap, ◌∙◌, subst, Bool, true, false, not, ◌&&◌, ◌||◌, Option, none, some, ℤ, lookup,
  insert, Code, ◌==◌, fail_if, Yields, Yields-ok, Yields-bind, arith, Bool-cases, inl, inr,
}
use scp_harness.Model.{
  Key, Time, State, Attempt, Operation, Config, Exploration, Artifact, active_attempt, card_for,
  is_merge, is_mutation_op, now,
}
use scp_harness.Ledger.{settle}
use scp_harness.Core.Completions.{
  Completion, card_suffices, keep_artifact, end_attempt, is_generation,
}
use scp_harness.Core.Completing.{
  interrupted, overrule, is_fatal, is_terminated, halt_or_conclude, end_in, complete_in,
}
use scp_harness.Core.Serving.{Yields-after}
use scp_harness.Core.Bearings.{
  Unmoved, Unmoved-frame, Unmoved-trans, still-Continues, settle-Unmoved,
}
use scp_harness.Core.Advancing.{Progressed, Exploring, halt_or_conclude-Progressed}

explores-unmutated :
    (op : Operation) → (is_generation op || is_merge op) ≡ true → is_mutation_op op ≡ false
explores-unmutated Operation.discussion h = absurd (ground arith)
explores-unmutated Operation.mutation h = absurd (ground arith)
explores-unmutated Operation.ci h = refl
explores-unmutated Operation.review h = refl
explores-unmutated Operation.promotion h = refl
explores-unmutated Operation.option_generation h = refl
explores-unmutated Operation.merge_judge h = refl
explores-unmutated Operation.merge_synth h = refl
explores-unmutated Operation.recovery h = refl
explores-unmutated Operation.other h = refl

keeps_no_artifact :
    (f : Option Artifact) (a : Attempt) (s : State)
    → is_mutation_op a.operation ≡ false
    → keep_artifact f a s ≡ s
unfolding keep_artifact
keeps_no_artifact none a s h = refl
keeps_no_artifact (some f) a s h = rw h refl

-- A change of the state that concerns neither the exploration of a task nor the Changes.
abbrev Apart : Key → State → State → Type 0
Apart task s s' = Unmoved task s s' × (s'.changes ≡ s.changes)

end_in-Apart :
    (task : Key) (v : Completion) (a : Attempt) (s : State)
    → is_mutation_op a.operation ≡ false
    → Yields (Apart task s) (end_in v a s)
unfolding end_in
end_in-Apart task v a s h =
    let kept : State = keep_artifact v.artifact a s in
    let ended : State = record kept {
      attempts = insert v.attempt_id (end_attempt v (now s) a) kept.attempts;
      draws = kept.draws + 1;
    } in
    let same : kept ≡ s = keeps_no_artifact v.artifact a s h in
    Yields-bind (Apart task s) (settle a.id v.elapsed v.uncertain ended) _ λ settled e.
      let (moved, ec) = settle-Unmoved task a.id v.elapsed v.uncertain ended settled e in
      let first : Unmoved task s ended =
        Unmoved-frame task s ended (ap (λ (x : State). x.exploration) same)
          (ap (λ (x : State). x.cancellations) same) (ap (λ (x : State). x.tasks) same) in
      Yields-ok (Apart task s) _ (
        Unmoved-trans task s settled _ (Unmoved-trans task s ended settled first moved)
            (Unmoved-frame task settled _ refl refl refl),
        ec ∙ ap (λ (x : State). x.changes) same,
      )

-- An interruption of an Attempt changes its status, and nothing that an exploration reads.
record Overruled (task : Key) (v : Completion) (a a' : Attempt) (s s' : State) : Type 0 where
  pub apart : Apart task s s'
  pub of_task : a'.task_id ≡ a.task_id
  pub operation : a'.operation ≡ a.operation
  pub of_change : a'.change_id ≡ a.change_id
  pub survives : (is_terminated a'.status && is_fatal v.reason) ≡ false

overrule-Overruled :
    (task : Key) (v : Completion) (a : Attempt) (t : Time) (s : State)
    → (is_terminated v.status && is_fatal v.reason) ≡ false
    → Overruled task v a
        (overrule v.attempt_id (end_attempt v t a) s).0
        s
        (overrule v.attempt_id (end_attempt v t a) s).1
unfolding overrule end_attempt
overrule-Overruled task v a t s survives = elim (Bool-cases (interrupted (end_attempt v t a) s)) [
  | inl stops ↦
      rw (overrule, stops)
        (record {
          apart = (Unmoved-frame task s _ refl refl refl, refl);
          of_task = refl;
          operation = refl;
          of_change = refl;
          survives = refl;
        })
  | inr ends ↦
      rw (overrule, ends)
        (record {
          apart = (Unmoved-frame task s _ refl refl refl, refl);
          of_task = refl;
          operation = refl;
          of_change = refl;
          survives = survives;
        })
]

-- Complete moves the exploration of its task on, as `explored` and explorationStep say, unless the
-- worker's claims close the task: the exploration is stored with the next activity looked for, or
-- as done. The Attempt is one of an activity of the exploration, the task is open and not
-- cancelled, and the Attempt does not end TERMINATED by a reason of exit status 4 or more.
pub complete_in-Progressed :
    (cfg : Config) (locked : Bool) (v : Completion) (task : Key) (a : Attempt) (x : Exploration)
    (s : State)
    → lookup v.attempt_id s.attempts ≡ some a
    → Exploring task a v.step s
    → (is_terminated v.status && is_fatal v.reason) ≡ false
    → lookup task s.exploration ≡ some x
    → Yields (λ r. Progressed cfg.exploration_n task a.operation x r.1) (complete_in cfg locked v s)
unfolding complete_in
complete_in-Progressed cfg locked v task a x s ea h survives ex =
    let n : ℤ = cfg.exploration_n in
    let P : Unit {0} × State → Type 0 = λ r. Progressed n task a.operation x r.1 in
    rw (complete_in, ea)
      (Yields-after P (fail_if (not (active_attempt a)) Code.core_inconsistent) _ λ u.
        Yields-after P (card_for a.profile cfg) _ λ card.
          Yields-after P (fail_if (not (card.id == a.actor)) Code.core_inconsistent) _ λ w.
            Yields-bind P (end_in v a s) _ λ s1 e1.
              let o : Attempt × State = overrule v.attempt_id (end_attempt v (now s) a) s1 in
              let valid : Bool =
                v.valid && card_suffices a.operation card && not (interrupted a s1) in
              let f = end_in-Apart task v a s (explores-unmutated a.operation h.explores) s1 e1 in
              let g = overrule-Overruled task v a (now s) s1 survives in
              let moved : Unmoved task s o.1 = Unmoved-trans task s s1 o.1 f.0 g.apart.0 in
              let changes : o.1.changes ≡ s.changes = g.apart.1 ∙ f.1 in
              Yields-bind P (halt_or_conclude cfg locked v card o.0 valid (now s) o.1) _ λ s2 e2.
                Yields-ok P (tt, s2)
                  (subst (λ op. Progressed n task op x s2) g.operation
                    (halt_or_conclude-Progressed cfg v card task o.0 (g.of_task ∙ h.of_task)
                      (ap (λ op. is_generation op || is_merge op) g.operation ∙ h.explores) locked
                      valid (now s) x o.1 h.unanchored
                      (still-Continues task s o.1 moved h.continues) (moved.exploration ∙ ex)
                      (ap (λ k. lookup k o.1.changes) g.of_change
                        ∙ ap (lookup a.change_id) changes
                        ∙ h.changeless)
                      g.survives s2 e2)))
