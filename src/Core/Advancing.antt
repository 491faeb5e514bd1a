-- ===== src/Core/Advancing.antt =====
-- Proofs that the end of Complete of internal/core/runtime.go, from halt_or_conclude on, moves an
-- exploration on, unless it closes the task.
use scp_harness.Base.{
  ◌≡◌, refl, ap, ◌∙◌, ◌⊎◌, Bool, true, false, ◌&&◌, ◌||◌, Option, none, some, List, ℤ, lookup,
  insert, lookup-insert_self, ok, Yields, Yields-ok, Yields-bind, arith, Bool-cases, inl, inr,
  present,
}
use scp_harness.Model.{
  Key, Time, State, TaskStatus, Attempt, Step, Operation, Config, Card, Exploration, flagged,
  is_active, is_closed, is_discussion, is_merge,
}
use scp_harness.Core.Steps.{exploration_step}
use scp_harness.Core.Completions.{Completion, is_generation}
use scp_harness.Core.Outcomes.{is_returned, explored, explore_on}
use scp_harness.Core.Completing.{
  is_fatal, is_terminated, leave, requests, anchor_closed, closed_under, pause_closed, advance,
  proceed, finish_attempt, halt_or_conclude,
}
use scp_harness.Core.Bearings.{
  IsClosedTask, Unmoved, Unmoved-trans, still-IsClosedTask, Continues, still-Continues,
  finish_activity-Unmoved, leave-Unmoved, pause_closed-Unmoved,
}
use scp_harness.Core.Continuing.{Going, requests-Going}

-- An exploration as an activity leaves it: what Complete makes of `x`, with the next activity looked
-- for, and done if there is none.
pub record Explored (n : ℤ) (task : Key) (op : Operation) (x z : Exploration) : Type 0 where
  pub completion : Completion
  pub card : Card
  pub attempt : Attempt
  pub valid : Bool
  pub ids : List Key
  pub state : State
  pub state_after : State
  pub left : Exploration
  pub was_explored : explored op completion card attempt valid ids x state ≡ ok (left, state_after)
  pub next : Option Step
  pub found : Exploration
  pub stepped : exploration_step task left n ≡ ok (next, found)
  pub is_found : (z ≡ found) ⊎ (z ≡ record found { done = true })

-- The task is closed, or its exploration was moved on.
abbrev pub Progressed : ℤ → Key → Operation → Exploration → State → Type 0
Progressed n task op x s =
    IsClosedTask task s
    ⊎ ((z : Exploration) × (lookup task s.exploration ≡ some z) × Explored n task op x z)

-- The Attempt of an activity of an exploration, in a state where its task goes on.
pub record Exploring (task : Key) (a : Attempt) (p : Step) (s : State) : Type 0 where
  pub of_task : a.task_id ≡ task
  pub explores : (is_generation a.operation || is_merge a.operation) ≡ true
  pub unanchored : p.option_id ≡ 0
  pub changeless : lookup a.change_id s.changes ≡ none
  pub continues : Continues task s

explores-undiscussed :
    (op : Operation) → (is_generation op || is_merge op) ≡ true → is_discussion op ≡ false
explores-undiscussed Operation.discussion h = absurd (ground arith)
explores-undiscussed Operation.mutation h = refl
explores-undiscussed Operation.ci h = refl
explores-undiscussed Operation.review h = refl
explores-undiscussed Operation.promotion h = refl
explores-undiscussed Operation.option_generation h = refl
explores-undiscussed Operation.merge_judge h = refl
explores-undiscussed Operation.merge_synth h = refl
explores-undiscussed Operation.recovery h = refl
explores-undiscussed Operation.other h = refl

closed-inactive : (x : TaskStatus) → is_closed x ≡ true → is_active x ≡ false
closed-inactive TaskStatus.closed h = refl
closed-inactive TaskStatus.active h = absurd (ground arith)
closed-inactive TaskStatus.suspended h = refl
closed-inactive TaskStatus.other h = refl

closed_under-closed :
    (task : Key) (a : Attempt) (p : Step) (s : State)
    → a.task_id ≡ task
    → IsClosedTask task s
    → closed_under a p s ≡ ok true
unfolding closed_under
closed_under-closed task a p s is (t, e, c) =
    let there : lookup a.task_id s.tasks ≡ some t = ap (λ k. lookup k s.tasks) is ∙ e in
    let ends : is_active t.status ≡ false = closed-inactive t.status c in
    rw (closed_under, there, ends) refl

closed_under-open :
    (task : Key) (a : Attempt) (p : Step) (s : State)
    → a.task_id ≡ task
    → Continues task s
    → p.option_id ≡ 0
    → closed_under a p s ≡ ok false
unfolding closed_under anchor_closed
closed_under-open task a p s is h unanchored =
    let there : lookup a.task_id s.tasks ≡ some h.owner = ap (λ k. lookup k s.tasks) is ∙ h.owned in
    let free : flagged h.owner.id s.cancellations ≡ false =
      ap (λ k. flagged k s.cancellations) h.keyed ∙ h.wanted in
    rw (closed_under, there, h.active, free, anchor_closed, unanchored) refl

-- An exploration that was moved on stands under its task.
abbrev Found : ℤ → Key → Operation → Exploration → State → Type 0
Found n task op x s =
    (z : Exploration) × (lookup task s.exploration ≡ some z) × Explored n task op x z

still-Found :
    (n : ℤ) (task : Key) (op : Operation) (x : Exploration) (s s' : State)
    → Unmoved task s s'
    → Found n task op x s
    → Found n task op x s'
still-Found n task op x s s' f (z, e, h) = (z, f.exploration ∙ e, h)

module _ (cfg : Config) (v : Completion) (card : Card) (task : Key) (a : Attempt)
    (of_task : a.task_id ≡ task)
    (explores : (is_generation a.operation || is_merge a.operation) ≡ true) where
  explore_on-Found :
      (valid : Bool) (ids : List Key) (x y : Exploration) (s s' : State)
      → explored a.operation v card a valid ids x s ≡ ok (y, s')
      → Yields (Found cfg.exploration_n task a.operation x) (explore_on cfg v.step task y s')
  unfolding explore_on
  explore_on-Found valid ids x y s s' e =
      let P : State → Type 0 = Found cfg.exploration_n task a.operation x in
      Yields-bind P (exploration_step task y cfg.exploration_n) _ λ (next, found) en.
        let explored_to : (z : Exploration)
            → ((z ≡ found) ⊎ (z ≡ record found { done = true }))
            → Explored cfg.exploration_n task a.operation x z =
          λ z is. record {
            completion = v;
            card = card;
            attempt = a;
            valid = valid;
            ids = ids;
            state = s;
            state_after = s';
            left = y;
            was_explored = e;
            next = next;
            found = found;
            stepped = en;
            is_found = is;
          } in
        let done : Exploration = record found { done = true } in
        let goes : State = record s' { exploration = insert task found s'.exploration } in
        let ends : State = record s' { exploration = insert task done s'.exploration } in
        Yields-ok P _ (elim (Bool-cases (present next)) [
          | inl more ↦
              rw more
                (found, lookup-insert_self task found s'.exploration, explored_to found (inl refl))
          | inr last ↦ rw last (
              still-Found cfg.exploration_n task a.operation x ends _
                (finish_activity-Unmoved task v.step ends)
                (done, lookup-insert_self task done s'.exploration, explored_to done (inr refl)))
        ])

  advance-Found :
      (valid : Bool) (t : Time) (ids : List Key) (x : Exploration) (s : State)
      → lookup task s.exploration ≡ some x
      → Yields (Found cfg.exploration_n task a.operation x) (advance cfg v card a valid t ids s)
  unfolding advance
  advance-Found valid t ids x s ex =
      let P : State → Type 0 = Found cfg.exploration_n task a.operation x in
      let there : lookup a.task_id s.exploration ≡ some x =
        ap (λ k. lookup k s.exploration) of_task ∙ ex in
      rw (advance, explores, there)
        (Yields-bind P (explored a.operation v card a valid ids x s) _
          λ (y, s') e. rw of_task (explore_on-Found valid ids x y s s' e))

  proceed-Progressed :
      (locked valid : Bool) (t : Time) (x : Exploration) (s : State)
      → v.step.option_id ≡ 0
      → Continues task s
      → lookup task s.exploration ≡ some x
      → Yields
          (Progressed cfg.exploration_n task a.operation x)
          (proceed cfg locked v card a valid t s)
  unfolding proceed
  proceed-Progressed locked valid t x s unanchored goes ex =
      let n : ℤ = cfg.exploration_n in
      let op : Operation = a.operation in
      let P : State → Type 0 = Progressed n task op x in
      Yields-bind P (requests v card locked a valid s) _ λ (ids, s1) e.
        elim (requests-Going task v card locked a valid s (ids, s1) e) [
          | Going.over closed ↦
              let paused : State = pause_closed a s1 in
              let left : State = leave v a paused in
              let moved : Unmoved task s1 left =
                Unmoved-trans task s1 paused left (pause_closed-Unmoved task a s1)
                  (leave-Unmoved task v a paused) in
              rw (closed_under-closed task a v.step s1 of_task closed)
                (Yields-ok P left (inl (still-IsClosedTask task s1 left moved closed)))
          | Going.on f ↦
              rw
                (closed_under-open task a v.step s1 of_task (still-Continues task s s1 f goes)
                  unanchored)
                (Yields-bind P (advance cfg v card a valid t ids s1) _ λ s2 e2.
                  Yields-ok P (leave v a s2) (
                    inr (
                      still-Found n task op x s2 (leave v a s2) (leave-Unmoved task v a s2)
                        (advance-Found valid t ids x s1 (f.exploration ∙ ex) s2 e2))))
        ]

  pub halt_or_conclude-Progressed :
      (locked valid : Bool) (t : Time) (x : Exploration) (s : State)
      → v.step.option_id ≡ 0
      → Continues task s
      → lookup task s.exploration ≡ some x
      → lookup a.change_id s.changes ≡ none
      → (is_terminated a.status && is_fatal v.reason) ≡ false
      → Yields
          (Progressed cfg.exploration_n task a.operation x)
          (halt_or_conclude cfg locked v card a valid t s)
  unfolding halt_or_conclude finish_attempt
  halt_or_conclude-Progressed locked valid t x s unanchored goes ex changeless survives =
      rw
        (
          halt_or_conclude,
          changeless,
          finish_attempt,
          survives,
          explores-undiscussed a.operation explores,
        )
        (proceed-Progressed locked (valid && is_returned a.status) t x s unanchored goes ex)
