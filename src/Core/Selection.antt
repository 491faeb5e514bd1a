-- ===== src/Core/Selection.antt =====
-- Proofs about Next of internal/core/runtime.go.
use scp_harness.Base.{
  Yields, Yields-ok, Yields-bind, ok-inj, ℕ, ◌≡◌, refl, subst, true, not, Option, none, some, List,
  lookup, lookup-insert_self, Result, ok, Code, fail_if, arith, keep,
}
use scp_harness.Model.{Key, State, Step, Config, Change, SlotState, is_idle, audit}
use scp_harness.Core.Slots.{
  next_in, next_request, next_change, next_exploration, or_else, acquire, sort, change_before,
  is_candidate, values, sorted_tasks,
}
use scp_harness.Core.Selecting.{
  Alike, Alike-refl, CouldRun, Selected, Selected-after, next_request-CouldRun,
  next_change-Selected, next_exploration-Selected,
}

-- A way that selected nothing gives place to the next.
or_else-Selected :
    (cfg : Config) (s mid : State) (chosen : Option Step) (later : Result (Option Step × State))
    → Selected cfg s (chosen, mid)
    → Yields (Selected cfg mid) later
    → Yields (Selected cfg s) (or_else chosen mid later)
unfolding or_else
or_else-Selected cfg s mid (some p) later h f r e = subst (Selected cfg s) (ok-inj e) h
or_else-Selected cfg s mid none later h f r e = Selected-after cfg s mid r h (f r e)

requested-Selected :
    (cfg : Config) (s : State) (chosen : Option Step)
    → next_request cfg s.requests s ≡ ok chosen
    → Selected cfg s (chosen, s)
requested-Selected cfg s none e = Alike-refl s
requested-Selected cfg s (some p) e =
    (Alike-refl s, (s, Alike-refl s, next_request-CouldRun cfg s.requests s p e))

-- What the transaction of Next returns for a step.
pub record Acquired (cfg : Config) (owner : Key) (s : State) (p : Step) (s' : State) : Type 0 where
  pub was_idle : is_idle s.slot.state ≡ true
  pub busy : s'.slot.state ≡ SlotState.busy
  pub kind : s'.slot.kind ≡ p.operation
  pub task : s'.slot_task ≡ p.task_id
  pub owned : s'.slot_owner ≡ owner
  pub pending : lookup p.task_id s'.pending ≡ some p
  pub could_run : CouldRun cfg s p
  pub alike : Alike s s'

abbrev Outcome : Config → Key → State → Option Step × State → Type 0
Outcome cfg owner s (none, s') = Alike s s'
Outcome cfg owner s (some p, s') = Acquired cfg owner s p s'

finish_next :
    (cfg : Config) (owner : Key) (pid : ℕ) (s s2 : State) (chosen : Option Step)
    → is_idle s.slot.state ≡ true
    → Selected cfg s (chosen, s2)
    → Yields
        (Outcome cfg owner s)
        (elim chosen [ none ↦ ok (none, s2) | some p ↦ ok (some p, acquire owner pid p s2) ])
unfolding acquire audit
finish_next cfg owner pid s s2 none idle h = Yields-ok (Outcome cfg owner s) (none, s2) h
finish_next cfg owner pid s s2 (some p) idle (h, run) =
    Yields-ok (Outcome cfg owner s) (some p, acquire owner pid p s2)
      (record {
        was_idle = idle;
        busy = refl;
        kind = refl;
        task = refl;
        owned = refl;
        pending = lookup-insert_self p.task_id p s2.pending;
        could_run = run;
        alike = record {
          accounts = h.accounts;
          options = h.options;
          cancellations = h.cancellations;
          blockers = h.blockers;
        };
      })

next_in-Outcome :
    (cfg : Config) (owner : Key) (pid : ℕ) (s : State)
    → Yields (Outcome cfg owner s) (next_in cfg owner pid s)
unfolding next_in
next_in-Outcome cfg owner pid s =
    let P : Option Step × State → Type 0 = Outcome cfg owner s in
    let sorted : List Change = sort change_before (keep is_candidate (values s.changes)) in
    Yields-bind P (fail_if (not (is_idle s.slot.state)) Code.blocked) _ λ u eu.
      Yields-bind P (next_request cfg s.requests s) _ λ requested er.
        Yields-bind P (or_else requested s (next_change cfg sorted s)) _ λ first e1.
          Yields-bind P
            (or_else first.0 first.1 (next_exploration cfg (sorted_tasks first.1) first.1)) _
            λ second e2.
              let h1 =
                or_else-Selected cfg s s requested (next_change cfg sorted s)
                  (requested-Selected cfg s requested er) (next_change-Selected cfg sorted s) first
                  e1 in
              let h2 =
                or_else-Selected cfg s first.1 first.0
                  (next_exploration cfg (sorted_tasks first.1) first.1) h1
                  (next_exploration-Selected cfg (sorted_tasks first.1) first.1) second e2 in
              finish_next cfg owner pid s second.1 second.0 (ground (arith, eu)) h2

-- When the transaction of Next returns a step, the slot was idle; it is busy afterwards for the
-- step's operation and task, owned by the caller, with the step as the pending one of that task.
-- The step passed runnable in a state that has the same accounts, options, cancellations and
-- blockers, and the selection changed none of these.
pub next_in-Acquired :
    (cfg : Config) (owner : Key) (pid : ℕ) (s : State) {p : Step} {s' : State}
    → next_in cfg owner pid s ≡ ok (some p, s')
    → Acquired cfg owner s p s'
next_in-Acquired cfg owner pid s h = next_in-Outcome cfg owner pid s _ h
