-- ===== src/Tests/Selections.antt =====
-- An action on a Change and the selection of a step at concrete inputs.
use scp_harness.Base.{
  Option, pos, ◌≡◌, refl, true, false, some, [], ◌∷◌, lookup, insert, any_entry, Result, ok,
}
use scp_harness.Model.{
  State, Change, ChangeState, Stage, Step, audit, touch, terminal, flagged, new_state, set_change,
  fail_stop, is_blocked_for, profile_of, find_profile,
}
use scp_harness.Core.{
  ChangeCommand, interrupts_activity, change_action_in, change_admits, switch_change, halt_change,
  change_active, set_change_now, runnable, needs, anchor_funded, anchor, interrupt_own,
}
use scp_harness.Core.ChangeMoves.{Move, change_action_in-Move}
use scp_harness.Core.{
  next_in, next_request, next_change, next_exploration, explore, or_else, acquire, sort, place,
  sorted_tasks, exploration_step,
}
use scp_harness.Core.Selection.{Acquired, next_in-Acquired}
use scp_harness.Tests.Data.{explored, funded}
use scp_harness.Tests.Controls.{config, generation, state_of}

-- A Change that waits in the queue is paused.
abbrev pub change_5 : Change
change_5 = record {
  id = 5;
  task_id = 1;
  option_id = 2;
  base_sha = 13;
  objective = 7 ∷ [];
  objective_revision = pos 0;
  artifact_id = 0;
  ci_run_id = 0;
  review_attempt_id = 0;
  stage = Stage.mutation;
  state = ChangeState.queued;
  reason = "";
  timeout_streak = 0;
  timeout_reset_at = 0;
  started = true;
  created = 600;
  updated = 610;
}

abbrev changing : State
changing = record funded { changes = (5, change_5) ∷ [] }

abbrev paused_5 : Change
paused_5 = record change_5 { state = ChangeState.paused; updated = 1000 }

abbrev pausing : Result (Change × State)
pausing = change_action_in ChangeCommand.pause 5 changing

pause-changing : pausing ≡ ok (paused_5, state_of pausing)
unfolding change_action_in change_admits switch_change halt_change interrupt_own change_active
    set_change_now set_change lookup insert any_entry touch audit new_state
pause-changing = refl

change_action_in-Move_example :
    (ch : Change) × (lookup 5 changing.changes ≡ some ch)
    × (terminal ch ≡ false)
    × (flagged ch.task_id changing.cancellations ≡ false)
    × (interrupts_activity ChangeCommand.pause ≡ false → change_active 5 changing ≡ false)
    × Move ChangeCommand.pause 5 changing ch paused_5
    × ((state_of pausing).changes ≡ insert 5 paused_5 changing.changes)
change_action_in-Move_example = change_action_in-Move ChangeCommand.pause 5 changing pause-changing

-- An exploration that has not generated an option yet, and an idle slot.
abbrev exploring_db : State
exploring_db = record funded { exploration = (1, record explored { done = false }) ∷ [] }

abbrev selection : Result (Option Step × State)
selection = next_in config 77 9000 exploring_db

next-exploring : selection ≡ ok (some generation, state_of selection)
unfolding next_in next_request next_change next_exploration explore or_else acquire sort place
    sorted_tasks exploration_step runnable needs profile_of find_profile is_blocked_for fail_stop
    anchor_funded anchor lookup insert any_entry audit new_state
next-exploring = refl

next_in-Acquired_example : Acquired config 77 exploring_db generation (state_of selection)
next_in-Acquired_example = next_in-Acquired config 77 9000 exploring_db next-exploring
