-- ===== src/Tests/Completions.antt =====
-- The end of an Attempt, and partitions of its participants, at concrete inputs.
use scp_harness.Base.{
  pos, ◌+ℤ◌, ◌-ℤ◌, wrap64, add64, sub64, ◌≡◌, refl, true, false, none, some, [], ◌∷◌, lookup,
  insert, erase, any_entry, Result, ok,
}
use scp_harness.Model.{
  State, Attempt, AttemptStatus, Config, Capability, Operation, Kind, LogPath, SlotState,
  Exploration, audit, touch, new_state, card_for, find_profile, has,
}
use scp_harness.Ledger.{settle}
use scp_harness.Ledger.Frame.{IsLedger-frame}
use scp_harness.Core.{
  Completion, keep_artifact, end_attempt, apply_claims, propose_all, propose_one, hang_option,
  option_parent, explored, explore_on, interrupted, overrule, leave, requests, anchor_closed,
  closed_under, advance, proceed, finish_attempt, halt_or_conclude, end_in, complete_in,
  create_option, exploration_step, finish_activity, release, requeue, drop_request,
}
use scp_harness.Core.Books.{Books}
use scp_harness.Core.Completed.{Completed, complete_in-Completed}
use scp_harness.Worker.{no_answer}
use scp_harness.Tests.Data.{funded, funded-IsLedger}
use scp_harness.Tests.Controls.{config, card_20, generation, funded-FreshIds, state_of}

abbrev pub proposer : Config
proposer = record config {
  cards = (20, record card_20 { capabilities = Capability.option_propose ∷ [] }) ∷ [];
  exploration_n = pos 1;
}

-- An Attempt that generates options, with the lease 9.
abbrev pub attempt_9 : Attempt
attempt_9 = record {
  objective = 7 ∷ [];
  change_id = 0;
  id = 9;
  task_id = 1;
  operation = Operation.option_generation;
  target_type = Kind.task;
  target_id = 1;
  actor = 20;
  profile = 40;
  anchor_type = Kind.option;
  anchor_id = 2;
  lease = pos 100000;
  sha = 13;
  revision = pos 1;
  started = 700;
  ended = none;
  status = AttemptStatus.running;
  exit_code = none;
  reason = none;
  stdout = LogPath.stdout_of 9;
  stderr = LogPath.stderr_of 9;
  artifact_id = none;
}

abbrev pub started : Exploration
started = record {
  done = false;
  count = pos 0;
  batch = [];
  judged = false;
  groups = [];
  group_index = 0;
}

abbrev pub running : State
running = record funded {
  attempts = (9, attempt_9) ∷ [];
  exploration = (1, started) ∷ [];
  slot = record { kind = Operation.option_generation; state = SlotState.busy; owner = some 9 };
  slot_task = 1;
  slot_owner = 77;
  pending = (1, generation) ∷ [];
}

pub running-Books : Books running
running-Books = record {
  ledger = IsLedger-frame funded running refl refl refl funded-IsLedger;
  fresh = record { unused = funded-FreshIds.unused; distinct = funded-FreshIds.distinct };
  keyed = (refl, tt);
}

abbrev pub completion : Completion
completion = record {
  attempt_id = 9;
  step = generation;
  artifact = none;
  answer = record no_answer { options = (7 ∷ []) ∷ [] };
  valid = true;
  status = AttemptStatus.returned;
  reason = none;
  exit_code = some (pos 0);
  stdout = LogPath.stdout_of 9;
  stderr = LogPath.stderr_of 9;
  elapsed = pos 40000;
  uncertain = false;
  visible = λ kind id. true;
}

abbrev pub completed : Result (Unit {0} × State)
completed = complete_in proposer true completion running

pub complete-running : completed ≡ ok (tt, state_of completed)
unfolding complete_in end_in lookup card_for find_profile settle keep_artifact halt_or_conclude
    overrule interrupted new_state finish_attempt end_attempt proceed requests has apply_claims
    insert erase propose_all propose_one hang_option option_parent create_option closed_under
    anchor_closed advance explored explore_on exploration_step finish_activity release requeue
    drop_request leave touch audit add64 sub64 wrap64 ◌+ℤ◌ ◌-ℤ◌ any_entry
complete-running = refl

complete_in-Completed_example : Completed completion running (state_of completed)
complete_in-Completed_example =
    complete_in-Completed proposer true completion running running-Books complete-running
