-- ===== src/Tests/Explorations.antt =====
-- An exploration of one activity, at concrete inputs: the activity completes, or it crashes.
use scp_harness.Base.{
  ℕ, ◌+◌, pos, ◌+ℤ◌, ◌-ℤ◌, wrap64, add64, sub64, ◌≡◌, ◌⊎◌, inl, inr, refl, true, none, some, [],
  ◌∷◌, lookup, insert, erase, any_entry, arith, IsInt64,
}
use scp_harness.Model.{Exploration, audit, touch, new_state, card_for, find_profile, has}
use scp_harness.Ledger.{settle}
use scp_harness.Core.{
  keep_artifact, end_attempt, apply_claims, propose_all, propose_one, hang_option, option_parent,
  explored, explore_on, interrupted, overrule, leave, requests, anchor_closed, closed_under,
  advance, proceed, finish_attempt, halt_or_conclude, end_in, complete_in, create_option,
  exploration_step, finish_activity, release, requeue, drop_request,
}
use scp_harness.Core.Bearings.{IsClosedTask}
use scp_harness.Core.Advancing.{Exploring}
use scp_harness.Scheduler.{crash_attempt_in, keep_captured, pause_restart, count_crash}
use scp_harness.Scheduler.Explorations.{Round, Over, exploration_ends}
use scp_harness.Tests.Data.{task_1}
use scp_harness.Tests.Controls.{generation, state_of}
use scp_harness.Tests.Completions.{
  attempt_9, running, started, proposer, completion, completed, complete-running,
}
use scp_harness.Tests.Recovery.{crashed, crash-running}

-- The generation has proposed an option.
abbrev generated_once : Exploration
generated_once = record started { count = pos 1; batch = 101 ∷ []; done = true }

generation-Exploring : Exploring 1 attempt_9 generation running
unfolding lookup new_state
generation-Exploring = record {
  of_task = refl;
  explores = refl;
  unanchored = refl;
  changeless = refl;
  continues = record { owner = task_1; owned = refl; keyed = refl; active = refl; wanted = refl };
}

completed-exploration : lookup 1 (state_of completed).exploration ≡ some generated_once
unfolding complete_in end_in lookup card_for find_profile settle keep_artifact halt_or_conclude
    overrule interrupted new_state finish_attempt end_attempt proceed requests has apply_claims
    insert erase propose_all propose_one hang_option option_parent create_option closed_under
    anchor_closed advance explored explore_on exploration_step finish_activity release requeue
    drop_request leave touch audit add64 sub64 wrap64 ◌+ℤ◌ ◌-ℤ◌ any_entry
completed-exploration = refl

completed-goes_on : ¬ IsClosedTask 1 (state_of completed)
unfolding complete_in end_in lookup card_for find_profile settle keep_artifact halt_or_conclude
    overrule interrupted new_state finish_attempt end_attempt proceed requests has apply_claims
    insert erase propose_all propose_one hang_option option_parent create_option closed_under
    anchor_closed advance explored explore_on exploration_step finish_activity release requeue
    drop_request leave touch audit add64 sub64 wrap64 ◌+ℤ◌ ◌-ℤ◌ any_entry
completed-goes_on (t, e, c) = ground arith

generation-completes : Round proposer 1 started generated_once
unfolding exploration_step lookup
generation-completes =
    Round.completes {p = generation} {x' = started} refl true completion attempt_9 running refl refl
      generation-Exploring refl refl complete-running completed-goes_on completed-exploration

crashed-exploration :
    lookup 1 (state_of crashed).exploration ≡ some (record started { count = pos 1 })
unfolding crash_attempt_in keep_captured settle lookup insert erase pause_restart count_crash touch
    new_state add64 sub64 wrap64 ◌+ℤ◌ ◌-ℤ◌
crashed-exploration = refl

generation-crashes : Round proposer 1 started (record started { count = pos 1 })
unfolding exploration_step lookup
generation-crashes =
    Round.crashes {p = generation} {x' = started} refl attempt_9 generation none running refl refl
      refl crash-running crashed-exploration

abbrev explorations : ℕ → Exploration
explorations ℕ.zero = started
explorations (ℕ.suc k) = generated_once

IsInt64-1 : IsInt64 (pos 1)
IsInt64-1 = record { upper = omega arith; lower = omega arith }

explorations-fit : (k : ℕ) → IsInt64 (explorations k).count
explorations-fit ℕ.zero = record { upper = omega arith; lower = omega arith }
explorations-fit (ℕ.suc k) = IsInt64-1

explorations-rounds :
    (k : ℕ)
    → Over proposer 1 (explorations k) ⊎ Round proposer 1 (explorations k) (explorations (k + 1))
unfolding exploration_step
explorations-rounds ℕ.zero = inr generation-completes
explorations-rounds (ℕ.suc k) = inl (record { last = generated_once; none_left = refl })

exploration_ends_example : (k : ℕ) × Over proposer 1 (explorations k)
exploration_ends_example =
    exploration_ends proposer 1 explorations IsInt64-1 explorations-fit explorations-rounds
