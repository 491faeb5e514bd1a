-- ===== src/Tests/Controls.antt =====
-- The controller's operations at concrete inputs.
use scp_harness.Base.{
  ℕ, pos, ◌+ℤ◌, ◌-ℤ◌, wrap64, add64, sub64, ◌≡◌, refl, true, false, none, List, [], ◌∷◌, lookup,
  insert, any_entry, all_entries, Text, blank, is_space, Result, ok, err, panic, Code, arith,
}
use scp_harness.Model.{
  Key, State, Proposal, OptionStatus, CloseReason, Config, Card, Capability, Profile, Workspace,
  Operation, Step, Attempt, Kind, Message, SlotState, audit, touch, new_state, fail_stop,
  is_blocked_for, profile_of, find_profile,
}
use scp_harness.Ledger.{add, move, transfer, reserve, lca, chains, first_common, ancestors}
use scp_harness.Ledger.Invariant.{IsLedger}
use scp_harness.Ledger.Frame.{IsLedger-frame}
use scp_harness.Store.{task_root}
use scp_harness.Core.{
  block_in, extend_in, find_task, open_option, close_option, close_proposal, Child, Participant,
  split_in, split_children, child_total, merge_in, check_participants, collect, supersede,
  create_option, prepare_attempt_in, attempt_admits, change_authority, runnable, needs,
  anchor_funded, anchor, new_attempt, attach,
}
use scp_harness.Core.Blocking.{block_in-idempotent}
use scp_harness.Core.Budgets.{extend_in-IsLedger, close_option-IsLedger, rooted}
use scp_harness.Core.Funds.{FreshIds}
use scp_harness.Core.Reservations.{split_in-IsLedger, merge_in-IsLedger}
use scp_harness.Core.Leases.{Prepared, prepare_attempt_in-Prepared}
use scp_harness.Tests.Data.{
  empty, funded, funded-IsLedger, proposal, task_1, root, account_2, account_3,
}

block_in-idempotent_example :
    block_in Code.worker_unavailable 1 4 5
      (Message.about 6)
      (block_in Code.worker_unavailable 1 4 5 (Message.about 7) funded)
    ≡ block_in Code.worker_unavailable 1 4 5 (Message.about 7) funded
block_in-idempotent_example =
    block_in-idempotent Code.worker_unavailable 1 4 5 (Message.about 7) (Message.about 6) funded

-- The fields of a result.
abbrev pub state_of : {A : Type 0} → Result (A × State) → State
state_of (ok r) = r.1
state_of (err e) = empty
state_of panic = empty

funded-rooted : rooted funded ≡ true
unfolding task_root lookup all_entries
funded-rooted = refl

abbrev extended : State
extended = state_of (extend_in 1 (pos 250) funded)

extend-funded :
    extend_in 1 (pos 250) funded
    ≡ ok (
      record task_1 {
        revision = pos 2;
        updated = 1000;
        resources = record task_1.resources { minted = pos 5000250 };
      },
      extended,
    )
unfolding extend_in find_task lookup insert touch audit add add64 wrap64 ◌+ℤ◌ ◌-ℤ◌ new_state
extend-funded = refl

extend_in-IsLedger_example : IsLedger extended
extend_in-IsLedger_example =
    extend_in-IsLedger 1 (pos 250) funded funded-IsLedger funded-rooted extend-funded

abbrev closed : State
closed = record funded {
  accounts =
      (1, root)
      ∷ (2, record account_2 { remaining = pos 1900000 })
      ∷ (3, record account_3 { remaining = pos 0 })
      ∷ [];
  options =
      (2, proposal 2 1 (pos 1500000))
      ∷ (3, close_proposal CloseReason.fulfilled (proposal 3 2 (pos 400000)))
      ∷ [];
}

close-funded : close_option 3 funded ≡ ok closed
unfolding close_option lookup insert any_entry move transfer add add64 sub64 wrap64 ◌+ℤ◌ ◌-ℤ◌
    new_state
close-funded = refl

close_option-IsLedger_example : IsLedger closed
close_option-IsLedger_example = close_option-IsLedger 3 funded funded-IsLedger close-funded

pub funded-FreshIds : FreshIds funded
unfolding lookup new_state
funded-FreshIds = record { unused = λ i later. ground arith; distinct = λ i j e. omega arith }

abbrev children : List Child
children =
    (record { text = 7 ∷ []; wall = pos 100000 })
    ∷ (record { text = 8 ∷ []; wall = pos 200000 })
    ∷ []

abbrev made_option : Key → ℕ → Key → Text → Proposal
made_option id created parent text = record {
  close_reason = CloseReason.unset;
  id = id;
  task_id = 1;
  text = text;
  status = OptionStatus.opened;
  parent = parent;
  remaining = pos 0;
  sha = 13;
  revision = pos 1;
  actor = 20;
  created = created;
}

abbrev split_result : Result ((Proposal × List Proposal) × State)
split_result = split_in 20 2 children false funded

abbrev parts : Proposal × List Proposal
parts = (
  proposal 2 1 (pos 1500000),
  made_option 100 1001 2 (7 ∷ []) ∷ made_option 102 1003 2 (8 ∷ []) ∷ [],
)

split-funded : split_result ≡ ok (parts, state_of split_result)
unfolding split_in open_option child_total blank is_space split_children create_option lookup insert
    touch move transfer add add64 sub64 wrap64 ◌+ℤ◌ ◌-ℤ◌ new_state
split-funded = refl

split_in-IsLedger_example : IsLedger (state_of split_result)
split_in-IsLedger_example =
    split_in-IsLedger 20 2 children false funded funded-IsLedger funded-FreshIds funded-rooted
      split-funded

abbrev sides : List Participant
sides = (record { id = 3; wall = pos 1000 }) ∷ (record { id = 2; wall = pos 2000 }) ∷ []

abbrev merge_result : Result (Proposal × State)
merge_result = merge_in 20 1 (9 ∷ []) sides funded

merge-funded : merge_result ≡ ok (made_option 100 1001 2 (9 ∷ []), state_of merge_result)
unfolding merge_in find_task open_option check_participants lca chains first_common ancestors
    create_option collect supersede lookup insert touch move transfer add add64 sub64 wrap64 ◌+ℤ◌
    ◌-ℤ◌ new_state
merge-funded = refl

merge_in-IsLedger_example : IsLedger (state_of merge_result)
merge_in-IsLedger_example =
    merge_in-IsLedger 20 1 (9 ∷ []) sides funded funded-IsLedger funded-FreshIds funded-rooted
      merge-funded

-- A step that generates options, in a slot that its owner holds.
abbrev pub card_20 : Card
card_20 = record {
  id = 20;
  context = [];
  capabilities = Capability.process_execute ∷ [];
  lease = pos 500000;
}

abbrev pub profile_40 : Profile
profile_40 = record {
  id = 40;
  card = 20;
  timeout = pos 600000;
  workspace = Workspace.absent;
  synthetic = false;
}

abbrev pub config : Config
config = record {
  operator = 20;
  cards = (20, card_20) ∷ [];
  workers = profile_40 ∷ [];
  operations = λ op. 40;
  distro = 50;
  test_distro = 51;
  exploration_n = pos 3;
  result_max = pos 65536;
  test_timeout = pos 60000;
  test_command = 60 ∷ [];
  hash = 61;
}

abbrev pub generation : Step
generation = record {
  change_id = 0;
  ci_run_id = 0;
  request_id = 0;
  task_id = 1;
  option_id = 0;
  operation = Operation.option_generation;
  target_type = Kind.task;
  target_id = 1;
  participants = [];
}

abbrev busy : State
busy = record funded {
  slot = record { kind = Operation.option_generation; state = SlotState.busy; owner = none };
  slot_task = 1;
  slot_owner = 77;
  pending = (1, generation) ∷ [];
}

busy-IsLedger : IsLedger busy
busy-IsLedger = IsLedger-frame funded busy refl refl refl funded-IsLedger

abbrev prepared : Result (Attempt × State)
prepared = prepare_attempt_in config profile_40 card_20 generation 77 busy

prepare-busy :
    prepared
    ≡ ok (new_attempt profile_40 card_20 generation 1 (pos 500000) task_1 busy, state_of prepared)
unfolding prepare_attempt_in attempt_admits change_authority runnable needs profile_of find_profile
    is_blocked_for fail_stop anchor_funded anchor new_attempt attach reserve lookup insert any_entry
    touch add64 sub64 wrap64 ◌+ℤ◌ ◌-ℤ◌ new_state
prepare-busy = refl

prepare_attempt_in-Prepared_example :
    Prepared config profile_40 card_20 generation busy
      (new_attempt profile_40 card_20 generation 1 (pos 500000) task_1 busy)
      (state_of prepared)
prepare_attempt_in-Prepared_example =
    prepare_attempt_in-Prepared config profile_40 card_20 generation 77 busy busy-IsLedger
      prepare-busy
