-- ===== src/Tests/Loading.antt =====
-- A configuration that is loaded.
use scp_harness.Base.{
  pos, ◌≡◌, refl, true, false, Option, some, [], ◌∷◌, lookup, ok, err, panic, blank, is_space,
}
use scp_harness.Model.{
  Key, Config, Capability, Operation, Workspace, Operation-discrete, profile_of, find_profile,
}
use scp_harness.Config.{
  RawCard, CapabilityScope, Number, RawConfig, RawProfile, load, parse_card, read_context,
  read_capabilities, read_cards, read_profile, read_profiles, exit_codes_fit, profile_id, modes_fit,
}
use scp_harness.Config.Loaded.{Loaded, load-Loaded}
use scp_harness.Tests.Controls.{config}

abbrev card : RawCard
card = record {
  version = pos 0;
  id = 20;
  context = [];
  capabilities =
      (record { name = some Capability.option_propose; scope = CapabilityScope.absent; fields = 1 })
      ∷ [];
  limits = 1;
  wall = Number.integral (pos 500000);
  influence = [];
}

abbrev files : Key → Option RawCard
files path = some card

abbrev worker : Key → Workspace → RawProfile
worker id workspace = record {
  id = id;
  command = 70 ∷ [];
  card = 20;
  timeout = pos 600000;
  workspace = some workspace;
  synthetic = false;
  unavailable = pos 75 ∷ [];
}

abbrev raw : RawConfig
raw = record {
  version = pos 0;
  database = 47 ∷ [];
  artifacts = 47 ∷ [];
  operator = 20;
  role_cards = (20, 80) ∷ [];
  named = true;
  distro = 50;
  test_distro = 51;
  exploration_n = pos 3;
  limits = pos 1000 ∷ [];
  result_max = pos 65536;
  test_timeout = pos 60000;
  test_command = 60 ∷ [];
  workers = worker 40 Workspace.writable ∷ worker 41 Workspace.readonly ∷ [];
  operations =
      (Operation.mutation, 40)
      ∷ (Operation.review, 41)
      ∷ (Operation.option_generation, 41)
      ∷ (Operation.merge_judge, 41)
      ∷ (Operation.merge_synth, 41)
      ∷ (Operation.discussion, 41)
      ∷ [];
  hash = 61;
}

abbrev loaded : Config
loaded = elim (load files raw) [ ok c ↦ c | err e ↦ config | panic ↦ config ]

load-raw : load files raw ≡ ok loaded
unfolding load blank is_space read_cards parse_card read_context read_capabilities lookup
    read_profiles read_profile exit_codes_fit modes_fit profile_of find_profile profile_id
    Operation-discrete
load-raw = refl

load-Loaded_example : Loaded loaded
load-Loaded_example = load-Loaded files raw load-raw
