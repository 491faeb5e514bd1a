-- ===== src/Model/Configs.antt =====
-- What of internal/config the operations read: cards, profiles and the validated configuration.
use scp_harness.Base.{
  ℕ, ℤ, Bool, none, some, List, [], ◌∷◌, Map, lookup, Result, ok, err, panic, Code, ◌==◌, any,
  if◌then◌else◌,
}
use scp_harness.Model.Enums.{Operation}
use scp_harness.Model.Names.{Key}

-- config.Capabilities, in its order.
pub data Capability : Type 0 where
  task_revise change_promote change_pause change_resume change_abort : Capability
  change_retry_ci change_retry_review change_rework ci_run : Capability
  task_create task_extend task_suspend task_resume task_complete : Capability
  option_propose option_refine option_split option_merge option_allocate : Capability
  option_release option_discuss option_complete claim_publish resource_propose : Capability
  review_decide attempt_interrupt artifact_export repository_read : Capability
  sandbox_write process_execute : Capability

-- Those of config.Channels that the operations test.
pub data Channel : Type 0 where
  ci_result review_findings : Channel
  other : ℕ → Channel

abbrev pub capability_index : Capability → ℕ
capability_index Capability.task_revise = 0
capability_index Capability.change_promote = 1
capability_index Capability.change_pause = 2
capability_index Capability.change_resume = 3
capability_index Capability.change_abort = 4
capability_index Capability.change_retry_ci = 5
capability_index Capability.change_retry_review = 6
capability_index Capability.change_rework = 7
capability_index Capability.ci_run = 8
capability_index Capability.task_create = 9
capability_index Capability.task_extend = 10
capability_index Capability.task_suspend = 11
capability_index Capability.task_resume = 12
capability_index Capability.task_complete = 13
capability_index Capability.option_propose = 14
capability_index Capability.option_refine = 15
capability_index Capability.option_split = 16
capability_index Capability.option_merge = 17
capability_index Capability.option_allocate = 18
capability_index Capability.option_release = 19
capability_index Capability.option_discuss = 20
capability_index Capability.option_complete = 21
capability_index Capability.claim_publish = 22
capability_index Capability.resource_propose = 23
capability_index Capability.review_decide = 24
capability_index Capability.attempt_interrupt = 25
capability_index Capability.artifact_export = 26
capability_index Capability.repository_read = 27
capability_index Capability.sandbox_write = 28
capability_index Capability.process_execute = 29

abbrev pub channel_index : Channel → ℕ
channel_index Channel.ci_result = 0
channel_index Channel.review_findings = 1
channel_index (Channel.other n) = ℕ.suc (ℕ.suc n)

-- `lease` is what Card.LeaseMS returns.
pub record Card : Type 0 where
  pub id : Key
  pub context : List Channel
  pub capabilities : List Capability
  pub lease : ℤ

-- Card.Has
unfoldable pub has : Capability → Card → Bool
has name c = any (λ v. capability_index v == capability_index name) c.capabilities

-- Card.Sees
unfoldable pub sees : Channel → Card → Bool
sees name c = any (λ v. channel_index v == channel_index name) c.context

-- Card.Require
unfoldable pub require : List Capability → Card → Result (Unit {0})
unfolding has
require [] c = ok tt
require (name ∷ names) c = if has name c then require names c else err Code.capability_denied

pub data Workspace : Type 0 where
  absent readonly writable : Workspace

pub record Profile : Type 0 where
  pub id : Key
  pub card : Key
  pub timeout : ℤ
  pub workspace : Workspace
  pub synthetic : Bool

pub record Config : Type 0 where
  pub operator : Key
  pub cards : Map Card
  pub workers : List Profile
  pub operations : Operation → Key
  pub distro : Key
  pub test_distro : Key
  pub exploration_n : ℤ
  pub result_max : ℤ
  pub test_timeout : ℤ
  pub test_command : List Key
  pub hash : Key

-- (*Config).Profile panics on an operation with no profile.
unfoldable pub find_profile : Key → List Profile → Result Profile
find_profile id [] = panic
find_profile id (p ∷ ps) = if p.id == id then ok p else find_profile id ps

unfoldable pub profile_of : Operation → Config → Result Profile
profile_of op c = find_profile (c.operations op) c.workers

-- The zero value of Card, which a missing key of a map of cards reads as.
abbrev pub zero_card : Card
zero_card = record { id = 0; context = []; capabilities = []; lease = ℤ.pos 9223372036854775807 }

abbrev pub card_named : Key → Config → Card
card_named id c = elim (lookup id c.cards) [ none ↦ zero_card | some card ↦ card ]

-- (*Core).Operator
abbrev pub operator_card : Config → Card
operator_card c = card_named c.operator c

-- CardFor panics if the attempt's profile is gone.
unfoldable pub card_for : Key → Config → Result Card
unfolding find_profile
card_for profile c = elim (find_profile profile c.workers) [
  | ok p ↦ ok (card_named p.card c)
  | err e ↦ err e
  | panic ↦ panic
]
