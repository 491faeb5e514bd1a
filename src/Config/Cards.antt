-- ===== src/Config/Cards.antt =====
-- ParseCard and LeaseMS of internal/config/config.go, on a role card that encoding/json has read.
use scp_harness.Base.{
  ℕ, ℤ, pos, Bool, false, not, ◌||◌, Option, none, some, List, [], ◌∷◌, all, any, Result, ok, Code,
  ◌>>=◌, ◌>>◌, fail_if, or_fail, ◌==◌, if◌then◌else◌, eq_ℤ, le_ℤ, min_ℤ, max_int64,
}
use scp_harness.Model.{Key, Card, Capability, Channel, capability_index, channel_index}

-- A limit by what its JSON number stands for.
pub data Number : Type 0 where
  not_number fraction : Number
  integral : ℤ → Number

pub data CapabilityScope : Type 0 where
  absent task_repository lease_sandbox other : CapabilityScope

-- An element of `capabilities`: its name, if it is one of config.Capabilities, its scope, and how
-- many fields it has.
pub record RawCapability : Type 0 where
  pub name : Option Capability
  pub scope : CapabilityScope
  pub fields : ℕ

-- A role card as config.Strict reads it: the channels are those of config.Channels, if they are;
-- an influence is represented by whether its key is well formed and its value a number of at
-- least 0.
pub record RawCard : Type 0 where
  pub version : ℤ
  pub id : Key
  pub context : List (Option Channel)
  pub capabilities : List RawCapability
  pub limits : ℕ
  pub wall : Number
  pub influence : List Bool

-- `!numeric || !isInteger || integerWall == "0" || negative(wall)` denied, with the value; a value
-- that is no int64 reads as the largest.
abbrev pub lease_of : Number → Option ℤ
lease_of (Number.integral n) = if le_ℤ n (pos 0) then none else some (min_ℤ n max_int64)
lease_of _ = none

abbrev pub seen_channel : Channel → List Channel → Bool
seen_channel c = any (λ d. channel_index d == channel_index c)

unfoldable pub read_context : List Channel → List (Option Channel) → Result (List Channel)
read_context seen [] = ok []
read_context seen (raw ∷ raws) = do
  c ← or_fail raw Code.schema_invalid
  fail_if (seen_channel c seen) Code.schema_invalid
  rest ← read_context (c ∷ seen) raws
  ok (c ∷ rest)

-- The scope that a capability must name, and how many fields it has then.
abbrev pub expected_scope : Capability → CapabilityScope
expected_scope Capability.repository_read = CapabilityScope.task_repository
expected_scope Capability.sandbox_write = CapabilityScope.lease_sandbox
expected_scope Capability.process_execute = CapabilityScope.lease_sandbox
expected_scope _ = CapabilityScope.absent

abbrev pub scope_fits : CapabilityScope → CapabilityScope → ℕ → Bool
scope_fits CapabilityScope.absent given fields = fields == 1
scope_fits CapabilityScope.task_repository CapabilityScope.task_repository fields = fields == 2
scope_fits CapabilityScope.lease_sandbox CapabilityScope.lease_sandbox fields = fields == 2
scope_fits _ _ fields = false

abbrev pub seen_capability : Capability → List Capability → Bool
seen_capability c = any (λ d. capability_index d == capability_index c)

unfoldable pub read_capabilities : List Capability → List RawCapability → Result (List Capability)
read_capabilities seen [] = ok []
read_capabilities seen (raw ∷ raws) = do
  c ← or_fail raw.name Code.schema_invalid
  fail_if (seen_capability c seen) Code.schema_invalid
  fail_if (not (scope_fits (expected_scope c) raw.scope raw.fields)) Code.schema_invalid
  rest ← read_capabilities (c ∷ seen) raws
  ok (c ∷ rest)

unfoldable pub parse_card : RawCard → Result Card
parse_card raw = do
  fail_if (not (eq_ℤ raw.version (pos 0)) || (raw.id == 0) || not (raw.limits == 1))
      Code.schema_invalid
  lease ← or_fail (lease_of raw.wall) Code.schema_invalid
  context ← read_context [] raw.context
  capabilities ← read_capabilities [] raw.capabilities
  fail_if (not (all (λ fine. fine) raw.influence)) Code.schema_invalid
  ok (record { id = raw.id; context = context; capabilities = capabilities; lease = lease })
