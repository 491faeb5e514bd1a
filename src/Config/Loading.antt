-- ===== src/Config/Loading.antt =====
-- Load of internal/config/config.go, on a configuration that encoding/json has read.
use scp_harness.Base.{
  ℤ, pos, Bool, true, false, not, ◌&&◌, ◌||◌, Option, List, [], ◌∷◌, Map, lookup, any, Result, ok,
  err, panic, Code, ◌>>=◌, ◌>>◌, fail_if, or_fail, ◌==◌, if◌then◌else◌, eq_ℤ, le_ℤ, lt_ℤ, present,
  length, Text, blank,
}
use scp_harness.Model.{
  Key, Card, Config, Profile, Workspace, Operation, profile_of, is_merge, is_discussion, same,
  Operation-discrete,
}
use scp_harness.Config.Cards.{RawCard, parse_card}

-- A worker profile as it is read; a workspace that is none of the three is `none`.
pub record RawProfile : Type 0 where
  pub id : Key
  pub command : List Key
  pub card : Key
  pub timeout : ℤ
  pub workspace : Option Workspace
  pub synthetic : Bool
  pub unavailable : List ℤ

-- `limits` are the limits that Load bounds other than `limits.result` and `ci.timeout_ms`, `named`
-- whether the distributions and the root of the attempts have the names that Load asks for.
pub record RawConfig : Type 0 where
  pub version : ℤ
  pub database : Text
  pub artifacts : Text
  pub operator : Key
  pub role_cards : Map Key
  pub named : Bool
  pub distro : Key
  pub test_distro : Key
  pub exploration_n : ℤ
  pub limits : List ℤ
  pub result_max : ℤ
  pub test_timeout : ℤ
  pub test_command : List Key
  pub workers : List RawProfile
  pub operations : List (Operation × Key)
  pub hash : Key

-- `math.MaxInt64/1000000`
abbrev pub max_limit : ℤ
max_limit = pos 9223372036854

abbrev pub out_of_bounds : ℤ → Bool
out_of_bounds v = le_ℤ v (pos 0) || lt_ℤ max_limit v

-- `command`; a text of blanks is 0, as the empty one is.
abbrev pub is_command : List Key → Bool
is_command [] = false
is_command (c ∷ cs) = not (c == 0)

-- `fail(e.Error())`
abbrev pub invalid_config : {A : Type 0} → Result A → Result A
invalid_config (ok a) = ok a
invalid_config (err e) = err Code.invalid_config
invalid_config panic = panic

-- The loop over the role cards: the files, by what they hold, are read and parsed.
unfoldable pub read_cards : (Key → Option RawCard) → Map Key → Result (Map Card)
read_cards files [] = ok []
read_cards files ((id, path) ∷ rest) = do
  raw ← or_fail (files path) Code.invalid_config
  card ← invalid_config (parse_card raw)
  cards ← read_cards files rest
  ok ((id, card) ∷ cards)

-- `code < 1 || code > 255 || codes[code]`
unfoldable pub exit_codes_fit : List ℤ → Bool
exit_codes_fit [] = true
exit_codes_fit (c ∷ cs) =
    not (lt_ℤ c (pos 1)) && not (lt_ℤ (pos 255) c) && not (any (eq_ℤ c) cs) && exit_codes_fit cs

abbrev pub no_workspace : Workspace → Bool
no_workspace Workspace.absent = true
no_workspace _ = false

-- One round of the loop over the workers, after the profiles of the earlier ones.
unfoldable pub read_profile : Map Card → List Profile → RawProfile → Result Profile
read_profile cards earlier p = do
  fail_if ((p.id == 0) || not (is_command p.command) || out_of_bounds p.timeout) Code.invalid_config
  workspace ← or_fail p.workspace Code.invalid_config
  fail_if (any (λ q. q.id == p.id) earlier) Code.invalid_config
  fail_if (not (present (lookup p.card cards))) Code.invalid_config
  fail_if (not (exit_codes_fit p.unavailable)) Code.invalid_config
  fail_if (p.synthetic && no_workspace workspace) Code.invalid_config
  ok (record {
    id = p.id;
    card = p.card;
    timeout = p.timeout;
    workspace = workspace;
    synthetic = p.synthetic;
  })

unfoldable pub read_profiles : Map Card → List Profile → List RawProfile → Result (List Profile)
read_profiles cards earlier [] = ok []
read_profiles cards earlier (p ∷ ps) = do
  profile ← read_profile cards earlier p
  rest ← read_profiles cards (profile ∷ earlier) ps
  ok (profile ∷ rest)

-- `c.Operations[op]`
unfoldable pub profile_id : Operation → List (Operation × Key) → Key
profile_id op [] = 0
profile_id op ((o, id) ∷ rest) = if same Operation-discrete o op then id else profile_id op rest

-- `modes`
abbrev pub modes : List (Operation × Workspace)
modes =
    (Operation.mutation, Workspace.writable)
    ∷ (Operation.review, Workspace.readonly)
    ∷ (Operation.option_generation, Workspace.readonly)
    ∷ (Operation.merge_judge, Workspace.absent)
    ∷ (Operation.merge_synth, Workspace.absent)
    ∷ (Operation.discussion, Workspace.readonly)
    ∷ []

abbrev pub same_workspace : Workspace → Workspace → Bool
same_workspace Workspace.absent Workspace.absent = true
same_workspace Workspace.readonly Workspace.readonly = true
same_workspace Workspace.writable Workspace.writable = true
same_workspace _ _ = false

-- The workspaces that an operation may have: a merge may also read.
abbrev pub workspace_allowed : Operation → Workspace → Workspace → Bool
workspace_allowed op mode given =
    same_workspace given mode || is_merge op && same_workspace given Workspace.readonly

abbrev pub mode_fits : Operation → Workspace → Result Profile → Bool
mode_fits op mode (ok p) =
    workspace_allowed op mode p.workspace && not (is_discussion op && p.synthetic)
mode_fits op mode _ = false

unfoldable pub modes_fit : List (Operation × Workspace) → Config → Bool
modes_fit [] c = true
modes_fit ((op, mode) ∷ rest) c = mode_fits op mode (profile_of op c) && modes_fit rest c

-- The eleven limits that Load bounds.
abbrev pub bounded_limits : RawConfig → List ℤ
bounded_limits raw = raw.result_max ∷ raw.test_timeout ∷ raw.limits

-- Load, where `files` gives what the file of a role card holds, if it can be read.
unfoldable pub load : (Key → Option RawCard) → RawConfig → Result Config
load files raw = do
  fail_if
      (not (eq_ℤ raw.version (pos 0))
        || blank raw.database
        || blank raw.artifacts
        || not raw.named
        || le_ℤ raw.exploration_n (pos 0))
      Code.invalid_config
  fail_if (any out_of_bounds (bounded_limits raw)) Code.invalid_config
  fail_if (not (is_command raw.test_command)) Code.invalid_config
  cards ← read_cards files raw.role_cards
  fail_if (not (present (lookup raw.operator cards))) Code.invalid_config
  workers ← read_profiles cards [] raw.workers
  let c : Config = record {
    operator = raw.operator;
    cards = cards;
    workers = workers;
    operations = λ op. profile_id op raw.operations;
    distro = raw.distro;
    test_distro = raw.test_distro;
    exploration_n = raw.exploration_n;
    result_max = raw.result_max;
    test_timeout = raw.test_timeout;
    test_command = raw.test_command;
    hash = raw.hash;
  }
  fail_if (not (length raw.operations == 6)) Code.invalid_config
  fail_if (not (modes_fit modes c)) Code.invalid_config
  ok c
