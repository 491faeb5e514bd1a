-- ===== src/Store/Validation.antt =====
-- Validate of internal/store/store.go. Every complaint has the code CORE_INCONSISTENT, so the
-- loops are tests. Nil maps and nil entries cannot be written in the model's state.
use scp_harness.Base.{
  pos, Bool, true, false, not, ◌&&◌, ◌||◌, none, some, List, [], ◌∷◌, Map, lookup, all_entries,
  holds, count_entries, ◌==◌, leb, present, contains, if◌then◌else◌, Result, ok, err, panic, Code,
  ◌>>=◌, ◌>>◌, fail_if, lt_ℤ, eq_ℤ, all,
}
use scp_harness.Model.{
  Key, State, Task, Proposal, Account, Artifact, Attempt, Edge, Step, TaskStatus, OptionStatus,
  AttemptStatus, active_attempt, is_active, same, Resources-discrete,
}
use scp_harness.Ledger.{ancestors, walk_fuel, refresh}
use scp_harness.Store.Queries.{is_subject, task_quiescent}
use scp_harness.Store.ChangeChecks.{changes_valid}

abbrev known_attempt_status : AttemptStatus → Bool
known_attempt_status AttemptStatus.other = false
known_attempt_status _ = true

abbrev known_option_status : OptionStatus → Bool
known_option_status OptionStatus.other = false
known_option_status _ = true

abbrev known_task_status : TaskStatus → Bool
known_task_status TaskStatus.other = false
known_task_status _ = true

-- The first loops: each record stands under its own id.
unfoldable pub records_keyed : State → Bool
records_keyed s =
    all_entries (λ id t. (id == t.id) && present (lookup id s.exploration)) s.tasks
    && all_entries (λ id o. id == o.id) s.options
    && all_entries (λ id a. id == a.id) s.artifacts
    && all_entries (λ id c. id == c.id) s.claims
    && all_entries (λ id a. (id == a.id) && known_attempt_status a.status) s.attempts

unfoldable pub pending_consistent : State → Key → Step → Bool
pending_consistent s id p =
    (p.task_id == id) && present (lookup id s.tasks) && is_subject id p.target_type p.target_id s

unfoldable pub task_root : State → Key → Task → Bool
task_root s id t =
    (id == t.id)
    && holds (λ a. (a.parent == 0) && (a.task_id == id)) (lookup id s.accounts)
    && known_task_status t.status

-- `s.RepositoryIdentities[id]`, "" if it is missing.
abbrev pub identity_of : Key → Map Key → Key
identity_of id m = elim (lookup id m) [ none ↦ 0 | some i ↦ i ]

-- The set `repos`: every active task has a repository of its own.
unfoldable pub repositories_distinct : Map Key → List Key → Map Task → Bool
repositories_distinct identities seen [] = true
repositories_distinct identities seen ((id, t) ∷ m) =
    not (
      is_active t.status
      && ((identity_of id identities == 0) || contains (identity_of id identities) seen))
    && repositories_distinct identities
        (if is_active t.status then identity_of id identities ∷ seen else seen) m

unfoldable pub option_account : State → Key → Proposal → Bool
option_account s id o =
    (id == o.id)
    && present (lookup o.task_id s.tasks)
    && holds
        (λ a. (a.task_id == o.task_id) && (a.parent == o.parent) && eq_ℤ a.remaining o.remaining)
        (lookup id s.accounts)
    && known_option_status o.status

-- The walk from an account to its root meets no account twice and none that is missing.
unfoldable pub walk_ends : Map Account → Key → Bool
walk_ends m id = elim (ancestors (walk_fuel m) [] id m) [
  | ok _ ↦ true
  | err _ ↦ false
  | panic ↦ false
]

unfoldable pub account_consistent : State → Key → Account → Bool
account_consistent s id a =
    present (lookup a.task_id s.tasks)
    && not (lt_ℤ a.remaining (pos 0))
    && ((id == a.task_id) || present (lookup id s.options))
    && ((a.parent == 0) || holds (λ p. p.task_id == a.task_id) (lookup a.parent s.accounts))
    && walk_ends s.accounts id

unfoldable pub edge_consistent : State → Edge → Bool
edge_consistent s e = present (lookup e.parent s.options) && present (lookup e.child s.options)

unfoldable pub artifact_consistent : State → Key → Artifact → Bool
artifact_consistent s id a =
    holds (λ o. o.task_id == a.task_id) (lookup a.anchor s.options)
    && holds (λ t. t.task_id == a.task_id) (lookup a.attempt_id s.attempts)

unfoldable pub attempt_consistent : State → Key → Attempt → Bool
attempt_consistent s id a =
    present (lookup a.task_id s.tasks)
    && holds (λ x. x.task_id == a.task_id) (lookup a.anchor_id s.accounts)
    && is_subject a.task_id a.target_type a.target_id s
    && (if active_attempt a
        then present (lookup a.id s.leases)
        else not (present (lookup a.id s.leases)))

-- The checks before Refresh, in the order of the code.
unfoldable pub consistent : State → Bool
consistent s =
    records_keyed s
    && all_entries (pending_consistent s) s.pending
    && all_entries (task_root s) s.tasks
    && repositories_distinct s.repository_identities [] s.tasks
    && all_entries (option_account s) s.options
    && all_entries (account_consistent s) s.accounts
    && all (edge_consistent s) s.edges
    && all_entries (artifact_consistent s) s.artifacts
    && all_entries (attempt_consistent s) s.attempts
    && leb (count_entries active_attempt s.attempts) 1
    && all_entries (λ id t. is_active t.status || task_quiescent id s) s.tasks
    && all_entries (λ _ c. is_subject c.task_id c.subject_type c.subject_id s) s.claims
    && all_entries
        (λ _ j. present (lookup j.task_id s.tasks) && present (lookup j.artifact_id s.artifacts))
        s.journals
    && changes_valid s

-- `expected[id] != t.Resources`, where `expected` was taken before Refresh
abbrev pub projections_kept : Map Task → Map Task → Bool
projections_kept before after =
    all_entries
      (λ id t.
        holds (λ (b : Task). same Resources-discrete b.resources t.resources) (lookup id before))
      after

-- Validate works on the state: what it returns has gone through Refresh.
unfoldable pub validate : State → Result State
validate s = do
  fail_if (not (consistent s)) Code.core_inconsistent
  s' ← refresh s
  fail_if (not (projections_kept s.tasks s'.tasks)) Code.core_inconsistent
  ok s'
