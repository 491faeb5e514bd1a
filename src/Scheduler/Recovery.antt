-- ===== src/Scheduler/Recovery.antt =====
-- Recover of internal/scheduler/recover.go, over what the machine answers.
use scp_harness.Base.{
  ℕ, ◌+◌, Bool, not, ◌&&◌, Option, none, some, List, [], ◌∷◌, Map, lookup, Result, ok, err, panic,
  Code, ◌>>=◌, ◌>>◌, deref, ◌==◌, if◌then◌else◌,
}
use scp_harness.Model.{
  Key, State, Task, Step, Artifact, Attempt, Journal, Config, Message, Profile, active_attempt,
  is_prepared, profile_of,
}
use scp_harness.Store.{Disk, read, update}
use scp_harness.Core.{block, release_owned, sorted_tasks, is_writable}
use scp_harness.Scheduler.Captures.{Submitted, capture}
use scp_harness.Scheduler.Reconciliation.{
  seize_slot, crash_attempt_in, retire_in, outcome_of, reconcile_in, release_controls,
}

-- What the operating system, the runners, git and the file system answer while Recover runs.
pub record Machine : Type 0 where
  pub lock_owner_alive : Bool
  pub alive : Key → Bool
  pub gate : Key → Result (Unit {0})
  pub stop_worker : Result (Unit {0})
  pub stop_tests : Result (Unit {0})
  pub leftover : Attempt → Result Bool
  pub scratch : Attempt → Result (Unit {0})
  pub submitted : Attempt → Submitted
  pub resolve : Key → Key → Result Key
  pub clean : Result (Unit {0})
  pub unlock : Result Bool

pub record Recovered : Type 0 where
  pub attempts : List Key
  pub journals : ℕ
  pub stale : Bool

-- What the code does after a call on the database that succeeded.
abbrev pub and_then :
    {A B : Type 0} → Result A × State → (A → State → Result B × State) → Result B × State
and_then (ok a, db) next = next a db
and_then (err e, db) next = (err e, db)
and_then (panic, db) next = (panic, db)

-- A call that only asks, between two calls on the database.
abbrev pub asking : {A B : Type 0} → Result A → State → (A → Result B × State) → Result B × State
asking call db next = and_then (call, db) λ a db'. next a

unfoldable pub take_gates : Machine → List Task → Result (Unit {0})
take_gates m [] = ok tt
take_gates m (t ∷ ts) = m.gate t.id >> take_gates m ts

-- A runner that does not stop is blocked, and the recovery ends.
unfoldable pub stop_runner : Disk → Result (Unit {0}) → Key → State → Result (Unit {0}) × State
stop_runner disk (ok _) runner db = (ok tt, db)
stop_runner disk (err e) runner db =
    (err e, (block disk Code.runner_unavailable 0 0 runner (Message.error_text e) db).1)
stop_runner disk panic runner db = (panic, db)

-- The step of an Attempt whose task has no pending one.
abbrev pub step_of : Attempt → Option Step → Step
step_of a (some p) = p
step_of a none = record {
  change_id = a.change_id;
  ci_run_id = 0;
  request_id = 0;
  task_id = a.task_id;
  option_id = a.anchor_id;
  operation = a.operation;
  target_type = a.target_type;
  target_id = a.target_id;
  participants = [];
}

-- A capture that is too large is left behind.
abbrev pub within_limits : Result Artifact → Result (Option Artifact)
within_limits (ok f) = ok (some f)
within_limits (err Code.limit_exceeded) = ok none
within_limits (err e) = err e
within_limits panic = panic

unfoldable pub captured_of :
    Disk → Machine → Profile → Attempt → Step → State → Result (Option Artifact)
captured_of disk m profile a p db = if not (is_writable profile.workspace) then ok none else (do
  there ← m.leftover a
  if not there then ok none else m.scratch a >> within_limits (capture disk (m.submitted a) a p db))

-- The loop over the Attempts of the state that was read.
unfoldable pub recover_attempts :
    Config → Disk → Machine → State → Map Attempt → State → Result (List Key) × State
recover_attempts cfg disk m s [] db = (ok [], db)
recover_attempts cfg disk m s ((_, a) ∷ rest) db =
    let later : State → Result (List Key) × State = λ db'. recover_attempts cfg disk m s rest db' in
    if not (active_attempt a)
    then later db
    else asking (profile_of a.operation cfg) db λ profile.
      let p : Step = step_of a (lookup a.task_id s.pending) in
      asking (captured_of disk m profile a p db) db λ captured.
        and_then (update disk (crash_attempt_in a p captured) db)
          λ _ db1. and_then (later db1) λ ids db2. (ok (a.id ∷ ids), db2)

-- The promotion whose ref cannot be read blocks its task, and the recovery ends.
unfoldable pub resolve_or_block : Disk → Result Key → Key → State → Result Key × State
resolve_or_block disk (ok sha) task db = (ok sha, db)
resolve_or_block disk (err e) task db = (err e, (block disk e task 0 0 (Message.error_text e) db).1)
resolve_or_block disk panic task db = (panic, db)

-- The loop over the journals, with how many were prepared.
unfoldable pub recover_journals : Disk → Machine → State → Map Journal → State → Result ℕ × State
recover_journals disk m s [] db = (ok 0, db)
recover_journals disk m s ((_, j) ∷ rest) db =
    let later : State → Result ℕ × State = λ db'. recover_journals disk m s rest db' in
    if not (is_prepared j.state)
    then later db
    else asking (deref (lookup j.task_id s.tasks)) db λ t.
      and_then (resolve_or_block disk (m.resolve t.repo_path j.ref) t.id db) λ sha db1.
        and_then (update disk (reconcile_in j (outcome_of sha j)) db1)
          λ _ db2. and_then (later db2) λ n db3. (ok (n + 1), db3)

-- The part of Recover that holds the slot.
unfoldable pub recover_held :
    Config → Disk → Machine → List Task → State → State → Result Recovered × State
recover_held cfg disk m controlled s db =
    and_then (stop_runner disk m.stop_worker cfg.distro db) λ _ db1.
      and_then (stop_runner disk m.stop_tests cfg.test_distro db1) λ _ db2.
        and_then (recover_attempts cfg disk m s s.attempts db2) λ ids db3.
          and_then (update disk retire_in db3) λ _ db4. asking (read disk db4) db4 λ s4.
            and_then (recover_journals disk m s4 s4.journals db4) λ n db5.
              asking (m.clean >> m.unlock) db5 λ stale.
                and_then
                  (update disk (λ st. do st' ← release_controls controlled st; ok (tt, st')) db5)
                  λ _ db6. (ok (record { attempts = ids; journals = n; stale = stale }), db6)

-- Recover, of the process `pid` and the scheduler `owner`.
unfoldable pub recover : Config → Disk → Machine → Key → Key → State → Result Recovered × State
recover cfg disk m owner pid db =
    if m.lock_owner_alive
    then (err Code.blocked, db)
    else asking (read disk db) db λ s. asking (take_gates m (sorted_tasks s)) db λ _.
      asking (read disk db) db λ s1.
        if not (s1.slot_pid == 0) && m.alive s1.slot_pid
        then (err Code.blocked, db)
        else and_then (update disk (seize_slot m.alive owner pid) db) λ _ db1.
          let (result, db2) = recover_held cfg disk m (sorted_tasks s) s1 db1 in
          (result, (release_owned disk owner db2).1)
