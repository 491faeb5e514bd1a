-- ===== src/Scheduler/Activities.antt =====
-- Proofs about the activities of internal/scheduler/scheduler.go: attempt, runCI, promote and what Step does
-- around them leave the slot idle or with its scheduler.
use scp_harness.Base.{
  inl, inr, Bool, true, false, not, ◌&&◌, ◌||◌, Option, none, some, Result, ok, err, panic, Code,
  ◌==◌, if◌then◌else◌, Bool-cases, Yields-ok, Result-cases, Option-cases, lookup, deref, present,
}
use scp_harness.Model.{
  Key, State, Journal, Step, Config, Task, Attempt, Profile, Message, is_ci, is_promotion_op,
  profile_of, card_named,
}
use Prim.Native.String.{String}
use scp_harness.Store.{Disk, read, update}
use scp_harness.Core.{
  release, release_owned, block, block_in, end_promotion, end_promotion_in, core_update,
  after_tests, prepare_attempt, prepare_ci_in, attempt_allowed, mark_running, complete, complete_in,
  prepare_ci, finish_ci, prepare_promotion, prepare_promotion_in, apply_promotion,
  apply_promotion_in, promotion_evidence, Completion, is_writable,
}
use scp_harness.Core.Vacating.{complete_in-Idle, release-Idle}
use scp_harness.Scheduler.Recovery.{and_then, asking}
use scp_harness.Scheduler.Verdicts.{judge_attempt, first_error}
use scp_harness.Scheduler.Executions.{
  Workshop, TestBench, follow_ref, move_sha_in, find_source, kept_error, start_worker,
  outcome_of_run, aftermath, completion_of, execute, attempt, run_started_in, run_command, run_ci,
  restored,
}
use scp_harness.Scheduler.Promotions.{
  Promoter, promoted_change, refuse_promotion_in, conflict_in, is_outdated, without_value,
  journal_of, swap_ref, promote,
}
use scp_harness.Scheduler.Rounds.{
  Site, run_step, resolve_task, dispatch, blocks_on, charged_to, handle_error, handled,
}
use scp_harness.Scheduler.Holding.{
  Held, update-Held, core_update-Held, move_sha_in-Held, run_started_in-Held, conflict_in-Held,
  refuse_promotion_in-Held, prepare_promotion_in-Held, mark_running_in-Held, block_in-Held,
  end_promotion_in-Held, apply_promotion_in-Held, finish_ci_in-Held, prepare_attempt_in-Held,
  prepare_ci_in-Held,
}

module _ (owner : Key) where
  and_then-Held :
      {A B : Type 0} (r : Result A × State) (f : A → State → Result B × State)
      → Held owner r.1
      → ((a : A) (db : State) → Held owner db → Held owner (f a db).1)
      → Held owner (and_then r f).1
  and_then-Held (ok a, db) f h g = g a db h
  and_then-Held (err e, db) f h g = h
  and_then-Held (panic, db) f h g = h

  asking-Held :
      {A B : Type 0} (call : Result A) (db : State) (f : A → Result B × State)
      → Held owner db
      → ((a : A) → Held owner (f a).1)
      → Held owner (asking call db f).1
  asking-Held (ok a) db f h g = g a
  asking-Held (err e) db f h g = h
  asking-Held panic db f h g = h

  either-Held :
      {A : Type 0} (b : Bool) (x y : Result A × State)
      → Held owner x.1
      → Held owner y.1
      → Held owner (if b then x else y).1
  either-Held true x y hx hy = hx
  either-Held false x y hx hy = hy

  after_tests-Held :
      {A : Type 0} (r : Result (Unit {0})) (db : State) (rest : Result A × State)
      → Held owner db
      → Held owner rest.1
      → Held owner (after_tests r db rest).1
  after_tests-Held (ok u) db rest h g = g
  after_tests-Held (err e) db rest h g = h
  after_tests-Held panic db rest h g = h

  kept_error-Held : (r : Result (Unit {0}) × State) → Held owner r.1 → Held owner (kept_error r).1
  kept_error-Held (ok u, db) h = h
  kept_error-Held (err e, db) h = h
  kept_error-Held (panic, db) h = h

  -- attempt
  follow_ref-Held :
      (cfg : Config) (disk : Disk) (w : Workshop) (p : Step) (db : State)
      → Held owner db
      → Held owner (follow_ref cfg disk w p db).1
  unfolding follow_ref
  follow_ref-Held cfg disk w p db h = asking-Held (read disk db) db _ h λ s.
      asking-Held (deref (lookup p.task_id s.tasks)) db _ h λ t.
        asking-Held (if p.change_id == 0 then w.resolve t.repo_path t.repo_ref else ok t.sha) db _ h
          λ sha. either-Held (sha == t.sha) _ _ h (
            core_update-Held disk owner (move_sha_in p.task_id sha) db
              (move_sha_in-Held owner p.task_id sha) h)

  prepare_attempt-Held :
      (cfg : Config) (disk : Disk) (p : Step) (db : State)
      → Held owner db
      → Held owner (prepare_attempt cfg disk p owner db).1
  unfolding prepare_attempt
  prepare_attempt-Held cfg disk p db h = elim (Result-cases (profile_of p.operation cfg)) [
    | inl (profile, e) ↦
        rw (prepare_attempt, e)
          (after_tests-Held (attempt_allowed p profile (card_named profile.card cfg)) db _ h (
            core_update-Held disk owner _ db
              (λ s hs. prepare_attempt_in-Held owner cfg profile (card_named profile.card cfg) p s)
              h))
    | inr (inl (c, e)) ↦ rw (prepare_attempt, e) h
    | inr (inr e) ↦ rw (prepare_attempt, e) h
  ]

  start_worker-Held :
      (disk : Disk) (e : Option Code) (id : Key) (db : State)
      → Held owner db
      → Held owner (start_worker disk e id db).1
  unfolding start_worker mark_running
  start_worker-Held disk none id db h =
      kept_error-Held _ (core_update-Held disk owner _ db (mark_running_in-Held owner id) h)
  start_worker-Held disk (some e) id db h = h

  complete-Held :
      (cfg : Config) (disk : Disk) (locked : Bool) (v : Completion) (db : State)
      → Held owner db
      → Held owner (complete cfg disk locked v db).1
  unfolding complete
  complete-Held cfg disk locked v db h =
      update-Held disk owner (complete_in cfg locked v) db
        (λ s hs r e. inl (complete_in-Idle cfg locked v s r e)) h

  execute-Held :
      (cfg : Config) (disk : Disk) (w : Workshop) (p : Step) (profile : Profile) (a : Attempt)
      (db : State)
      → Held owner db
      → Held owner (execute cfg disk w p profile a db).1
  unfolding execute
  execute-Held cfg disk w p profile a db h =
      let before : Option Code = first_error w.ready w.uploaded in
      and_then-Held (start_worker disk before a.id db) _ (start_worker-Held disk before a.id db h)
        λ e db1 h1.
          let r = outcome_of_run w e in
          asking-Held
            (judge_attempt (not (present before)) (w.has_directory && is_writable profile.workspace)
              r.0 r.1 (aftermath cfg disk w p a db1))
            db1 _ h1
            λ x.
              and_then-Held (complete cfg disk w.locked (completion_of w p a r.0.exit_code x) db1) _
                (complete-Held cfg disk w.locked (completion_of w p a r.0.exit_code x) db1 h1)
                λ u db2 h2. h2

  attempt-Held :
      (cfg : Config) (disk : Disk) (w : Workshop) (p : Step) (db : State)
      → Held owner db
      → Held owner (attempt cfg disk w owner p db).1
  unfolding attempt
  attempt-Held cfg disk w p db h =
      and_then-Held (follow_ref cfg disk w p db) _ (follow_ref-Held cfg disk w p db h) λ u db1 h1.
        and_then-Held (prepare_attempt cfg disk p owner db1) _
          (prepare_attempt-Held cfg disk p db1 h1)
          λ a db2 h2. asking-Held (profile_of p.operation cfg) db2 _ h2 λ profile.
            asking-Held (find_source disk w profile p db2) db2 _ h2
              λ v. execute-Held cfg disk w p profile a db2 h2

  -- runCI
  prepare_ci-Held :
      (cfg : Config) (disk : Disk) (p : Step) (db : State)
      → Held owner db
      → Held owner (prepare_ci cfg disk p owner db).1
  unfolding prepare_ci
  prepare_ci-Held cfg disk p db h =
      core_update-Held disk owner (prepare_ci_in cfg p owner) db
        (λ s hs. prepare_ci_in-Held owner cfg p s) h

  run_command-Held :
      (disk : Disk) (b : TestBench) (id : Key) (db : State)
      → Held owner db
      → Held owner (run_command disk b id db).1
  unfolding run_command
  run_command-Held disk b id db h = elim (Option-cases (first_error b.opened b.ready)) [
    | inl none_in ↦
        rw (run_command, none_in)
          (and_then-Held (core_update disk (run_started_in id) db) _
            (core_update-Held disk owner (run_started_in id) db (run_started_in-Held owner id) h)
            (λ u db1 h1. h1))
    | inr (e, is) ↦ rw (run_command, is) h
  ]

  run_ci-Held :
      (cfg : Config) (disk : Disk) (b : TestBench) (p : Step) (db : State)
      → Held owner db
      → Held owner (run_ci cfg disk b owner p db).1
  unfolding run_ci finish_ci
  run_ci-Held cfg disk b p db h =
      and_then-Held (prepare_ci cfg disk p owner db) _ (prepare_ci-Held cfg disk p db h) λ r db1 h1.
        asking-Held (read disk db1) db1 _ h1 λ s.
          asking-Held (restored b.opened (lookup p.target_id s.artifacts)) db1 _ h1 λ u.
            and_then-Held (run_command disk b r.id db1) _ (run_command-Held disk b r.id db1 h1)
              λ run db2 h2.
                and_then-Held (finish_ci disk p _ _ db2) _
                  (update-Held disk owner _ db2 (λ s hs. finish_ci_in-Held owner p _ _ s) h2)
                  (λ v db3 h3. h3)

  -- promote
  end_promotion-Held :
      (disk : Disk) (p : Step) (sha : Key) (reason : String) (db : State)
      → Held owner db
      → Held owner (end_promotion disk p sha reason db).1
  unfolding end_promotion
  end_promotion-Held disk p sha reason db h =
      update-Held disk owner (end_promotion_in p sha reason) db
        (λ s hs. end_promotion_in-Held owner p sha reason s) h

  swap_ref-Held :
      (disk : Disk) (m : Promoter) (p : Step) (id : Key) (db : State)
      → Held owner db
      → Held owner (swap_ref disk m p id db).1
  unfolding swap_ref apply_promotion
  swap_ref-Held disk m p id db h =
      either-Held (is_outdated m.swap) _ _
        (and_then-Held (update disk (conflict_in id) db) _
          (update-Held disk owner (conflict_in id) db (conflict_in-Held owner id) h)
          (λ u db1 h1. end_promotion-Held disk p 0 "PRECONDITION_CHANGED" db1 h1))
        (asking-Held m.swap db _ h (λ u.
          update-Held disk owner (apply_promotion_in id) db
            (λ s hs. apply_promotion_in-Held owner id s) h))

  promote-Held :
      (disk : Disk) (m : Promoter) (p : Step) (db : State)
      → Held owner db
      → Held owner (promote disk m p db).1
  unfolding promote prepare_promotion
  promote-Held disk m p db h = asking-Held m.gate db _ h λ u. asking-Held (read disk db) db _ h λ s.
      asking-Held (promoted_change p s) db _ h λ found.
        either-Held (not (promotion_evidence found.1 s)) _ _
          (core_update-Held disk owner (refuse_promotion_in p) db (refuse_promotion_in-Held owner p)
            h)
          (asking-Held m.tree db _ h λ v. asking-Held (deref (lookup p.task_id s.tasks)) db _ h λ t.
            either-Held (is_outdated (without_value m.construct)) _ _
              (end_promotion-Held disk p 0 "PRECONDITION_CHANGED" db h)
              (asking-Held m.construct db _ h λ sha.
                let j : Journal = journal_of m t found.0 sha in
                and_then-Held (prepare_promotion disk j db) _
                  (update-Held disk owner (prepare_promotion_in j) db
                    (prepare_promotion_in-Held owner j) h)
                  (λ w db1 h1. swap_ref-Held disk m p j.id db1 h1)))

  -- Step
  pub dispatch-Held :
      (cfg : Config) (disk : Disk) (m : Site) (p : Step) (db : State)
      → Held owner db
      → Held owner (dispatch cfg disk m owner p db).1
  unfolding dispatch
  dispatch-Held cfg disk m p db h =
      either-Held (is_ci p.operation) _ _ (run_ci-Held cfg disk m.bench p db h) (
        either-Held (is_promotion_op p.operation) _ _ (promote-Held disk m.promoter p db h)
          (attempt-Held cfg disk m.workshop p db h))

  block-Held :
      (disk : Disk) (kind : Code) (task profile runner : Key) (message : Message) (db : State)
      → Held owner db
      → Held owner (block disk kind task profile runner message db).1
  unfolding block
  block-Held disk kind task profile runner message db h =
      update-Held disk owner _ db
        (λ s hs.
          Yields-ok (λ r. Held owner r.1) (tt, block_in kind task profile runner message s)
            (block_in-Held owner kind task profile runner message s hs))
        h

  let_go-Held :
      (s : State) → Held owner s → Held owner (if s.slot_owner == owner then release s else s)
  let_go-Held s h = elim (Bool-cases (s.slot_owner == owner)) [
    | inl ours ↦ rw ours (inl (release-Idle s))
    | inr other ↦ rw other h
  ]

  pub release_owned-Held :
      (disk : Disk) (db : State) → Held owner db → Held owner (release_owned disk owner db).1
  unfolding release_owned
  release_owned-Held disk db h =
      update-Held disk owner _ db (λ s hs. Yields-ok (λ r. Held owner r.1) _ (let_go-Held s hs)) h

  handle_error-Held :
      (cfg : Config) (disk : Disk) (p : Step) (e : Code) (db : State)
      → Held owner db
      → Held owner (handle_error cfg disk owner p e db).1
  unfolding handle_error
  handle_error-Held cfg disk p e db h =
      and_then-Held _ _
        (either-Held (not (blocks_on e)) _ _ h (
          asking-Held (charged_to cfg p.operation) db _ h
            (λ at. block-Held disk e p.task_id at.0 at.1 (Message.error_text e) db h)))
        (λ u db1 h1. release_owned-Held disk db1 h1)

  handled-Held :
      (cfg : Config) (disk : Disk) (p : Step) (r : Result (Unit {0}) × State)
      → Held owner r.1
      → Held owner (handled cfg disk owner p r).1
  unfolding handled
  handled-Held cfg disk p (ok u, db) h = h
  handled-Held cfg disk p (err e, db) h =
      and_then-Held (handle_error cfg disk owner p e db) _ (handle_error-Held cfg disk p e db h)
        (λ u db1 h1. h1)
  handled-Held cfg disk p (panic, db) h = h

  resolve_task-Held :
      (disk : Disk) (m : Site) (t : Task) (db : State)
      → Held owner db
      → Held owner (resolve_task disk m t db).1
  unfolding resolve_task
  resolve_task-Held disk m t db h = elim (Result-cases (m.resolve t.repo_path t.repo_ref)) [
    | inl (sha, e) ↦ rw (resolve_task, e) h
    | inr (inl (c, e)) ↦
        rw (resolve_task, e) (block-Held disk c t.id 0 0 (Message.error_text c) db h)
    | inr (inr e) ↦ rw (resolve_task, e) h
  ]

  -- Whatever the activity of a step does, the slot is idle or still the scheduler's afterwards.
  pub run_step-Held :
      (cfg : Config) (disk : Disk) (m : Site) (p : Step) (db : State)
      → Held owner db
      → Held owner (run_step cfg disk m owner p db).1
  unfolding run_step
  run_step-Held cfg disk m p db h =
      either-Held ((p.change_id == 0) || is_ci p.operation) _ _
        (handled-Held cfg disk p (dispatch cfg disk m owner p db) (dispatch-Held cfg disk m p db h))
        (asking-Held (read disk db) db _ h λ s.
          asking-Held (deref (lookup p.task_id s.tasks)) db _ h λ t.
            and_then-Held (resolve_task disk m t db) _ (resolve_task-Held disk m t db h)
              λ sha db1 h1. asking-Held (deref (lookup p.change_id s.changes)) db1 _ h1 λ ch.
                either-Held (sha == ch.base_sha) _ _
                  (handled-Held cfg disk p (dispatch cfg disk m owner p db1)
                    (dispatch-Held cfg disk m p db1 h1))
                  (and_then-Held (end_promotion disk p sha "BASE_CHANGED" db1) _
                    (end_promotion-Held disk p sha "BASE_CHANGED" db1 h1) (λ u db2 h2. h2)))
