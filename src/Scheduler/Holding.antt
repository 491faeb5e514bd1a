-- ===== src/Scheduler/Holding.antt =====
-- Proofs that no transaction of an activity takes the slot away from its scheduler without leaving it
-- idle: those of internal/core/runtime.go, ci.go, promotion.go and internal/scheduler/scheduler.go.
use scp_harness.Base.{
  ◌+◌, ◌≡◌, ◌⊎◌, inl, inr, refl, sym, subst, ◌∙◌, Bool, true, false, not, ◌&&◌, ◌||◌, Option, none,
  some, lookup, insert, Result, ok, err, panic, Code, ◌==◌, ==_iff, if◌then◌else◌, arith,
  Bool-cases, Option-cases, ℤ, pos, le_ℤ, lt_ℤ, min_ℤ, fail_if, or_fail, deref, Yields, Yields-ok,
  Yields-bind, present,
}
use scp_harness.Model.{
  Key, State, Step, Config, Profile, Card, Journal, CiRun, Attempt, AttemptStatus, Message,
  terminal, is_stale, fresh_id, drawn, ci_queued, audit, touch, flagged, is_busy, is_prepared,
  active_run, is_mutation_op, is_review,
}
use scp_harness.Ledger.{refresh, reserve, settle}
use scp_harness.Ledger.Soundness.{refresh-frame}
use scp_harness.Store.{Disk, update, upserted}
use scp_harness.Store.Commits.{validate-ok, update-Ends, Ends, AfterFailure}
use scp_harness.Core.{
  idle_slot, release, finish_activity, set_change_now, core_update, check, checked, mark_running_in,
  prepare_attempt_in, attempt_admits, attach, new_attempt, anchor, runnable, change_authority,
  prepare_ci_in, run_to_start, finish_ci_in, end_promotion_in, rebase, prepare_promotion_in,
  apply_promotion_in, block_in, blocker_of, code_name, promotion_authority,
}
use Prim.Native.String.{String}
use scp_harness.Core.Vacating.{touch-Idle, release-Idle, finish_activity-Idle}
use scp_harness.Core.Serving.{Yields-after}
use scp_harness.Scheduler.Executions.{move_sha_in, run_started_in}
use scp_harness.Scheduler.Promotions.{refuse_promotion_in, conflict_in}
use scp_harness.Scheduler.Rounds.{pause_signalled_in}

-- The slot is idle, or it is the scheduler's.
abbrev pub Held : Key → State → Type 0
Held owner s = (s.slot ≡ idle_slot) ⊎ (s.slot_owner ≡ owner)

-- A state whose slot is that of another one.
pub record SameSlot (s s' : State) : Type 0 where
  pub slot : s'.slot ≡ s.slot
  pub slot_owner : s'.slot_owner ≡ s.slot_owner

pub SameSlot-Held : (owner : Key) (s s' : State) → SameSlot s s' → Held owner s → Held owner s'
SameSlot-Held owner s s' f (inl idle) = inl (f.slot ∙ idle)
SameSlot-Held owner s s' f (inr ours) = inr (f.slot_owner ∙ ours)

pub refreshed-SameSlot : (s : State) {s' : State} → refresh s ≡ ok s' → SameSlot s s'
refreshed-SameSlot s {s'} e =
    let (ts, frame) = refresh-frame s e in
    subst (SameSlot s) (sym frame) (record { slot = refl; slot_owner = refl })

-- The writes of blockers and journals.
pub stored-SameSlot :
    (loaded s : State) {after : State} → after ≡ upserted loaded s → SameSlot s after
stored-SameSlot loaded s e = subst (SameSlot s) (sym e) (record { slot = refl; slot_owner = refl })

failed-SameSlot :
    (db : State) (code : Code) (after : State) → AfterFailure db code after → SameSlot db after
failed-SameSlot db code after (AfterFailure.unchanged e) =
    subst (SameSlot db) e (record { slot = refl; slot_owner = refl })
failed-SameSlot db code after (AfterFailure.blocked five free e) =
    subst (SameSlot db) (sym e) (record { slot = refl; slot_owner = refl })

ended-Held :
    {A : Type 0} (owner : Key) (fn : State → Result (A × State)) (db : State)
    → ((s : State) → Held owner s → Yields (λ r. Held owner r.1) (fn s))
    → Held owner db
    → (r : Result A × State) → Ends fn db r
    → Held owner r.1
ended-Held owner fn db f h (ok a, after) c =
    let (_, loads, _) = validate-ok db c.valid_before in
    let (_, again, _) = validate-ok c.refreshed c.valid_after in
    let loaded = SameSlot-Held owner db c.loaded (refreshed-SameSlot db loads) h in
    let changed = f c.loaded loaded (a, c.changed) c.ran in
    SameSlot-Held owner c.checked after (stored-SameSlot c.loaded c.checked c.stored) (
      SameSlot-Held owner c.refreshed c.checked (refreshed-SameSlot c.refreshed again) (
        SameSlot-Held owner c.changed c.refreshed (refreshed-SameSlot c.changed c.projected_anew)
          changed))
ended-Held owner fn db f h (err code, after) c =
    SameSlot-Held owner db after (failed-SameSlot db code after c) h
ended-Held owner fn db f h (panic, after) c = subst (Held owner) (sym c) h

-- What holds of the transaction holds of the call of Update, however it ends.
pub update-Held :
    {A : Type 0} (disk : Disk) (owner : Key) (fn : State → Result (A × State)) (db : State)
    → ((s : State) → Held owner s → Yields (λ r. Held owner r.1) (fn s))
    → Held owner db
    → Held owner (update disk fn db).1
update-Held disk owner fn db f h =
    ended-Held owner fn db f h (update disk fn db) (update-Ends disk fn db)

pub core_update-Held :
    {A : Type 0} (disk : Disk) (owner : Key) (fn : State → Result (A × State)) (db : State)
    → ((s : State) → Held owner s → Yields (λ r. Held owner r.1) (fn s))
    → Held owner db
    → Held owner (core_update disk fn db).1
unfolding core_update
core_update-Held disk owner fn db f h =
    update-Held disk owner (checked fn) db
      (λ s hs. Yields-after (λ r. Held owner r.1) (check s) _ λ u. f s hs) h

touch-SameSlot : (k : Key) (s : State) → SameSlot s (touch k s)
unfolding touch
touch-SameSlot k s = record { slot = ground arith; slot_owner = ground arith }

SameSlot-refl : (s : State) → SameSlot s s
SameSlot-refl s = record { slot = refl; slot_owner = refl }

either-SameSlot :
    (b : Bool) (s x y : State) → SameSlot s x → SameSlot s y → SameSlot s (if b then x else y)
either-SameSlot true s x y hx hy = hx
either-SameSlot false s x y hx hy = hy

module _ (owner : Key) where
  abbrev HeldBy : {A : Type 0} → A × State → Type 0
  HeldBy r = Held owner r.1

  -- The transactions that leave the slot as it is.
  stays :
      {A : Type 0} (a : A) (s s' : State)
      → SameSlot s s'
      → Held owner s
      → Yields HeldBy (ok (a, s'))
  stays a s s' f h = Yields-ok HeldBy (a, s') (SameSlot-Held owner s s' f h)

  pub move_sha_in-Held :
      (task sha : Key) (s : State) → Held owner s → Yields HeldBy (move_sha_in task sha s)
  unfolding move_sha_in
  move_sha_in-Held task sha s h = Yields-after HeldBy (deref (lookup task s.tasks)) _ λ t.
      let f =
        touch-SameSlot task (record s { tasks = insert task (record t { sha = sha }) s.tasks }) in
      stays tt s _ (record { slot = f.slot; slot_owner = f.slot_owner }) h

  pub run_started_in-Held :
      (id : Key) (s : State) → Held owner s → Yields HeldBy (run_started_in id s)
  unfolding run_started_in
  run_started_in-Held id s h =
      Yields-after HeldBy (deref (lookup id s.ci_runs)) _
        λ r. stays tt s _ (record { slot = refl; slot_owner = refl }) h

  pub conflict_in-Held : (id : Key) (s : State) → Held owner s → Yields HeldBy (conflict_in id s)
  unfolding conflict_in
  conflict_in-Held id s h =
      Yields-after HeldBy (deref (lookup id s.journals)) _
        λ r. stays tt s _ (record { slot = refl; slot_owner = refl }) h

  pub refuse_promotion_in-Held :
      (p : Step) (s : State) → Held owner s → Yields HeldBy (refuse_promotion_in p s)
  unfolding refuse_promotion_in set_change_now audit
  refuse_promotion_in-Held p s h =
      Yields-after HeldBy (deref (lookup p.change_id s.changes)) _
        λ ch. stays tt s _ (record { slot = refl; slot_owner = refl }) h

  pub prepare_promotion_in-Held :
      (j : Journal) (s : State) → Held owner s → Yields HeldBy (prepare_promotion_in j s)
  unfolding prepare_promotion_in
  prepare_promotion_in-Held j s h =
      let written : State = record s { journals = insert j.id j s.journals } in
      let f = touch-SameSlot j.task_id written in
      Yields-after HeldBy (fail_if (flagged j.task_id s.cancellations) Code.precondition_failed) _
        λ u.
          Yields-after HeldBy (or_fail (lookup j.artifact_id s.artifacts) Code.precondition_failed)
            _
            λ a.
              Yields-after HeldBy
                (fail_if
                  (not (a.task_id == j.task_id)
                    || not (a.base_sha == j.old_sha)
                    || not (promotion_authority (lookup a.change_id s.changes) s))
                  Code.precondition_failed)
                _
                λ v.
                  stays tt s (touch j.task_id written)
                    (record { slot = f.slot; slot_owner = f.slot_owner }) h

  pub pause_signalled_in-Held :
      (id : Key) (s : State) → Held owner s → Yields HeldBy (pause_signalled_in id s)
  unfolding pause_signalled_in set_change_now
  pause_signalled_in-Held id s h = elim (Option-cases (lookup id s.changes)) [
    | inl missing ↦ rw (pause_signalled_in, missing) (stays tt s s (SameSlot-refl s) h)
    | inr (ch, e) ↦
        rw (pause_signalled_in, e)
          (stays tt s _
            (either-SameSlot (terminal ch || is_stale ch.state) s s _ (SameSlot-refl s)
              (record { slot = refl; slot_owner = refl }))
            h)
  ]

  pub mark_running_in-Held :
      (id : Key) (s : State) → Held owner s → Yields HeldBy (mark_running_in id s)
  unfolding mark_running_in
  mark_running_in-Held id s h r e = elim (Option-cases (lookup id s.attempts)) [
    | inl missing ↦ absurd (ground arith)
    | inr (a, ea) ↦
        let s1 : State = record s {
          attempts = insert id (record a { status = AttemptStatus.running }) s.attempts;
        } in
        let f = touch-SameSlot a.task_id s1 in
        let made : ◌≡◌ {A = Unit {0} × State} (tt, touch a.task_id s1) r = ground arith in
        subst HeldBy made (
          SameSlot-Held owner s (touch a.task_id s1)
            (record { slot = f.slot; slot_owner = f.slot_owner }) h)
  ]

  pub block_in-Held :
      (kind : Code) (task profile runner : Key) (message : Message) (s : State)
      → Held owner s
      → Held owner (block_in kind task profile runner message s)
  unfolding block_in audit
  block_in-Held kind task profile runner message s h =
      let written : State = record s {
        blockers = insert (fresh_id s) (blocker_of kind task profile runner message s) s.blockers;
        draws = s.draws + 2;
      } in
      let f = touch-SameSlot task (audit task (code_name kind) message written) in
      SameSlot-Held owner s _
        (either-SameSlot _ s s _ (SameSlot-refl s) (
          either-SameSlot (task == 0) s (audit task (code_name kind) message written) _
            (record { slot = refl; slot_owner = refl })
            (record { slot = f.slot; slot_owner = f.slot_owner })))
        h

  -- The transactions that end with an idle slot.
  ends : (k : Key) (p : Step) (s : State) → Yields HeldBy (ok (tt, touch k (finish_activity p s)))
  ends k p s =
      Yields-ok HeldBy (tt, touch k (finish_activity p s))
        (inl (touch-Idle k (finish_activity p s) (finish_activity-Idle p s)))

  ended_either :
      (k : Key) (p : Option Step) (s : State)
      → Yields HeldBy
          (ok (tt, touch k (elim p [ none ↦ release s | some q ↦ finish_activity q s ])))
  ended_either k none s =
      Yields-ok HeldBy (tt, touch k (release s)) (inl (touch-Idle k (release s) (release-Idle s)))
  ended_either k (some q) s = ends k q s

  pub end_promotion_in-Held :
      (p : Step) (sha : Key) (reason : String) (s : State)
      → Yields HeldBy (end_promotion_in p sha reason s)
  unfolding end_promotion_in
  end_promotion_in-Held p sha reason s =
      Yields-after HeldBy (rebase p.task_id sha s) _ λ s1. ends p.task_id p _

  pub apply_promotion_in-Held : (id : Key) (s : State) → Yields HeldBy (apply_promotion_in id s)
  unfolding apply_promotion_in audit set_change_now
  apply_promotion_in-Held id s =
      Yields-after HeldBy (or_fail (lookup id s.journals) Code.core_inconsistent) _ λ j.
        Yields-after HeldBy (fail_if (not (is_prepared j.state)) Code.core_inconsistent) _ λ u.
          Yields-after HeldBy (deref (lookup j.artifact_id s.artifacts)) _ λ a.
            Yields-after HeldBy (or_fail (lookup a.change_id s.changes) Code.core_inconsistent) _
              λ ch.
                Yields-after HeldBy (deref (lookup j.task_id s.tasks)) _
                  λ t. ended_either j.task_id (lookup j.task_id s.pending) _

  pub finish_ci_in-Held :
      (p : Step) (result : CiRun) (uncertain : Bool) (s : State)
      → Yields HeldBy (finish_ci_in p result uncertain s)
  unfolding finish_ci_in
  finish_ci_in-Held p result uncertain s =
      Yields-after HeldBy (or_fail (lookup result.id s.ci_runs) Code.core_inconsistent) _ λ r.
        Yields-after HeldBy (fail_if (not (active_run r)) Code.core_inconsistent) _ λ u.
          Yields-after HeldBy (settle r.id result.elapsed uncertain s) _ λ s1. ends p.task_id p _

  -- The transactions that ask for the slot of the scheduler.
  admits-owner :
      (cfg : Config) (p : Step) (s : State)
      → Yields (λ _. s.slot_owner ≡ owner) (attempt_admits cfg p owner s)
  unfolding attempt_admits
  admits-owner cfg p s =
      let P : Unit {0} → Type 0 = λ _. s.slot_owner ≡ owner in
      Yields-after P
        (fail_if
          ((is_mutation_op p.operation || is_review p.operation)
            && ((p.change_id == 0) || not (present (lookup p.change_id s.changes))))
          Code.precondition_failed)
        _
        λ u. Yields-after P (change_authority p s) _ λ v.
          Yields-bind P
            (fail_if (not (s.slot_owner == owner) || not (is_busy s.slot.state)) Code.blocked) _
            λ w ew. λ x ex. ground (arith, ew, ==_iff s.slot_owner owner)

  reserve-owner :
      (id k : Key) (n : ℤ) (s : State)
      → Yields (λ s'. s'.slot_owner ≡ s.slot_owner) (reserve id k n s)
  unfolding reserve
  reserve-owner id k n s =
      let P : State → Type 0 = λ s'. s'.slot_owner ≡ s.slot_owner in
      Yields-after P (or_fail (lookup k s.accounts) Code.precondition_failed) _ λ a.
        Yields-after P
          (fail_if (le_ℤ n (pos 0) || present (lookup id s.leases)) Code.precondition_failed) _
          λ u.
            Yields-after P (fail_if (lt_ℤ a.remaining n) Code.insufficient_resource) _
              λ v s1 e. ground arith

  attach-owner :
      (p : Step) (id : Key) (a : Attempt) (s : State) → (attach p id a s).slot_owner ≡ s.slot_owner
  unfolding attach
  attach-owner p id a s = ground arith

  pub prepare_attempt_in-Held :
      (cfg : Config) (profile : Profile) (card : Card) (p : Step) (s : State)
      → Yields HeldBy (prepare_attempt_in cfg profile card p owner s)
  unfolding prepare_attempt_in
  prepare_attempt_in-Held cfg profile card p s =
      Yields-bind HeldBy (attempt_admits cfg p owner s) _ λ u eu.
        Yields-after HeldBy (anchor p s) _ λ k.
          Yields-after HeldBy (deref (lookup k s.accounts)) _ λ account.
            let lease : ℤ = min_ℤ (min_ℤ account.remaining profile.timeout) card.lease in
            Yields-after HeldBy (fail_if (le_ℤ lease (pos 0)) Code.insufficient_resource) _ λ v.
              Yields-after HeldBy (deref (lookup p.task_id s.tasks)) _ λ t.
                Yields-bind HeldBy (reserve (fresh_id s) k lease (drawn (drawn s))) _ λ s1 e1.
                  let a : Attempt = new_attempt profile card p k lease t s in
                  Yields-ok HeldBy (a, touch t.id (attach p (fresh_id s) a s1))
                    (inr (
                      (touch-SameSlot t.id (attach p (fresh_id s) a s1)).slot_owner
                      ∙ attach-owner p (fresh_id s) a s1
                      ∙ reserve-owner (fresh_id s) k lease (drawn (drawn s)) s1 e1
                      ∙ admits-owner cfg p s u eu))

  run_to_start-owner :
      (p : Step) (id : Key) (s : State)
      → Yields (λ r. r.1.slot_owner ≡ s.slot_owner) (run_to_start p id s)
  unfolding run_to_start
  run_to_start-owner p id s r e = elim (Option-cases (lookup id s.ci_runs)) [
    | inl missing ↦ ground arith
    | inr (x, ex) ↦ elim (Bool-cases (ci_queued x.status)) [
      | inl waits ↦ ground arith
      | inr other ↦ absurd (ground arith)
    ]
  ]

  drawn-owner : (b : Bool) (s : State) → (if b then drawn s else s).slot_owner ≡ s.slot_owner
  drawn-owner true s = refl
  drawn-owner false s = refl

  pub prepare_ci_in-Held :
      (cfg : Config) (p : Step) (s : State) → Yields HeldBy (prepare_ci_in cfg p owner s)
  unfolding prepare_ci_in
  prepare_ci_in-Held cfg p s =
      Yields-bind HeldBy
        (fail_if (not (s.slot_owner == owner) || not (is_busy s.slot.state)) Code.blocked) _
        λ u eu.
          let ours : s.slot_owner ≡ owner = ground (arith, eu, ==_iff s.slot_owner owner) in
          let id : Key = if p.ci_run_id == 0 then fresh_id s else p.ci_run_id in
          Yields-after HeldBy (runnable cfg p s) _ λ fit.
            Yields-after HeldBy (fail_if (not fit) Code.blocked) _ λ v.
              Yields-after HeldBy (anchor p s) _ λ k.
                Yields-bind HeldBy (run_to_start p id (if p.ci_run_id == 0 then drawn s else s)) _
                  λ r er. Yields-after HeldBy (deref (lookup k r.1.accounts)) _ λ a.
                    Yields-bind HeldBy (reserve id k (min_ℤ a.remaining cfg.test_timeout) _) _
                      λ s2 e2 made e.
                        let same : made.1.slot_owner ≡ s2.slot_owner = ground arith in
                        inr (
                          same
                          ∙ reserve-owner id k (min_ℤ a.remaining cfg.test_timeout) _ s2 e2
                          ∙ run_to_start-owner p id _ r er
                          ∙ drawn-owner (p.ci_run_id == 0) s
                          ∙ ours)
