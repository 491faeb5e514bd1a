-- ===== src/Store/Commits.antt =====
-- Proofs about Update of internal/store/store.go: how a call ends.
use scp_harness.Base.{
  ◌+◌, pos, ◌+ℤ◌, ◌≡◌, refl, ap, sym, ◌∙◌, subst, true, none, some, lookup, insert, ◌==◌, Result,
  ok, err, panic, Code, Result-cases, Option-cases, Bool-cases, inl, inr, arith, ==_iff,
}
use scp_harness.Model.{Key, State, TaskStatus, Task, exit, fresh_id}
use scp_harness.Ledger.{refresh}
use scp_harness.Ledger.Totals.{balance, leased}
use scp_harness.Ledger.Soundness.{refresh-frame, refresh-projected, refresh_sound, projected}
use scp_harness.Store.Validation.{consistent, validate, projections_kept}
use scp_harness.Store.Immutability.{immutable}
use scp_harness.Store.Transaction.{
  upserted, Disk, commit, transact, update, conclude, skips_blocker, emergency_block, guard_failure,
  fail_stop_blocker,
}

-- How Validate succeeds.
pub validate-ok :
    (s : State) {s' : State}
    → validate s ≡ ok s'
    → (consistent s ≡ true) × (refresh s ≡ ok s') × (projections_kept s.tasks s'.tasks ≡ true)
unfolding validate
validate-ok s {s'} h = elim (Result-cases (refresh s)) [
  | inl (r, e) ↦ (ground arith, ground arith, ground arith)
  | inr fails ↦ absurd (ground arith)
]

-- How a transaction is committed: every check of the code lies on the way.
pub record Committed {A : Type 0} (fn : State → Result (A × State)) (db : State) (a : A)
    (after : State) : Type 0 where
  pub loaded : State
  pub changed : State
  pub refreshed : State
  pub checked : State
  pub valid_before : validate db ≡ ok loaded
  pub ran : fn loaded ≡ ok (a, changed)
  pub projected_anew : refresh changed ≡ ok refreshed
  pub valid_after : validate refreshed ≡ ok checked
  pub kept : immutable loaded checked ≡ true
  pub stored : after ≡ upserted loaded checked

-- The last two tests of a transaction.
transact-end :
    {A : Type 0} (disk : Disk) (loaded after' : State) (b : A) {a : A} {after : State}
    → commit disk loaded b after' ≡ ok (a, after)
    → (b ≡ a) × (upserted loaded after' ≡ after) × (immutable loaded after' ≡ true)
unfolding commit
transact-end disk loaded after' b h = (ground arith, ground arith, ground arith)

transact-ok :
    {A : Type 0} (disk : Disk) (fn : State → Result (A × State)) (db : State) {a : A}
    {after : State}
    → transact disk fn db ≡ ok (a, after)
    → Committed fn db a after
unfolding transact
transact-ok disk fn db {a} {after} h = elim (Result-cases (validate db)) [
  | inl (loaded, e1) ↦ elim (Result-cases (fn loaded)) [
    | inl ((b, changed), e2) ↦ elim (Result-cases (refresh changed)) [
      | inl (refreshed, e3) ↦ elim (Result-cases (validate refreshed)) [
        | inl (after', e4) ↦
            let ended = transact-end disk loaded after' b {a = a} {after = after} (ground arith) in
            record {
              loaded = loaded;
              changed = changed;
              refreshed = refreshed;
              valid_before = e1;
              ran = e2 ∙ ap (λ x. ok (x, changed)) ended.0;
              projected_anew = e3;
              checked = after';
              valid_after = e4;
              kept = ended.2;
              stored = sym ended.1;
            }
        | inr fails ↦ absurd (ground arith)
      ]
      | inr fails ↦ absurd (ground arith)
    ]
    | inr fails ↦ absurd (ground arith)
  ]
  | inr fails ↦ absurd (ground arith)
]

-- What can be left behind of a call that fails: nothing, or a blocker if the failure is one that
-- stops everything.
pub data AfterFailure (db : State) : Code → State → Type 0 where
  unchanged : {code : Code} {db' : State} → db ≡ db' → AfterFailure db code db'
  blocked :
      {code : Code} {db' : State}
      → exit code ≡ 5
      → lookup (fresh_id db) db.blockers ≡ none
      → db' ≡ record db {
        blockers = insert (fresh_id db) (fail_stop_blocker code db) db.blockers;
        draws = db.draws + 2;
      }
      → AfterFailure db code db'

-- What a call of Update ends in.
abbrev pub Ends : {A : Type 0} → (State → Result (A × State)) → State → Result A × State → Type 0
Ends fn db (ok a, after) = Committed fn db a after
Ends fn db (err code, after) = AfterFailure db code after
Ends fn db (panic, after) = after ≡ db

emergency_block-AfterFailure :
    (disk : Disk) (code : Code) (db : State)
    → exit code ≡ 5
    → AfterFailure db code (emergency_block disk code db)
unfolding emergency_block
emergency_block-AfterFailure disk code db five = elim (Bool-cases (skips_blocker disk code db)) [
  | inl skipped ↦ unchanged (rw skipped)
  | inr written ↦ blocked five (ground arith) (rw written)
]

guard_failure-AfterFailure :
    (disk : Disk) (code : Code) (db : State) → AfterFailure db code (guard_failure disk code db)
guard_failure-AfterFailure disk code db = elim (Bool-cases (exit code == 5)) [
  | inl five ↦ rw five (emergency_block-AfterFailure disk code db ((==_iff (exit code) 5).0 five))
  | inr other ↦ rw other (unchanged refl)
]

conclude-Ends :
    {A : Type 0} (disk : Disk) (fn : State → Result (A × State)) (db : State)
    (r : Result (A × State))
    → ((a : A) (after : State) → r ≡ ok (a, after) → Committed fn db a after)
    → Ends fn db (conclude disk db r)
conclude-Ends disk fn db (ok (a, after)) h = h a after refl
conclude-Ends disk fn db (err code) h = guard_failure-AfterFailure disk code db
conclude-Ends disk fn db panic h = refl

-- However a call of Update ends, what the database holds is known. If it succeeds, the state from
-- before and the new one have passed Validate, the new one went through Refresh, and it passed the
-- comparison with the old one; it is stored with the old blockers and journals that it lacks. If
-- it fails with a code, the database is as before but for at most one fail-stop blocker, which is
-- added only if the exit status of the code is 5 and the drawn id is not in use. If it panics, the
-- database is as before.
pub update-Ends :
    {A : Type 0} (disk : Disk) (fn : State → Result (A × State)) (db : State)
    → Ends fn db (update disk fn db)
unfolding update
update-Ends disk fn db =
    conclude-Ends disk fn db (transact disk fn db) (λ a after e. transact-ok disk fn db e)

pub update-ok :
    {A : Type 0} (disk : Disk) (fn : State → Result (A × State)) (db : State) {a : A}
    {after : State}
    → update disk fn db ≡ (ok a, after)
    → Committed fn db a after
update-ok disk fn db e = subst (Ends fn db) e (update-Ends disk fn db)

-- When a call of Update succeeds, then for every task of the state that it commits: the balance
-- that the task shows is the sum over its accounts and what it shows as outstanding is the sum
-- over its leases; these two, what it was charged and what it has retired are exactly what it
-- minted; and if it is closed both sums are 0. This holds whatever the call does and however the
-- disk answers it.
pub committed-conserves :
    {A : Type 0} (disk : Disk) (fn : State → Result (A × State)) (db : State) {a : A}
    {after : State} (k : Key) {t : Task}
    → update disk fn db ≡ (ok a, after)
    → lookup k after.tasks ≡ some t
    → (t.resources.remaining ≡ balance k after.accounts)
      × (t.resources.outstanding ≡ leased k after.leases)
      × (balance k after.accounts
            +ℤ leased k after.leases
            +ℤ t.resources.charged
            +ℤ t.resources.retired
          ≡ t.resources.minted)
      × (t.status ≡ TaskStatus.closed
          → (balance k after.accounts ≡ pos 0) × (leased k after.leases ≡ pos 0))
committed-conserves disk fn db {a} {after} k {t} e et =
    let c = update-ok disk fn db e in
    let (_, refreshed, _) = validate-ok c.refreshed c.valid_after in
    let (ts, frame) = refresh-frame c.refreshed refreshed in
    let accounts : after.accounts ≡ c.refreshed.accounts =
      ap (λ (x : State). x.accounts) (c.stored ∙ ap (upserted c.loaded) frame) in
    let leases : after.leases ≡ c.refreshed.leases =
      ap (λ (x : State). x.leases) (c.stored ∙ ap (upserted c.loaded) frame) in
    let shown =
      sym (refresh-projected c.refreshed k refreshed)
      ∙ ap (λ (x : State). lookup k x.tasks) (sym c.stored)
      ∙ et in
    elim (Option-cases (lookup k c.refreshed.tasks)) [
      | inl missing ↦ absurd (ground arith)
      | inr (x, ex) ↦
          let sound = refresh_sound c.refreshed k refreshed ex in
          let same : projected (balance k c.refreshed.accounts) (leased k c.refreshed.leases) x
              ≡ t =
            ground arith in
          rw (accounts, leases)
            (subst
              (λ (y : Task).
                (y.resources.remaining ≡ balance k c.refreshed.accounts)
                × (y.resources.outstanding ≡ leased k c.refreshed.leases)
                × (balance k c.refreshed.accounts
                      +ℤ leased k c.refreshed.leases
                      +ℤ y.resources.charged
                      +ℤ y.resources.retired
                    ≡ y.resources.minted)
                × (y.status ≡ TaskStatus.closed
                    → (balance k c.refreshed.accounts ≡ pos 0)
                      × (leased k c.refreshed.leases ≡ pos 0)))
              same (refl, refl, sound.0, sound.2))
    ]
