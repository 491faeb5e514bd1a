-- ===== src/Core/FailStop.antt =====
-- Proofs about the fail-stop: EmergencyBlock of internal/store and the guard of internal/core.
use scp_harness.Base.{
  ◌≡◌, ◌≢◌, refl, ap, Bool, true, false, not, ◌&&◌, ◌||◌, none, Map, [], ◌∷◌, lookup, insert,
  any_entry, all_entries, Result, ok, err, panic, Code, Bool-cases, inl, inr, arith, present,
  ==_iff, &&-split,
}
use scp_harness.Model.{Key, State, Blocker, fail_stop, exit, fresh_id, is_global}
use scp_harness.Ledger.Soundness.{refresh-frame}
use scp_harness.Store.{
  Disk, working, update, transact, conclude, guard_failure, emergency_block, skips_blocker,
  is_fail_stop_kind, same_fail_stop, fail_stop_blocker,
}
use scp_harness.Store.Commits.{update-ok, validate-ok}
use scp_harness.Core.Common.{core_update, check, checked}

any_entry-insert :
    {V : Type 0} (p : Key → V → Bool) (k : Key) (v : V) (m : Map V)
    → p k v ≡ true
    → any_entry p (insert k v m) ≡ true
unfolding any_entry insert
any_entry-insert p k v [] h = ground arith
any_entry-insert p k v ((j, w) ∷ m) h = ground (arith, any_entry-insert p k v m)

any_entry-weaken :
    {V : Type 0} (p q r : V → Bool) (m : Map V)
    → ((v : V) → r v ≡ true → p v ≡ true → q v ≡ true)
    → all_entries (λ _ v. r v) m ≡ true
    → any_entry (λ _ v. p v) m ≡ true
    → any_entry (λ _ v. q v) m ≡ true
unfolding any_entry all_entries
any_entry-weaken p q r [] f h e = ground arith
any_entry-weaken p q r ((j, w) ∷ m) f h e = ground (arith, any_entry-weaken p q r m f, f w)

checked-ok :
    {A : Type 0} (fn : State → Result (A × State)) (s : State) {r : A × State}
    → checked fn s ≡ ok r
    → fail_stop s ≡ false
unfolding check
checked-ok fn s h = ground arith

-- While an unresolved global blocker is stored, no operation that goes through the guarded Update
-- of internal/core succeeds, whatever it does and however the disk answers.
pub core_update-fail_stop :
    {A : Type 0} (disk : Disk) (fn : State → Result (A × State)) (db : State) {a : A}
    {after : State}
    → fail_stop db ≡ true
    → core_update disk fn db ≢ (ok a, after)
unfolding core_update fail_stop
core_update-fail_stop disk fn db h e =
    let c = update-ok disk (checked fn) db e in
    let (_, r, _) = validate-ok db c.valid_before in
    let (ts, frame) = refresh-frame db r in
    let same : fail_stop c.loaded ≡ fail_stop db = ap fail_stop frame in
    let clear : fail_stop c.loaded ≡ false = checked-ok fn c.loaded c.ran in absurd (ground arith)

-- The blockers of a fail-stop kind are global, as block and EmergencyBlock write them.
abbrev pub fail_stops_are_global : State → Bool
fail_stops_are_global db =
    all_entries (λ _ b. not (is_fail_stop_kind b.kind) || is_global b.scope) db.blockers

same_fail_stop-kind : (c d : Code) → same_fail_stop c d ≡ true → is_fail_stop_kind d ≡ true
same_fail_stop-kind c d h = ground arith

exit-kind : (c : Code) → exit c ≡ 5 → is_fail_stop_kind c ≡ true
unfolding exit
exit-kind c h = ground arith

both : (a b : Bool) → (not a || b) ≡ true → a ≡ true → (b && true) ≡ true
both a b h e = ground arith

repeated_is_global :
    (c : Code) (m : Map Blocker)
    → all_entries (λ _ b. not (is_fail_stop_kind b.kind) || is_global b.scope) m ≡ true
    → any_entry (λ _ b. same_fail_stop c b.kind && not (present b.resolved)) m ≡ true
    → any_entry (λ _ b. is_global b.scope && not (present b.resolved)) m ≡ true
repeated_is_global c m =
    any_entry-weaken (λ (b : Blocker). same_fail_stop c b.kind && not (present b.resolved))
      (λ b. is_global b.scope && not (present b.resolved))
      (λ b. not (is_fail_stop_kind b.kind) || is_global b.scope) m
      (λ b global repeated.
        let (kind, lasts) = &&-split (same_fail_stop c b.kind) _ repeated in
        rw lasts (
          both (is_fail_stop_kind b.kind) (is_global b.scope) global
            (same_fail_stop-kind c b.kind kind)))

emergency_block-fail_stop :
    (code : Code) (db : State)
    → exit code ≡ 5
    → fail_stops_are_global db ≡ true
    → lookup (fresh_id db) db.blockers ≡ none
    → fail_stop (emergency_block working code db) ≡ true
unfolding emergency_block fail_stop
emergency_block-fail_stop code db five global fresh =
    elim (Bool-cases
      (any_entry (λ _ b. same_fail_stop code b.kind && not (present b.resolved)) db.blockers)) [
        | inl there ↦ ground (arith, repeated_is_global code db.blockers global there)
        | inr missing ↦
            let skipped : skips_blocker working code db ≡ false =
              ground (arith, exit-kind code five) in
            rw skipped (
              any_entry-insert (λ _ b. is_global b.scope && not (present b.resolved)) (fresh_id db)
                (fail_stop_blocker code db) db.blockers refl)
      ]

conclude-fail_stop :
    {A : Type 0} (db : State) (r : Result (A × State)) {code : Code} {db' : State}
    → conclude working db r ≡ (err code, db')
    → db' ≡ guard_failure working code db
conclude-fail_stop db (ok (a, s)) e = absurd (ground arith)
conclude-fail_stop db (err c) {code} {db'} e = ground arith
conclude-fail_stop db panic e = absurd (ground arith)

-- A call of Update on a working disk that fails with a code of exit status 5 leaves a database
-- whose fail-stop is set, provided that every stored blocker of a fail-stop kind is global and
-- that the next id drawn is not the id of a blocker.
pub update-fail_stop :
    {A : Type 0} (fn : State → Result (A × State)) (db : State) {code : Code} {db' : State}
    → fail_stops_are_global db ≡ true
    → lookup (fresh_id db) db.blockers ≡ none
    → update working fn db ≡ (err code, db')
    → exit code ≡ 5
    → fail_stop db' ≡ true
unfolding update
update-fail_stop fn db {code} {db'} global fresh e five =
    let left = conclude-fail_stop db (transact working fn db) e in
    let raised = emergency_block-fail_stop code db five global fresh in
    ground (arith, ==_iff (exit code) 5)
