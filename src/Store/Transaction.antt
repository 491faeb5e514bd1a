-- ===== src/Store/Transaction.antt =====
-- (*Store).Update, (*Store).Read and (*Store).EmergencyBlock of internal/store/store.go.
use scp_harness.Base.{
  ◌+◌, Bool, true, false, not, ◌&&◌, ◌||◌, none, lookup, insert, any_entry, Map, [], ◌∷◌, ◌==◌,
  present, if◌then◌else◌, Result, ok, err, panic, Code, ◌>>=◌, ◌>>◌, fail_if,
}
use scp_harness.Model.{State, Blocker, Scope, Message, fresh_id, now, drawn, exit}
use scp_harness.Ledger.{refresh}
use scp_harness.Store.Validation.{validate}
use scp_harness.Store.Immutability.{immutable}

-- How SQLite answers during a call: where a statement fails, the call ends in STORAGE_FAILURE.
pub record Disk : Type 0 where
  pub loads : Bool
  pub commits : Bool
  pub writes_blocker : Bool

abbrev pub working : Disk
working = record { loads = true; commits = true; writes_blocker = true }

abbrev pub is_fail_stop_kind : Code → Bool
is_fail_stop_kind Code.storage_failure = true
is_fail_stop_kind Code.core_inconsistent = true
is_fail_stop_kind _ = false

-- `b.Kind == kind`, where `kind` is one of the two
abbrev pub same_fail_stop : Code → Code → Bool
same_fail_stop Code.storage_failure Code.storage_failure = true
same_fail_stop Code.core_inconsistent Code.core_inconsistent = true
same_fail_stop _ _ = false

-- The row that is inserted; a row of that id is an error, which the callers ignore.
abbrev pub fail_stop_blocker : Code → State → Blocker
fail_stop_blocker kind db = record {
  id = fresh_id db;
  kind = kind;
  scope = Scope.global;
  subject = none;
  message = Message.words "fail-stop";
  created = now (drawn db);
  resolved = none;
}

-- Where EmergencyBlock writes nothing: no fail-stop kind, one that is there, or a failing insert.
abbrev pub skips_blocker : Disk → Code → State → Bool
skips_blocker disk kind db =
    not (is_fail_stop_kind kind)
    || any_entry (λ _ b. same_fail_stop kind b.kind && not (present b.resolved)) db.blockers
    || not disk.writes_blocker
    || present (lookup (fresh_id db) db.blockers)

-- The database after EmergencyBlock, whose own error is dropped by its callers.
unfoldable pub emergency_block : Disk → Code → State → State
emergency_block disk kind db = if skips_blocker disk kind db then db else record db {
  blockers = insert (fresh_id db) (fail_stop_blocker kind db) db.blockers;
  draws = db.draws + 2;
}

-- Rows are inserted or updated under their ids; an old one that the new map lacks is not deleted.
unfoldable pub keep_rows {ℓ} : {A : Type ℓ} → Map A → Map A → Map A
keep_rows rows [] = rows
keep_rows rows ((k, v) ∷ old) =
    let kept = keep_rows rows old in if present (lookup k rows) then kept else (k, v) ∷ kept

-- The database after the writes of Update: the blockers and the journals are rows of their own.
abbrev pub upserted : State → State → State
upserted loaded s = record s {
  blockers = keep_rows s.blockers loaded.blockers;
  journals = keep_rows s.journals loaded.journals;
}

-- The end of a transaction: the comparison with the state that was loaded, and the writes.
unfoldable pub commit : {A : Type 0} → Disk → State → A → State → Result (A × State)
commit disk loaded a after = do
  fail_if (not (immutable loaded after)) Code.core_inconsistent
  fail_if (not disk.commits) Code.storage_failure
  ok (a, upserted loaded after)

-- The work of a transaction on the state that was loaded; what it returns is committed.
unfoldable pub transact :
    {A : Type 0} → Disk → (State → Result (A × State)) → State → Result (A × State)
transact disk fn db = do
  fail_if (not disk.loads) Code.storage_failure
  loaded ← validate db
  (a, changed) ← fn loaded
  refreshed ← refresh changed
  after ← validate refreshed
  commit disk loaded a after

-- The deferred function: an exit status of 5 leaves a blocker behind.
abbrev pub guard_failure : Disk → Code → State → State
guard_failure disk code db = if exit code == 5 then emergency_block disk code db else db

-- How Update ends after the work: on an error or a panic the transaction is rolled back.
abbrev pub conclude : {A : Type 0} → Disk → State → Result (A × State) → Result A × State
conclude disk db (ok (a, after)) = (ok a, after)
conclude disk db (err code) = (err code, guard_failure disk code db)
conclude disk db panic = (panic, db)

-- Update: how the call ends, and the database afterwards.
unfoldable pub update :
    {A : Type 0} → Disk → (State → Result (A × State)) → State → Result A × State
update disk fn db = conclude disk db (transact disk fn db)

-- (*Store).Read
unfoldable pub read : Disk → State → Result State
read disk db = do fail_if (not disk.loads) Code.storage_failure; validate db
