-- ===== src/Scheduler/Captures.antt =====
-- capture of internal/scheduler/scheduler.go: the Artifact of what an Attempt has written.
use scp_harness.Base.{ℤ, lookup, Result, ok, ◌>>=◌, ◌>>◌, deref, if◌then◌else◌}
use scp_harness.Model.{Key, Time, State, Step, Artifact, Attempt, is_artifact}
use scp_harness.Store.{Disk, read}

-- What artifact.Publish adds to the Artifact.
pub record Published : Type 0 where
  pub blob_path : Key
  pub sha256 : Key
  pub size : ℤ

-- What the machine answers while capture runs: the transfer out of the runner, the publication, and
-- the id and the time that are drawn.
pub record Submitted : Type 0 where
  pub received : Result (Unit {0})
  pub published : Result Published
  pub id : Key
  pub created : Time

-- The commit that the Artifact is based on and its anchor: those of the Artifact that the Attempt
-- worked on, if there is one.
unfoldable pub capture_base : Disk → Attempt → Step → State → Result (Key × Key)
capture_base disk a p db =
    if is_artifact p.target_type
    then (do
      s ← read disk db
      source ← deref (lookup p.target_id s.artifacts)
      ok (source.base_sha, source.anchor))
    else ok (a.sha, p.option_id)

unfoldable pub capture : Disk → Submitted → Attempt → Step → State → Result Artifact
capture disk m a p db = do
  m.received
  (base, anchor) ← capture_base disk a p db
  v ← m.published
  ok (record {
    change_id = a.change_id;
    id = m.id;
    task_id = a.task_id;
    anchor = anchor;
    attempt_id = a.id;
    blob_path = v.blob_path;
    sha256 = v.sha256;
    size = v.size;
    base_sha = base;
    created = m.created;
  })
