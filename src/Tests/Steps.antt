-- ===== src/Tests/Steps.antt =====
-- A step of the scheduler at a concrete input.
use scp_harness.Base.{pos, true, false, none, some, [], ◌∷◌, ok, err, Code}
use scp_harness.Model.{State, AttemptStatus}
use scp_harness.Store.{working}
use scp_harness.Scheduler.{Workshop, TestBench, Site, step}
use scp_harness.Scheduler.{not_run, not_started}
use scp_harness.Tests.Data.{empty, proposal, explored, root, account_2, task_1, held}
use scp_harness.Tests.Controls.{config}
use scp_harness.Tests.Selections.{change_5}

-- A task with one Change that waits in the queue for its mutation.
abbrev queued : State
queued = record empty {
  tasks =
      (
        1,
        record task_1 {
          resources = record (held (pos 4500000) (pos 0)) { remaining = pos 4500000 };
        },
      )
      ∷ [];
  accounts = (1, root) ∷ (2, account_2) ∷ [];
  options = (2, proposal 2 1 (pos 1500000)) ∷ [];
  repository_identities = (1, 15) ∷ [];
  exploration = (1, explored) ∷ [];
  changes = (5, change_5) ∷ [];
}

abbrev workshop : Workshop
workshop = record {
  resolve = λ path ref. ok 14;
  ready = none;
  uploaded = none;
  has_directory = true;
  late = false;
  outcome = not_run AttemptStatus.terminated;
  run_error = some Code.runner_unavailable;
  stopped = none;
  deadline = false;
  cancelled = false;
  submitted = record {
    received = ok tt;
    published = err Code.limit_exceeded;
    id = 91;
    created = 701;
  };
  result = err Code.limit_exceeded;
  logs = none;
  elapsed = pos 0;
  visible = λ kind id. false;
  locked = true;
}

abbrev bench : TestBench
bench = record {
  opened = none;
  ready = none;
  execution = not_started;
  run_error = some Code.runner_unavailable;
  after = record {
    stopped = none;
    cleanup = none;
    deadline = false;
    cancelled = false;
    logs = none;
  };
  elapsed = pos 0;
}

-- Somebody has moved the ref to 14.
abbrev site : Site
site = record {
  signalled = false;
  resolve = λ path ref. ok 14;
  workshop = workshop;
  bench = bench;
  promoter = record {
    gate = ok tt;
    tree = ok tt;
    construct = err Code.precondition_changed;
    journal_id = 90;
    journal_time = 700;
    swap = ok tt;
  };
}

abbrev stepped : State
stepped = (step config working site 77 9000 queued).1
