-- ===== src/Lib.antt =====
-- A model of SCP-Harness, the controller that keeps tasks, options, changes and their wall-time
-- budgets in one database and lets workers act on them one at a time, and proofs about it.
--
-- The parts and how they interact. Every operation of internal/core is a transaction of
-- internal/store: the stored state is loaded and validated, the operation changes it, Refresh of
-- internal/ledger computes the projections anew, and the result is validated again, compared with
-- the state from before, and written. A failure of exit status 5 leaves a blocker that stops every
-- guarded operation until it is resolved.
--
-- The files and the code.
--   Base      the vocabulary: Boolean tests, lists, maps, results of Go calls, int64, texts.
--   Model     internal/model and internal/config: records field by field, State and its methods
--             (Audit, Touch, Blocked, FailStop, LatestCI), cards and profiles.
--   Config    internal/config/config.go: Cards has ParseCard, Loading has Load; Loaded is proofs.
--   Ledger    internal/ledger/ledger.go: Transfer has Add, Move, Reserve and Settle; Ancestry LCA
--             and Allocate; Refresh Refresh. Below them Invariant says what holds of the accounts,
--             Purses is the abstract view of one task's time, and the other modules are proofs, named
--             for what they prove.
--   Store     internal/store/store.go and change.go: Validation has Validate, ChangeChecks
--             validateChanges, Immutability immutable and immutableChanges, Transaction Update,
--             Read and EmergencyBlock, Queries Subject and TaskQuiescent. Commits, Histories,
--             OptionHistories and Exclusion are proofs.
--   Core      internal/core: Common, Claims, Tasks, Lifecycles, Options and Blockers have
--             core.go, Steps and Slots the selection of activities of runtime.go, Attempts
--             PrepareAttempt, Runs ci.go, Changes change.go, Discussions discussion.go, Promotions
--             promotion.go. Complete of runtime.go is in Completions (what the worker asks for),
--             Outcomes (what becomes of an exploration or a Change) and Completing (the
--             transaction). The other modules are proofs: Books says
--             what an operation must not disturb; Closings, Serving, Requesting, Concluding,
--             Leaving, Settling and Completed follow Complete, Vacating its slot, and Bearings,
--             Continuing, Advancing and Progress the exploration that it moves on; Refinement
--             relates the ledger to the purses; Rewinding and ChangeMoves, Selecting and Selection,
--             FailStop, Blocking, Promoting, Funds, Budgets, Reservations and Leases are about the
--             other operations.
--   Worker    internal/worker/protocol.go: Protocol has Parse, Partitions Partition; Partitioning is
--             proofs.
--   Scheduler internal/scheduler: Reconciliation has the transactions of Recover, Recovery the whole
--             of it; Captures capture, Verdicts how attempt and runCI judge an execution, Executions
--             attempt and runCI, Promotions promote, Rounds Step and a round of Run. Retirement, Crashes,
--             Journals, Exploring, Counting, Explorations, Judgements, Holding, Activities,
--             Releasing and Swaps are proofs.
--   Tests     runs at concrete inputs.
-- A function `op_in` is what the Go function passes to Update; `op` is the whole call, with the
-- tests before it.
--
-- Decisions of the model.
--   A Go call that returns an error is a Result: a value, an error by its code, or `panic`, a nil
--   dereference. A panic in a transaction rolls it back. Error messages are left out.
--   Ids, SHAs, paths and times are numbers that are only compared and ordered; 0 is "". Strings of
--   a closed set are constructors, with `other` for any other text. Texts are lists of code points.
--   A Go map is an association list, ranged over in its order. Null maps and null entries of the
--   stored JSON are not represented. Where the code sorts, the order is a stable insertion sort,
--   so ties of equal start times are broken by the order of the map.
--   An int64 is an integer, with the wrap-around of + and - written out (add64, sub64).
--   model.ID and model.Now read the next element of two sequences in the state, and nothing of them
--   is assumed: a theorem that needs new ids has that as a hypothesis.
--   SQLite and the decoding of stored JSON are the record Disk: whether the load and the commit of
--   a call succeed, and whether the emergency blocker can be written.
--   The lock of a task's control is an argument, `gate`, what the lock answers. So is what
--   gitrepo answers for a repository.
--   A payload, a worker's output, a role card and a configuration are represented by how
--   config.Strict reads them. An id, a command or a claim's type that is blank reads as 0.
--   What the operating system, the runners, git and the file system answer while the scheduler or a
--   recovery runs are records (Machine, Workshop, TestBench, Promoter, Site) that the model reads;
--   an activity and its monitor, which run side by side in the code, meet in these answers.
--   A call of addClaim that Complete tolerates changes nothing; the ids that it drew are not counted.
--
-- Fuel. The walks along resource parents (ancestors, first_common, allocate_fuel) run on fuel, one
-- more than there are accounts; a walk that has as many steps has met an account twice or has left
-- the accounts, so the fuel is enough. Every other loop is structural.
--
-- Not modelled. The waits of cancel, Lifecycle, Interrupt and ChangeAction for an activity to
-- settle; the read-only views; lock files, SQL, JSON decoding, git, the storage of artifacts, the
-- transfer of files, the worker's processes, and the command line: they are input and output around
-- the operations, or read what these have stored.
pub mod Base
pub mod Model
pub mod Config
pub mod Ledger
pub mod Store
pub mod Core
pub mod Worker
pub mod Scheduler
pub mod Tests
