-- ===== src/Scheduler/Releasing.antt =====
-- Proofs about Step of internal/scheduler/scheduler.go: the slot is given back.
