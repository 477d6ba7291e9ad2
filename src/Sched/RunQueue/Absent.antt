-- ===== src/Sched/RunQueue/Absent.antt =====
-- kernel/src/core/runqueue.rs: what `remove_pid` leaves.
