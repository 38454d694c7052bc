-- ===== src/Sched.antt =====
-- Tasks, the ring of tasks and the wait queues: kernel/kernel/scheduler and
-- kernel/arch/i386/kernel/scheduler.
pub mod Task
pub mod Ring
pub mod Wait
pub mod Sleep
pub mod Tests
