-- ===== src/Pwt.antt =====
-- pftool's parallel work tree (pftool-new-test/src/pwt): its queues of work and its scheduler.
pub mod WorkQ
pub mod WorkQueues
pub mod Scheduler
