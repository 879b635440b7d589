-- ===== src/Sched.antt =====
-- The scheduler of kernel/scheduler/, the x86_64 build.
pub mod Lists
pub mod Kernel
pub mod Mlfq
pub mod Clone
pub mod Table
pub mod Steps
mod Example
mod Tests
