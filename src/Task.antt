-- ===== src/Task.antt =====
-- src/kmp/task.cc: explicit tasks of the KMP interface. The children model, in the order of the
-- code, the sizes of an allocation, the accesses of a task, its format, its allocation, its
-- submission and the waits.
pub mod Access
pub mod Layout
pub mod Format
pub mod Alloc
pub mod Submit
