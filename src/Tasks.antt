-- ===== src/Tasks.antt =====
-- src/smart_build/tasks.py: tasks, the task graph, and the selection of what a target needs.
pub mod Task
pub mod Graph
pub mod Closure
pub mod Default
pub mod Samples
