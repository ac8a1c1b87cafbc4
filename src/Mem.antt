-- ===== src/Mem.antt =====
-- Memory on the CPU: the copy and set tasks of include/alpaka/mem/buf/cpu and the sub-views of mem/view.
pub mod Copy
pub mod SubView
