-- ===== src/Atomic.antt =====
-- Atomic operations, include/alpaka/atomic: the operations, and the loops over std::atomic_ref.
pub mod Op
pub mod Ref
