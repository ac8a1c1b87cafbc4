-- ===== src/Philox.antt =====
-- include/alpaka/rand/Philox: the counter-based generator on four words of 32 bits, and its engines.
pub mod Stateless
pub mod Counting
pub mod Single
pub mod Vector
