-- ===== src/WorkDiv.antt =====
-- include/alpaka/workdiv and acc/AccDevProps.hpp: the subdivision of a grid into blocks and threads.
pub mod Divisors
pub mod Types
pub mod Valid
pub mod Clip
pub mod Equal
pub mod Subdivide
