-- ===== src/MapIdx.antt =====
-- include/alpaka/idx/MapIdx.hpp: linear and multi-dimensional indices, over indices of `w` bits.
pub mod Spec
pub mod Extent
pub mod Pitch
pub mod Dispatch
