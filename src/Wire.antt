-- ===== src/Wire.antt =====
-- The CRAFT wire codec (include/craft/wire.hpp, src/wire.cpp).
pub mod Pod
pub mod Layout
pub mod Ops
pub mod Crc
pub mod Frame
pub mod Body
mod Tests
