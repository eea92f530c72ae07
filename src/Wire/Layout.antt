-- ===== src/Wire/Layout.antt =====
-- The packed structs of include/craft/wire.hpp, by the plane that they belong to.
pub mod Headers
pub mod Session
pub mod Io
pub mod Peer
