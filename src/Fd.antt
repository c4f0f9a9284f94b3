-- ===== src/Fd.antt =====
-- The file-descriptor table and what stands behind a descriptor: src/fd.rs.
pub mod Table
pub mod Objects
pub mod Sockets
