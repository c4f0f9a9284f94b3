-- ===== src/Mm.antt =====
-- Anonymous memory mappings over linear memory: src/mm/arena.rs and src/mm/mod.rs.
pub mod Arena
pub mod Allocator
