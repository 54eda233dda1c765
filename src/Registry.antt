-- ===== src/Registry.antt =====
-- src/registry: what it keeps in tables of its own.
pub mod FreeTier
