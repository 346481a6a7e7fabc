-- ===== src/Composition.antt =====
-- src/composition/index.ts: canonical JSON, exact versions and version ranges.
pub mod Json
pub mod Versions
pub mod Witnesses
