-- ===== src/Core.antt =====
-- internal/core: positions, ranges, symbols, the configuration's bounds and the generation counter.
pub mod Types
pub mod Ranges
pub mod Config
pub mod Dimensions
