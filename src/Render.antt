-- ===== src/Render.antt =====
-- internal/tools/render and internal/tools/outline_render.go: the compact text of the tools.
pub mod Atoms
pub mod Shared
pub mod Outline
