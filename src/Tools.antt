-- ===== src/Tools.antt =====
-- internal/tools: the tools find_definition, find_references and get_outline over a provider.
pub mod Walk
pub mod Resolve
pub mod Flatten
pub mod Run
pub mod Navigate
pub mod Outline
