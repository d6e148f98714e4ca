-- ===== src/Mcp.antt =====
-- internal/mcp: the control channel of the daemon.
pub mod Publication
pub mod Control
pub mod Start
