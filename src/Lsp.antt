-- ===== src/Lsp.antt =====
-- internal/lsp: the JSON-RPC client of the language server.
pub mod Transport
pub mod Framing
pub mod Kinds
pub mod FiniteWork
pub mod Conversion
pub mod Source
pub mod Stderr
pub mod Uri
pub mod Provider
pub mod Requests
pub mod Lexical
pub mod Headers
pub mod Signatures
pub mod Hover
