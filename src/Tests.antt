-- ===== src/Tests.antt =====
-- Tests by evaluation, and each theorem at an input where its hypotheses hold.
mod Headers
mod Signatures
mod Records
mod Hover
mod Samples
mod Tools
mod Transport
mod Framing
mod Telemetry
mod Conversion
mod Source
mod Stderr
mod Pathnorm
mod Provider
mod Publication
mod Control
mod Requests
mod Start
