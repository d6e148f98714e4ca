-- ===== src/Core/Config.antt =====
-- internal/core/config.go: the graph mode, the effective result cap and the generation counter, and
-- the event of internal/core/telemetry.go.
use portolan.Prelude.{ℕ, ◌<◌, arith, ◌+◌, ◌%◌, ◌^◌, Bool, false, Bytes, if◌then◌else◌}
use portolan.Prelude.Int.{ℤ, pos, pos_part, ltb_ℤ}
use portolan.Core.Types.{Freshness}

pub record Config : Type 0 where
  pub project_root : Bytes
  pub session_id : Bytes
  pub graph_mode : Bytes
  pub tsgo_path : Bytes
  pub jsonl_path : Bytes
  pub control_socket : Bytes
  pub max_results : ℤ

abbrev pub default_max_results : ℕ
default_max_results = 100

-- `Cap`.
unfoldable pub cap_of : ℤ → ℕ
cap_of m = if ltb_ℤ (pos 0) m then pos_part m else default_max_results

pub cap_of-pos : (m : ℤ) → 0 < cap_of m
unfolding cap_of
cap_of-pos m = ground arith

-- `GenerationCounter` holds a uint64.
abbrev pub generation_modulus : ℕ
generation_modulus = 2 ^ 64

unfoldable pub current : ℕ → Freshness
current n = record { generation = n; stale = false }

-- The counter after `Bump`, which is also the value returned.
unfoldable pub bump : ℕ → ℕ
bump n = (n + 1) % generation_modulus

pub record Event : Type 0 where
  pub session_id : Bytes
  pub graph_mode : Bytes
  pub tool : Bytes
  pub duration_ms : ℕ
  pub result_size : ℕ
  pub truncated : Bool
  pub stale : Bool
  pub generation : ℕ
  pub error : Bytes
