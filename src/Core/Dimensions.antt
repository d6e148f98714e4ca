-- ===== src/Core/Dimensions.antt =====
-- internal/core/config.go: the check of the telemetry dimensions.
use portolan.Prelude.{
  false, not, ◌&&◌, Option, none, some, Bytes, codes, equal, equal_iff, is_empty, if◌then◌else◌,
  ◌≡◌, ◌↔◌, ◌⊎◌, arith,
}
use portolan.Context.{Error, text}
use portolan.Core.Config.{Config}
use portolan.Text.Space.{trim_space}

abbrev graph_mode_graph : Bytes
graph_mode_graph = codes "graph"

abbrev graph_mode_no_graph : Bytes
graph_mode_no_graph = codes "no-graph"

validate_telemetry_dimensions : Config → Option Error
validate_telemetry_dimensions c =
    if is_empty (trim_space c.session_id)
    then some (text (codes "invalid telemetry session ID: value must not be empty or whitespace"))
    else if not (equal c.graph_mode graph_mode_graph)
        && not (equal c.graph_mode graph_mode_no_graph)
    then some (text (codes "invalid telemetry graph mode"))
    else none

-- A configuration is accepted exactly if its session ID is not all white space and its graph mode is one of
-- the two.
validate_telemetry_dimensions_iff :
    (c : Config)
    → (validate_telemetry_dimensions c ≡ none) ↔ (
        (is_empty (trim_space c.session_id) ≡ false)
        × ((c.graph_mode ≡ graph_mode_graph) ⊎ (c.graph_mode ≡ graph_mode_no_graph)))
unfolding validate_telemetry_dimensions
validate_telemetry_dimensions_iff c =
    let graph = equal_iff c.graph_mode graph_mode_graph in
    let no_graph = equal_iff c.graph_mode graph_mode_no_graph in
    (λ h. ground arith, λ h. ground arith)
