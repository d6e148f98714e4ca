-- ===== src/Tests/Stderr.antt =====
-- Two reads, the second with the end of the output.
use portolan.Prelude.{true, false, List, [], ◌∷◌, codes, length, drop, ◌-◌, ◌≤◌, ◌≡◌}
use portolan.Lsp.Stderr.{Read, stderr_buffer_cap, drain, received, drain-received}

abbrev two_reads : List Read
two_reads =
    record { bytes = codes "panic: "; ended = false }
    ∷ record { bytes = codes "boom"; ended = true }
    ∷ []

drain-received_example :
    (drain [] two_reads
      ≡ drop (length (received two_reads) - stderr_buffer_cap) (received two_reads))
    × (length (drain [] two_reads) ≤ stderr_buffer_cap)
drain-received_example = drain-received two_reads
