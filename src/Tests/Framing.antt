-- ===== src/Tests/Framing.antt =====
-- A frame with another one behind it, and a writer that takes three bytes at a time.
use portolan.Prelude.{none, ◌++◌, codes, ◌≡◌, min, arith}
use portolan.Context.{ok}
use portolan.Lsp.Framing.{read_frame, frame_bytes}
use portolan.Lsp.Framing.RoundTrip.{read_frame-frame_bytes}
use portolan.Lsp.Framing.Writing.{Writer, write_full, IsWritten, write_full-IsWritten}

read_frame-frame_bytes_example :
    read_frame (frame_bytes (codes "{\"id\":1}") ++ frame_bytes (codes "{}"))
    ≡ ok (codes "{\"id\":1}", frame_bytes (codes "{}"))
read_frame-frame_bytes_example =
    read_frame-frame_bytes (codes "{\"id\":1}") (frame_bytes (codes "{}")) (omega arith)

abbrev three_at_a_time : Writer
three_at_a_time = λ round left. (min 3 left, none)

write_full-IsWritten_example :
    IsWritten (codes "{\"id\":1}") (write_full three_at_a_time (codes "{\"id\":1}"))
write_full-IsWritten_example = write_full-IsWritten three_at_a_time (codes "{\"id\":1}")
