-- ===== src/Tests/Transport.antt =====
-- A request that is in flight while the transport is aborted, and a close with nothing in flight.
use portolan.Prelude.{◌+◌, ◌≤◌, ◌≡◌, inr, refl}
use portolan.Context.{eof, err}
use portolan.Lsp.Transport.{
  external, Transport, new_transport, draw_id, register, settle, begin_close, abort, is_open,
  connection_error, unavailable_error, admit_write,
}
use portolan.Lsp.Transport.Steps.{draws, registers, settles, aborts, Reach, here, next}
use portolan.Lsp.Transport.Counting.{count, count_results}
use portolan.Lsp.Transport.Lifecycle.{left_for_good}
use portolan.Lsp.Transport.Delivery.{settled_once, all_settled}

abbrev drawn_one : Transport
drawn_one = draw_id new_transport

abbrev in_flight : Transport
in_flight = (register 1 drawn_one).1

abbrev broken : Transport
broken = settle 1 (abort eof in_flight)

Reach-in_flight : Reach new_transport in_flight
unfolding draw_id new_transport
Reach-in_flight = next (next here (draws new_transport)) (registers drawn_one 1 refl)

Reach-broken : Reach in_flight broken
Reach-broken = next (next here (aborts in_flight eof)) (settles (abort eof in_flight) 1)

settled_once_example :
    count_results 1 in_flight.settled + (count 1 in_flight.pending + count_results 1 in_flight.owed)
    ≤ 1
settled_once_example = settled_once 1 Reach-in_flight

all_settled_example : count_results 1 broken.settled ≡ 1
unfolding draw_id new_transport register settle abort
all_settled_example = all_settled 1 Reach-in_flight refl Reach-broken (inr refl) refl

left_for_good_example :
    ((register 2 broken).0 ≡ err (connection_error broken))
    × (admit_write external broken ≡ err (connection_error broken))
    × (unavailable_error broken ≡ unavailable_error (abort eof in_flight))
unfolding draw_id new_transport register abort is_open
left_for_good_example = left_for_good 2 refl (next here (settles (abort eof in_flight) 1))

abbrev closing_one : Transport
closing_one = (begin_close 1 drawn_one).1
