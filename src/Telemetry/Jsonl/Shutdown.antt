-- ===== src/Telemetry/Jsonl/Shutdown.antt =====
-- What `Close` leaves behind, how the writer drains the queue, and the drops of a Log call.
use portolan.Prelude.{
  ℕ, ◌+◌, ◌<◌, Bool, true, false, List, [], ◌∷◌, append-nil, Bytes, length, if◌then◌else◌, ◌≡◌,
  arith,
}
use portolan.Telemetry.Jsonl.{
  uncount, uncount_from, idle, Logger, new_logger, counter_modulus, SlotOutcome, enter,
  lock_admission, try_slot, check_admission, take_from, take_record, finish_from, finish,
  run_writer,
}
use portolan.Telemetry.Jsonl.Steps.{Reach}
use portolan.Telemetry.Jsonl.Accounting.{new_logger-Reach-Inv}
use portolan.Telemetry.Jsonl.Order.{IsPrefix, new_logger-Ordered, Reach-Ordered}

-- The state in which `runWriter` has returned after a clean close.
pub record IsDrained (l : Logger) : Type 0 where
  pub sink_is : l.sink ≡ l.history
  pub written_is : l.written ≡ l.accepted
  pub pending_is : l.pending ≡ 0
  pub undelivered_is : l.undelivered_accepted ≡ 0

-- In every state that a new logger comes to, under any interleaving of callers, writer and close, the
-- lines in the sink are a prefix of the lines that were enqueued, in the order of the queue.
pub sink-IsPrefix :
    {l : Logger} (capacity : ℕ) → Reach (new_logger capacity) l → IsPrefix l.sink l.history
sink-IsPrefix {l} capacity r = let o = Reach-Ordered (new_logger-Ordered capacity) r in o.is_prefix

-- In every state that a new logger, of a capacity below 2 ^ 64, comes to, if its queue has been closed and
-- is empty, its writer is idle, and it has neither failed nor been abandoned, every line that was enqueued
-- has been delivered, in the same order, and all accepted events are counted as written.
pub Reach-IsDrained :
    {l : Logger} (capacity : ℕ)
    → capacity < counter_modulus
    → Reach (new_logger capacity) l
    → l.closed ≡ true
    → l.queue ≡ []
    → l.hand ≡ idle
    → l.failed ≡ false
    → l.abandoned ≡ false
    → IsDrained l
Reach-IsDrained {l} capacity h r c q i f a =
    let v = new_logger-Reach-Inv capacity h r in
    let o = Reach-Ordered (new_logger-Ordered capacity) r in
    let u = o.delivered f a in
    let p : l.pending ≡ 0 = ground (arith, v.pending_is a, v.closed_is c) in
    record {
      sink_is = ground (arith, o.when_idle i f a, append-nil l.sink);
      written_is = ground (arith, v.balanced, v.closed_is c, v.swapped_is a);
      pending_is = p;
      undelivered_is = u;
    }

-- The drops that the snapshot reports, together.
unfoldable pub drops : Logger → ℕ
drops l = l.queue_timeout_drops + l.canceled_drops + l.post_close_drops + l.sink_failure_drops

-- A stage of a Log call drops the event exactly when the call does not go on.
unfoldable pub CountsDrop : Bool × Logger → Logger → Type 0
CountsDrop r l = drops r.1 ≡ drops l + (if r.0 then 0 else 1)

-- Each of the stages of a Log call, the entry, the checks behind the lock, the wait for a slot with any
-- outcome and the checks behind it, counts one drop, in one of the four counters, where the call stops there,
-- and none where it goes on.
pub log-CountsDrop :
    (l : Logger) (oversize fallback : Bool) (o : SlotOutcome)
    → CountsDrop (enter oversize fallback l) l
      × CountsDrop (lock_admission l) l
      × CountsDrop (try_slot o l) l
      × CountsDrop (check_admission l) l
unfolding CountsDrop drops
log-CountsDrop l oversize fallback o = (
  unfold enter in ground arith,
  unfold lock_admission in ground arith,
  unfold try_slot in ground arith,
  unfold check_admission in ground arith,
)

-- One round of the loop, on an idle writer with records queued.
round_lem :
    (success : Bool) (l : Logger) (line : Bytes) (rest : List Bytes)
    → l.hand ≡ idle
    → l.queue ≡ line ∷ rest
    → ((uncount (finish success (take_record l))).hand ≡ idle)
      × ((uncount (finish success (take_record l))).queue ≡ rest)
round_lem success l line rest i q =
    unfold take_record take_from finish finish_from uncount uncount_from in ground arith

-- From an idle writer, with as many rounds as there are records queued, the loop leaves an idle writer and an empty queue,
-- whichever writes fail.
pub run_writer-empty :
    (sinks : ℕ → Bool) (l : Logger) (q : List Bytes)
    → l.hand ≡ idle
    → l.queue ≡ q
    → ((run_writer (length q) sinks l).hand ≡ idle) × ((run_writer (length q) sinks l).queue ≡ [])
unfolding run_writer
run_writer-empty sinks l [] i e = (i, e)
run_writer-empty sinks l (line ∷ rest) i e =
    let r = round_lem (sinks (length rest)) l line rest i e in
    run_writer-empty sinks (uncount (finish (sinks (length rest)) (take_record l))) rest r.0 r.1
