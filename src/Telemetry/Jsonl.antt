-- ===== src/Telemetry/Jsonl.antt =====
-- internal/telemetry/jsonl.go and internal/telemetry/jsonl_lifecycle.go: admission, the writer and the
-- shutdown of JSONLLogger. A function is what one goroutine does between two points at which another
-- may run, or read the counters: the accounts of a record and of an abandoned close, under accountMu, are
-- two steps each. `swapped` is what an abandoned close took from `pending` and has still to count. Of the Log
-- calls that hold the read lock, `waiting` counts those without a slot, `reserved` those with one, and
-- `admitted`, `counted` and `sending` those behind the checks, behind `accepted.Add` and behind
-- `pending.Add`, in front of the send; `sink` has the lines that a write delivered whole, and `history`,
-- which the program does not keep, the lines that were enqueued.
pub mod Steps
pub mod Accounting
pub mod Order
pub mod Shutdown
use portolan.Prelude.{
  ℕ, zero, suc, ◌+◌, ◌-◌, ◌%◌, ◌^◌, Bool, true, false, List, [], ◌∷◌, ◌++◌, Bytes, if◌then◌else◌,
}

-- What the writer has in hand; `accounting` is a record that it has counted as written or undelivered, and
-- not yet taken from the pending ones.
pub data Hand : Type 0 where
  idle : Hand
  writing discarding : Bytes → Hand
  accounting : Hand

-- The atomic counters are uint64; those that only grow are plain numbers here.
pub record Logger : Type 0 where
  pub capacity : ℕ
  pub queue : List Bytes
  pub slots : ℕ
  pub waiting : ℕ
  pub reserved : ℕ
  pub admitted : ℕ
  pub counted : ℕ
  pub sending : ℕ
  pub hand : Hand
  pub sink : List Bytes
  pub history : List Bytes
  pub closed_state : Bool
  pub closed : Bool
  pub failed : Bool
  pub abandoned : Bool
  pub accepted : ℕ
  pub written : ℕ
  pub pending : ℕ
  pub queue_timeout_drops : ℕ
  pub canceled_drops : ℕ
  pub oversize_records : ℕ
  pub marshal_fallbacks : ℕ
  pub post_close_drops : ℕ
  pub sink_failure_drops : ℕ
  pub undelivered_accepted : ℕ
  pub shutdown_timeouts : ℕ
  pub swapped : ℕ

abbrev pub default_jsonl_capacity : ℕ
default_jsonl_capacity = 512

-- `newJSONLLogger`.
unfoldable pub new_logger : ℕ → Logger
new_logger capacity = record {
  capacity = capacity;
  queue = [];
  slots = 0;
  waiting = 0;
  reserved = 0;
  admitted = 0;
  counted = 0;
  sending = 0;
  hand = idle;
  sink = [];
  history = [];
  closed_state = false;
  closed = false;
  failed = false;
  abandoned = false;
  accepted = 0;
  written = 0;
  pending = 0;
  queue_timeout_drops = 0;
  canceled_drops = 0;
  oversize_records = 0;
  marshal_fallbacks = 0;
  post_close_drops = 0;
  sink_failure_drops = 0;
  undelivered_accepted = 0;
  shutdown_timeouts = 0;
  swapped = 0;
}

abbrev pub counter_modulus : ℕ
counter_modulus = 2 ^ 64

-- `pending.Add(^uint64(0))`.
unfoldable pub decrement : ℕ → ℕ
decrement n = (n + (counter_modulus - 1)) % counter_modulus

drop_closed : Logger → Logger
drop_closed l = record l { post_close_drops = l.post_close_drops + 1 }

drop_failed : Logger → Logger
drop_failed l = record l { sink_failure_drops = l.sink_failure_drops + 1 }

count_encoding : Bool → Bool → Logger → Logger
count_encoding oversize fallback l = record l {
  oversize_records = l.oversize_records + (if oversize then 1 else 0);
  marshal_fallbacks = l.marshal_fallbacks + (if fallback then 1 else 0);
}

-- `logSnapshot` up to the read lock, with what the encoder says of the record. The flag is whether the
-- call goes on.
unfoldable pub enter : Bool → Bool → Logger → Bool × Logger
unfolding drop_closed drop_failed count_encoding
enter oversize fallback l =
    if l.closed_state
    then (false, drop_closed l)
    else if l.failed
    then (false, drop_failed l)
    else (true, count_encoding oversize fallback l)

-- The checks behind the read lock.
unfoldable pub lock_admission : Logger → Bool × Logger
unfolding drop_closed drop_failed
lock_admission l =
    if l.closed
    then (false, drop_closed l)
    else if l.failed
    then (false, drop_failed l)
    else (true, record l { waiting = l.waiting + 1 })

-- How `trySlot` ends: with a slot, or by the context, the close, a failure of the sink or the timer.
pub data SlotOutcome : Type 0 where
  slot canceled stopped_by_close stopped_by_failure timed_out : SlotOutcome

unfoldable pub try_slot : SlotOutcome → Logger → Bool × Logger
unfolding drop_closed drop_failed
try_slot slot l =
    (true, record l { waiting = l.waiting - 1; reserved = l.reserved + 1; slots = l.slots + 1 })
try_slot canceled l =
    (false, record l { waiting = l.waiting - 1; canceled_drops = l.canceled_drops + 1 })
try_slot stopped_by_close l = (false, drop_closed (record l { waiting = l.waiting - 1 }))
try_slot stopped_by_failure l = (false, drop_failed (record l { waiting = l.waiting - 1 }))
try_slot timed_out l =
    (false, record l { waiting = l.waiting - 1; queue_timeout_drops = l.queue_timeout_drops + 1 })

-- The checks of `logSnapshot` for a call that has a slot, which it gives back where it stops there.
unfoldable pub check_admission : Logger → Bool × Logger
unfolding drop_closed drop_failed
check_admission l =
    if l.closed_state
    then (false, drop_closed (record l { reserved = l.reserved - 1; slots = l.slots - 1 }))
    else if l.failed
    then (false, drop_failed (record l { reserved = l.reserved - 1; slots = l.slots - 1 }))
    else (true, record l { reserved = l.reserved - 1; admitted = l.admitted + 1 })

-- The end of `logSnapshot`, one statement at a time: the writer runs between them.
unfoldable pub count_accepted : Logger → Logger
count_accepted l = record l {
  admitted = l.admitted - 1;
  counted = l.counted + 1;
  accepted = l.accepted + 1;
}

unfoldable pub count_pending : Logger → Logger
count_pending l = record l {
  counted = l.counted - 1;
  sending = l.sending + 1;
  pending = l.pending + 1;
}

unfoldable pub enqueue : Bytes → Logger → Logger
enqueue line l = record l {
  sending = l.sending - 1;
  queue = l.queue ++ (line ∷ []);
  history = l.history ++ (line ∷ []);
}

take_from : Hand → List Bytes → Logger → Logger
take_from idle (line ∷ rest) l = record l {
  queue = rest;
  hand =
      if l.abandoned then discarding line else if l.failed then discarding line else writing line;
}
take_from _ _ l = l

-- `runWriter` takes the next record, and decides what to do with it.
unfoldable pub take_record : Logger → Logger
unfolding take_from
take_record l = take_from l.hand l.queue l

-- `finishWrite` and `finishRecord`, up to the first counter: after an abandoned close they only give the
-- slot back.
finish_written : Bool → Bytes → Logger → Logger
finish_written true line l =
    let m = record l { sink = l.sink ++ (line ∷ []) } in
    if l.abandoned
    then record m { hand = idle; slots = l.slots - 1 }
    else record m { hand = accounting; written = l.written + 1 }
finish_written false line l =
    if l.abandoned then record l { hand = idle; slots = l.slots - 1 } else record l {
      hand = accounting;
      failed = true;
      undelivered_accepted = l.undelivered_accepted + 1;
    }

-- `finishRecord(false)`.
finish_record : Logger → Logger
finish_record l =
    if l.abandoned
    then record l { hand = idle; slots = l.slots - 1 }
    else record l { hand = accounting; undelivered_accepted = l.undelivered_accepted + 1 }

finish_from : Hand → Bool → Logger → Logger
unfolding finish_written finish_record
finish_from (writing line) success l = finish_written success line l
finish_from (discarding line) success l = finish_record l
finish_from _ success l = l

-- `runWriter` finishes the record in hand: `finishWrite`, with whether the sink took the line, or
-- `finishRecord` of a record that is not to be written.
unfoldable pub finish : Bool → Logger → Logger
unfolding finish_from
finish success l = finish_from l.hand success l

uncount_from : Hand → Logger → Logger
uncount_from accounting l = record l {
  hand = idle;
  slots = l.slots - 1;
  pending = decrement l.pending;
}
uncount_from _ l = l

-- The rest of `finishWrite` and `finishRecord`: the record is no longer pending, and gives its slot back.
unfoldable pub uncount : Logger → Logger
unfolding uncount_from
uncount l = uncount_from l.hand l

-- The loop of `runWriter` over `rounds` records; `sinks` says which of the writes succeed.
unfoldable pub run_writer : ℕ → (ℕ → Bool) → Logger → Logger
run_writer zero sinks l = l
run_writer (suc rounds) sinks l =
    run_writer rounds sinks (uncount (finish (sinks rounds) (take_record l)))

-- `closeBy`: the announcement, the queue's end behind the write lock, and giving up at the deadline.
unfoldable pub announce_close : Logger → Logger
announce_close l = record l { closed_state = true }

unfoldable pub close_queue : Logger → Logger
close_queue l = record l { closed = true }

unfoldable pub abandon : Logger → Logger
abandon l = record l { abandoned = true; swapped = l.pending; pending = 0 }

-- The events that were still pending are counted as undelivered.
unfoldable pub count_abandoned : Logger → Logger
count_abandoned l = record l {
  undelivered_accepted = l.undelivered_accepted + l.swapped;
  swapped = 0;
  shutdown_timeouts = l.shutdown_timeouts + 1;
}
