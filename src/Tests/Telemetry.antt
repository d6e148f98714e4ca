-- ===== src/Tests/Telemetry.antt =====
-- A logger with two slots that takes one event, writes it and closes.
use portolan.Prelude.{true, Bytes, codes, refl, arith}
use portolan.Telemetry.Jsonl.{
  uncount, Logger, new_logger, slot, lock_admission, try_slot, check_admission, count_accepted,
  count_pending, enqueue, take_record, finish, announce_close, close_queue,
}
use portolan.Telemetry.Jsonl.Steps.{
  uncounts, locks, reserves, checks, accepts, pends, sends, takes, finishes, announces, closes,
  Reach, here, next,
}
use portolan.Telemetry.Jsonl.Accounting.{Inv, new_logger-Reach-Inv}
use portolan.Telemetry.Jsonl.Order.{IsPrefix}
use portolan.Telemetry.Jsonl.Shutdown.{IsDrained, sink-IsPrefix, Reach-IsDrained}

abbrev line : Bytes
line = codes "{}"

abbrev locked : Logger
locked = (lock_admission (new_logger 2)).1

abbrev holding : Logger
holding = (try_slot slot locked).1

abbrev passed : Logger
passed = (check_admission holding).1

abbrev queued : Logger
queued = enqueue line (count_pending (count_accepted passed))

abbrev drained : Logger
drained = close_queue (announce_close (uncount (finish true (take_record queued))))

Reach-holding : Reach (new_logger 2) holding
unfolding new_logger lock_admission try_slot
Reach-holding =
    next (next here (locks (new_logger 2))) (reserves locked (omega arith) (omega arith))

Reach-queued : Reach (new_logger 2) queued
unfolding new_logger lock_admission try_slot check_admission count_accepted count_pending
Reach-queued =
    next
      (next
        (next (next Reach-holding (checks holding (omega arith))) (accepts passed (omega arith)))
        (pends (count_accepted passed) (omega arith)))
      (sends (count_pending (count_accepted passed)) line (omega arith))

Reach-drained : Reach (new_logger 2) drained
unfolding new_logger lock_admission try_slot check_admission count_accepted count_pending enqueue
    take_record finish uncount announce_close
Reach-drained =
    next
      (next
        (next (next (next Reach-queued (takes queued)) (finishes (take_record queued) true))
          (uncounts (finish true (take_record queued))))
        (announces (uncount (finish true (take_record queued)))))
      (closes (announce_close (uncount (finish true (take_record queued)))) refl refl)

new_logger-Reach-Inv_example : Inv queued
new_logger-Reach-Inv_example = new_logger-Reach-Inv 2 (omega arith) Reach-queued

sink-IsPrefix_example : IsPrefix drained.sink drained.history
sink-IsPrefix_example = sink-IsPrefix 2 Reach-drained

Reach-IsDrained_example : IsDrained drained
unfolding new_logger lock_admission try_slot check_admission count_accepted count_pending enqueue
    take_record finish uncount announce_close close_queue
Reach-IsDrained_example = Reach-IsDrained 2 (omega arith) Reach-drained refl refl refl refl refl
