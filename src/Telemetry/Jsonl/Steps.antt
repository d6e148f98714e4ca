-- ===== src/Telemetry/Jsonl/Steps.antt =====
-- A run of the logger is any interleaving of the steps of its callers, its writer and its close.
use portolan.Prelude.{ℕ, ◌+◌, ◌<◌, Bool, true, false, Bytes, ◌≡◌, ◌≢◌}
use portolan.Telemetry.Jsonl.{
  uncount, count_abandoned, accounting, Logger, SlotOutcome, slot, enter, lock_admission, try_slot,
  check_admission, count_accepted, count_pending, enqueue, take_record, finish, announce_close,
  close_queue, abandon,
}

-- The Log calls that hold the read lock.
abbrev pub readers : Logger → ℕ
readers l = l.waiting + l.reserved + l.admitted + l.counted + l.sending

-- A slot is taken only where one is free; the write lock of the close excludes callers that hold the
-- read lock; the deadline is looked at behind it, and `closeOnce` lets that happen once, where accountMu
-- excludes the accounts of the writer.
pub data Step : Logger → Logger → Type 0 where
  enters : (l : Logger) (oversize fallback : Bool) → Step l (enter oversize fallback l).1
  locks : (l : Logger) → Step l (lock_admission l).1
  reserves : (l : Logger) → 0 < l.waiting → l.slots < l.capacity → Step l (try_slot slot l).1
  gives_up : (l : Logger) (o : SlotOutcome) → o ≢ slot → 0 < l.waiting → Step l (try_slot o l).1
  checks : (l : Logger) → 0 < l.reserved → Step l (check_admission l).1
  accepts : (l : Logger) → 0 < l.admitted → Step l (count_accepted l)
  pends : (l : Logger) → 0 < l.counted → Step l (count_pending l)
  sends : (l : Logger) (line : Bytes) → 0 < l.sending → Step l (enqueue line l)
  takes : (l : Logger) → Step l (take_record l)
  finishes : (l : Logger) (success : Bool) → Step l (finish success l)
  announces : (l : Logger) → Step l (announce_close l)
  closes : (l : Logger) → l.closed_state ≡ true → readers l ≡ 0 → Step l (close_queue l)
  uncounts : (l : Logger) → Step l (uncount l)
  abandons :
      (l : Logger)
      → l.closed ≡ true
      → l.abandoned ≡ false
      → l.hand ≢ accounting
      → Step l (abandon l)
  counts : (l : Logger) → l.abandoned ≡ true → Step l (count_abandoned l)

pub data Reach (s : Logger) : Logger → Type 0 where
  here : Reach s s
  next : {t u : Logger} → Reach s t → Step t u → Reach s u
