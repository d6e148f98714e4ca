-- ===== src/Telemetry/Jsonl/Accounting.antt =====
-- No accepted event is lost from the books: each is written, pending or undelivered, or about to be pending.
use portolan.Prelude.{
  ℕ, ◌+◌, ◌≤◌, ◌<◌, Bool, true, false, List, [], ◌∷◌, Bytes, length, length-append, ◌≡◌, ◌≢◌, refl,
  arith,
}
use portolan.Telemetry.Jsonl.{
  uncount, uncount_from, count_abandoned, accounting, Hand, idle, writing, discarding, Logger,
  new_logger, counter_modulus, decrement, enter, lock_admission, try_slot, check_admission,
  count_accepted, count_pending, enqueue, take_from, take_record, finish_from, finish,
  announce_close, close_queue, abandon,
}
use portolan.Telemetry.Jsonl.Steps.{
  uncounts, counts, Step, enters, locks, reserves, gives_up, checks, accepts, pends, sends, takes,
  finishes, announces, closes, abandons, Reach, here, next, readers,
}

abbrev pub held : Hand → ℕ
held idle = 0
held (writing line) = 1
held (discarding line) = 1
held accounting = 1

-- The record that is counted twice for the moment.
abbrev pub twice : Hand → ℕ
twice accounting = 1
twice _ = 0

-- Every occupied slot belongs to a Log call, a queued record or the one in hand, and there are never more
-- than the capacity. The accepted events are those written, pending and undelivered, those that a call has
-- counted as accepted and not yet as pending, and those that an abandoned close took from the pending ones
-- and has still to count; a record that the writer has counted is among the pending ones for a moment more.
-- Pending are those about to be enqueued, queued or in hand, and none once the logger has been abandoned.
pub record Inv (l : Logger) : Type 0 where
  pub slots_used :
      l.slots ≡ l.reserved + l.admitted + l.counted + l.sending + length l.queue + held l.hand
  pub bounded : l.slots ≤ l.capacity
  pub balanced :
      l.accepted + twice l.hand
      ≡ l.written + l.pending + l.undelivered_accepted + l.counted + l.swapped
  pub swapped_is : l.abandoned ≡ false → l.swapped ≡ 0
  pub pending_is : l.abandoned ≡ false → l.pending ≡ l.sending + length l.queue + held l.hand
  pub abandoned_is : l.abandoned ≡ true → (l.pending ≡ 0) × (l.closed ≡ true) × (twice l.hand ≡ 0)
  pub closed_is : l.closed ≡ true → (l.closed_state ≡ true) × (readers l ≡ 0)
  pub fits : l.capacity < counter_modulus

decrement-suc : (n : ℕ) → n < counter_modulus → 0 < n → decrement n + 1 ≡ n
unfolding decrement
decrement-suc n h p = omega arith

take_from-Inv :
    (h : Hand) (q : List Bytes) (l : Logger)
    → l.hand ≡ h
    → l.queue ≡ q
    → Inv l
    → Inv (take_from h q l)
unfolding take_from
take_from-Inv idle [] l a b v = v
take_from-Inv idle (line ∷ rest) l a b v = ground arith
take_from-Inv (writing x) q l a b v = v
take_from-Inv (discarding x) q l a b v = v
take_from-Inv accounting q l a b v = v

finish_from-Inv :
    (h : Hand) (success : Bool) (l : Logger) → l.hand ≡ h → Inv l → Inv (finish_from h success l)
unfolding finish_from
finish_from-Inv idle success l a v = v
finish_from-Inv (writing x) true l a v = ground arith
finish_from-Inv (writing x) false l a v = ground arith
finish_from-Inv (discarding x) success l a v = ground arith
finish_from-Inv accounting success l a v = v

uncount_from-Inv : (h : Hand) (l : Logger) → l.hand ≡ h → Inv l → Inv (uncount_from h l)
unfolding uncount_from
uncount_from-Inv accounting l a v = ground (arith, decrement-suc l.pending)
uncount_from-Inv idle l a v = v
uncount_from-Inv (writing x) l a v = v
uncount_from-Inv (discarding x) l a v = v

abandon-Inv :
    (h : Hand) (l : Logger)
    → l.hand ≡ h
    → Inv l
    → l.closed ≡ true
    → l.abandoned ≡ false
    → l.hand ≢ accounting
    → Inv (abandon l)
unfolding abandon
abandon-Inv accounting l e v a b c = absurd (c e)
abandon-Inv idle l e v a b c = ground arith
abandon-Inv (writing x) l e v a b c = ground arith
abandon-Inv (discarding x) l e v a b c = ground arith

Step-Inv : {l m : Logger} → Inv l → Step l m → Inv m
Step-Inv v (enters l oversize fallback) = unfold enter in ground arith
Step-Inv v (locks l) = unfold lock_admission in ground arith
Step-Inv v (reserves l w f) = unfold try_slot in ground arith
Step-Inv v (gives_up l o n w) = unfold try_slot in ground arith
Step-Inv v (checks l h) = unfold check_admission in ground arith
Step-Inv v (accepts l h) = unfold count_accepted in ground arith
Step-Inv v (pends l h) = unfold count_pending in ground arith
Step-Inv v (sends l line h) = unfold enqueue in ground (arith, length-append l.queue (line ∷ []))
Step-Inv v (takes l) = unfold take_record in take_from-Inv l.hand l.queue l refl refl v
Step-Inv v (finishes l success) = unfold finish in finish_from-Inv l.hand success l refl v
Step-Inv v (announces l) = unfold announce_close in ground arith
Step-Inv v (closes l a b) = unfold close_queue in ground arith
Step-Inv v (uncounts l) = unfold uncount in uncount_from-Inv l.hand l refl v
Step-Inv v (abandons l a b c) = abandon-Inv l.hand l refl v a b c
Step-Inv v (counts l a) = unfold count_abandoned in ground arith

new_logger-Inv : (capacity : ℕ) → capacity < counter_modulus → Inv (new_logger capacity)
unfolding new_logger
new_logger-Inv capacity h = ground arith

pub Reach-Inv : {l m : Logger} → Inv l → Reach l m → Inv m
Reach-Inv v here = v
Reach-Inv v (next r s) = Step-Inv (Reach-Inv v r) s

-- In every state that a new logger, of a capacity below 2 ^ 64, comes to, under any interleaving of callers,
-- writer and close, the queue and the record in hand stay within the capacity. The events counted as accepted
-- are those written, pending or undelivered, those that a Log call is about to count as pending, and those
-- that an abandoned close is about to count as undelivered, with one counted twice while the writer is
-- about to take it from the pending ones. Unless the logger was abandoned, the pending counter is the number of
-- events about to be sent, queued or in hand, so that it never falls below zero.
pub new_logger-Reach-Inv :
    {l : Logger} (capacity : ℕ) → capacity < counter_modulus → Reach (new_logger capacity) l → Inv l
new_logger-Reach-Inv capacity h r = Reach-Inv (new_logger-Inv capacity h) r
