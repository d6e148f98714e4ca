-- ===== src/Telemetry/Jsonl/Order.antt =====
-- The sink gets the lines in the order in which they were enqueued, with none left out before a
-- failure or an abandoned close.
use portolan.Prelude.{
  Bool-cases, inl, inr, ℕ, Bool, true, false, List, [], ◌∷◌, ◌++◌, append_assoc, Bytes, ◌≡◌, ◌⊎◌,
  inr, refl, sym, ap, ◌∙◌, arith,
}
use portolan.Telemetry.Jsonl.{
  uncount, uncount_from, count_abandoned, accounting, Hand, idle, writing, discarding, Logger,
  new_logger, enter, lock_admission, try_slot, check_admission, count_accepted, count_pending,
  enqueue, take_from, take_record, finish_from, finish, announce_close, close_queue, abandon,
}
use portolan.Telemetry.Jsonl.Steps.{
  uncounts, counts, Step, enters, locks, reserves, gives_up, checks, accepts, pends, sends, takes,
  finishes, announces, closes, abandons, Reach, here, next,
}

pub record IsPrefix (s t : List Bytes) : Type 0 where
  pub rest : List Bytes
  pub splits : t ≡ s ++ rest

pub record Ordered (l : Logger) : Type 0 where
  pub when_writing : (x : Bytes) → l.hand ≡ writing x → l.history ≡ l.sink ++ (x ∷ l.queue)
  pub when_idle :
      l.hand ≡ idle → l.failed ≡ false → l.abandoned ≡ false → l.history ≡ l.sink ++ l.queue
  pub when_accounting :
      l.hand ≡ accounting → l.failed ≡ false → l.abandoned ≡ false → l.history ≡ l.sink ++ l.queue
  pub when_discarding :
      (x : Bytes) → l.hand ≡ discarding x → (l.failed ≡ true) ⊎ (l.abandoned ≡ true)
  pub delivered : l.failed ≡ false → l.abandoned ≡ false → l.undelivered_accepted ≡ 0
  pub is_prefix : IsPrefix l.sink l.history

-- What the order depends on.
record SameOrder (l m : Logger) : Type 0 where
  same_hand : m.hand ≡ l.hand
  same_sink : m.sink ≡ l.sink
  same_queue : m.queue ≡ l.queue
  same_history : m.history ≡ l.history
  same_failed : m.failed ≡ l.failed
  same_abandoned : m.abandoned ≡ l.abandoned
  same_undelivered : m.undelivered_accepted ≡ l.undelivered_accepted

SameOrder-Ordered : {l m : Logger} → SameOrder l m → Ordered l → Ordered m
SameOrder-Ordered s v = record {
  when_writing = λ x h. ground (arith, v.when_writing x);
  when_idle = λ h f a. ground arith;
  when_accounting = λ h f a. ground arith;
  when_discarding = λ x h. ground (arith, v.when_discarding x);
  delivered = λ f a. ground arith;
  is_prefix = record { rest = v.is_prefix.rest; splits = ground arith };
}

extend-IsPrefix : {s t : List Bytes} (x : Bytes) → IsPrefix s t → IsPrefix s (t ++ (x ∷ []))
extend-IsPrefix {s} x p = record {
  rest = p.rest ++ (x ∷ []);
  splits = ap (λ t. t ++ (x ∷ [])) p.splits ∙ append_assoc s p.rest (x ∷ []);
}

enqueued-Ordered :
    {l : Logger} (line : Bytes) (m : Logger)
    → Ordered l
    → m.hand ≡ l.hand
    → m.sink ≡ l.sink
    → m.failed ≡ l.failed
    → m.abandoned ≡ l.abandoned
    → m.undelivered_accepted ≡ l.undelivered_accepted
    → m.queue ≡ l.queue ++ (line ∷ [])
    → m.history ≡ l.history ++ (line ∷ [])
    → Ordered m
enqueued-Ordered {l} line m v a b c d e f g = record {
  when_writing =
      λ x h. ground (arith, v.when_writing x, append_assoc l.sink (x ∷ l.queue) (line ∷ []));
  when_idle = λ h p q. ground (arith, append_assoc l.sink l.queue (line ∷ []));
  when_accounting = λ h p q. ground (arith, append_assoc l.sink l.queue (line ∷ []));
  when_discarding = λ x h. ground (arith, v.when_discarding x);
  delivered = λ p q. ground arith;
  is_prefix = rw (b, g) (extend-IsPrefix line v.is_prefix);
}

take_from-Ordered :
    (h : Hand) (q : List Bytes) (l : Logger)
    → l.hand ≡ h
    → l.queue ≡ q
    → Ordered l
    → Ordered (take_from h q l)
unfolding take_from
take_from-Ordered idle [] l a b v = v
take_from-Ordered idle (line ∷ rest) l a b v = record {
  when_writing = λ x h. ground arith;
  when_idle = λ h f g. ground arith;
  when_accounting = λ h f g. ground arith;
  when_discarding = λ x h. ground arith;
  delivered = v.delivered;
  is_prefix = v.is_prefix;
}
take_from-Ordered (writing x) q l a b v = v
take_from-Ordered (discarding x) q l a b v = v
take_from-Ordered accounting q l a b v = v

finish_from-Ordered :
    (h : Hand) (success : Bool) (l : Logger)
    → l.hand ≡ h
    → Ordered l
    → Ordered (finish_from h success l)
unfolding finish_from
finish_from-Ordered idle success l a v = v
finish_from-Ordered accounting success l a v = v
finish_from-Ordered (writing x) true l a v =
    let moved = v.when_writing x a ∙ sym (append_assoc l.sink (x ∷ []) l.queue) in
    elim (Bool-cases l.abandoned) [
      | inl b ↦ record {
        when_writing = λ y h. ground arith;
        when_idle = λ h f g. ground arith;
        when_accounting = λ h f g. ground arith;
        when_discarding = λ y h. ground arith;
        delivered = λ f g. ground (arith, v.delivered);
        is_prefix = record { rest = l.queue; splits = ground (arith, moved, b) };
      }
      | inr b ↦ record {
        when_writing = λ y h. ground arith;
        when_idle = λ h f g. ground arith;
        when_accounting = λ h f g. ground (arith, moved, b);
        when_discarding = λ y h. ground arith;
        delivered = λ f g. ground (arith, v.delivered);
        is_prefix = record { rest = l.queue; splits = ground (arith, moved, b) };
      }
    ]
finish_from-Ordered (writing x) false l a v = record {
  when_writing = λ y h. ground arith;
  when_idle = λ h f g. ground arith;
  when_accounting = λ h f g. ground arith;
  when_discarding = λ y h. ground arith;
  delivered = λ f g. ground arith;
  is_prefix = record { rest = v.is_prefix.rest; splits = ground (arith, v.is_prefix.splits) };
}
finish_from-Ordered (discarding x) success l a v = record {
  when_writing = λ y h. ground arith;
  when_idle = λ h f g. ground (arith, v.when_discarding x);
  when_accounting = λ h f g. ground (arith, v.when_discarding x);
  when_discarding = λ y h. ground arith;
  delivered = λ f g. ground (arith, v.when_discarding x);
  is_prefix = record { rest = v.is_prefix.rest; splits = ground (arith, v.is_prefix.splits) };
}

uncount_from-Ordered : (h : Hand) (l : Logger) → l.hand ≡ h → Ordered l → Ordered (uncount_from h l)
unfolding uncount_from
uncount_from-Ordered accounting l a v = record {
  when_writing = λ y h. cc;
  when_idle = λ h f g. v.when_accounting a f g;
  when_accounting = λ h f g. cc;
  when_discarding = λ y h. cc;
  delivered = v.delivered;
  is_prefix = v.is_prefix;
}
uncount_from-Ordered idle l a v = v
uncount_from-Ordered (writing x) l a v = v
uncount_from-Ordered (discarding x) l a v = v

enqueue-Ordered : (line : Bytes) (l : Logger) → Ordered l → Ordered (enqueue line l)
unfolding enqueue
enqueue-Ordered line l v =
    enqueued-Ordered {l = l} line (enqueue line l) v refl refl refl refl refl refl refl

Step-Ordered : {l m : Logger} → Ordered l → Step l m → Ordered m
Step-Ordered v (enters l oversize fallback) =
    SameOrder-Ordered {l = l} (unfold enter in ground arith) v
Step-Ordered v (locks l) = SameOrder-Ordered {l = l} (unfold lock_admission in ground arith) v
Step-Ordered v (reserves l w f) = SameOrder-Ordered {l = l} (unfold try_slot in ground arith) v
Step-Ordered v (gives_up l o n w) = SameOrder-Ordered {l = l} (unfold try_slot in ground arith) v
Step-Ordered v (checks l h) = SameOrder-Ordered {l = l} (unfold check_admission in ground arith) v
Step-Ordered v (accepts l h) = SameOrder-Ordered {l = l} (unfold count_accepted in ground arith) v
Step-Ordered v (pends l h) = SameOrder-Ordered {l = l} (unfold count_pending in ground arith) v
Step-Ordered v (sends l line h) = enqueue-Ordered line l v
Step-Ordered v (takes l) = unfold take_record in take_from-Ordered l.hand l.queue l refl refl v
Step-Ordered v (finishes l success) = unfold finish in finish_from-Ordered l.hand success l refl v
Step-Ordered v (uncounts l) = unfold uncount in uncount_from-Ordered l.hand l refl v
Step-Ordered v (counts l a) =
    unfold count_abandoned in
    record {
      when_writing = v.when_writing;
      when_idle = v.when_idle;
      when_accounting = v.when_accounting;
      when_discarding = v.when_discarding;
      delivered = λ f g. cc;
      is_prefix = v.is_prefix;
    }
Step-Ordered v (announces l) = SameOrder-Ordered {l = l} (unfold announce_close in ground arith) v
Step-Ordered v (closes l a b) = SameOrder-Ordered {l = l} (unfold close_queue in ground arith) v
Step-Ordered v (abandons l a b c) =
    unfold abandon in
    record {
      when_writing = v.when_writing;
      when_idle = λ h f g. cc;
      when_accounting = λ h f g. cc;
      when_discarding = λ x h. inr refl;
      delivered = λ f g. cc;
      is_prefix = v.is_prefix;
    }

pub new_logger-Ordered : (capacity : ℕ) → Ordered (new_logger capacity)
unfolding new_logger
new_logger-Ordered capacity = record {
  when_writing = λ x h. cc;
  when_idle = λ h f a. refl;
  when_accounting = λ h f a. refl;
  when_discarding = λ x h. cc;
  delivered = λ f a. refl;
  is_prefix = record { rest = []; splits = refl };
}

pub Reach-Ordered : {l m : Logger} → Ordered l → Reach l m → Ordered m
Reach-Ordered v here = v
Reach-Ordered v (next r s) = Step-Ordered (Reach-Ordered v r) s
