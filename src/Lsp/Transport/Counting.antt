-- ===== src/Lsp/Transport/Counting.antt =====
-- Every key is in at most one place: drawn, pending, owed or settled.
use portolan.Prelude.{
  ℕ, ◌+◌, ◌≤◌, ◌<◌, true, Option, none, some, List, [], ◌∷◌, ◌++◌, map, ◌==◌, if◌then◌else◌, ◌≡◌,
  refl, arith,
}
use portolan.Context.{Error, provider_closed}
use portolan.Lsp.Transport.{
  TransportState, opened, closing, closed, aborted, PendingResult, failed, Transport, new_transport,
  mem_key, remove_key, is_settled, draw_id, register, transition_from_open, drain_pending, complete,
  find_owed, remove_owed, settle_with, settle, begin_close, finish_from, finish_close, abort_from,
  abort, reader_failed_from, reader_failed, close_input, kill, start_process_wait,
}
use portolan.Lsp.Transport.Steps.{
  Step, draws, registers, completes, settles, begins_close, finishes_close, aborts, fails_reading,
  closes_input, kills_process, waits_process, Reach, here, next,
}

abbrev pub count : ℕ → List ℕ → ℕ
count k [] = 0
count k (j ∷ js) = (if j == k then 1 else 0) + count k js

abbrev pub count_results : ℕ → List (ℕ × PendingResult) → ℕ
count_results k [] = 0
count_results k ((j, r) ∷ js) = (if j == k then 1 else 0) + count_results k js

-- How often a request was registered: it is pending, owed or settled from then on.
unfoldable pub tally : ℕ → Transport → ℕ
tally k t = count k t.pending + count_results k t.owed + count_results k t.settled

count-remove_key :
    (k j : ℕ) (js : List ℕ)
    → count k js
      ≡ count k (remove_key j js) + (if mem_key j js then (if j == k then 1 else 0) else 0)
count-remove_key k j [] = omega arith
count-remove_key k j (i ∷ is) = ground (arith, count-remove_key k j is)

count_results-drained :
    (k : ℕ) (cause : Error) (js : List ℕ) (rest : List (ℕ × PendingResult))
    → count_results k (map (λ j. (j, failed cause)) js ++ rest) ≡ count k js + count_results k rest
count_results-drained k cause [] rest = omega arith
count_results-drained k cause (j ∷ js) rest = omega (arith, count_results-drained k cause js rest)

count-mem_key : (k : ℕ) (js : List ℕ) → mem_key k js ≡ true → 1 ≤ count k js
count-mem_key k [] h = cc
count-mem_key k (j ∷ js) h = ground (arith, count-mem_key k js)

is_settled-count :
    (k : ℕ) (js : List (ℕ × PendingResult)) → is_settled k js ≡ true → 1 ≤ count_results k js
is_settled-count k [] h = cc
is_settled-count k ((j, r) ∷ js) h = ground (arith, is_settled-count k js)

-- Each key is in one place at most, and none above `next_id` is anywhere.
pub record Inv (t : Transport) : Type 0 where
  pub once : (k : ℕ) → count k t.drawn + tally k t ≤ 1
  pub fresh : (k : ℕ) → t.next_id < k → count k t.drawn + tally k t ≡ 0

-- What a step may do to the keys: it draws the next one, or it moves a key on.
pub record Moves (t u : Transport) : Type 0 where
  pub same_id : u.next_id ≡ t.next_id
  pub same_sum : (k : ℕ) → count k u.drawn + tally k u ≤ count k t.drawn + tally k t
  pub grows : (k : ℕ) → tally k t ≤ tally k u

drain_pending-tally :
    (k : ℕ) (cause : Error) (t : Transport) → tally k (drain_pending cause t) ≡ tally k t
unfolding drain_pending tally
drain_pending-tally k cause t = omega (arith, count_results-drained k cause t.pending t.owed)

count_results-remove_owed :
    (k j : ℕ) (js : List (ℕ × PendingResult)) {r : PendingResult}
    → find_owed j js ≡ some r
    → count_results k js ≡ count_results k (remove_owed j js) + (if j == k then 1 else 0)
count_results-remove_owed k j [] h = cc
count_results-remove_owed k j ((i, q) ∷ is) {r} h =
    ground (arith, count_results-remove_owed k j is {r = r})

draw_id-Inv : {t : Transport} → Inv t → Inv (draw_id t)
unfolding draw_id tally
draw_id-Inv {t} v = record {
  once = λ k. ground (arith, v.once k, v.fresh k);
  fresh = λ k h. ground (arith, v.fresh k);
}

register-Moves : (t : Transport) (k : ℕ) → mem_key k t.drawn ≡ true → Moves t (register k t).1
unfolding register tally
register-Moves t k h = record {
  same_id = ground arith;
  same_sum = λ j. ground (arith, count-remove_key j k t.drawn);
  grows = λ j. ground arith;
}

complete-Moves : (t : Transport) (k : ℕ) (r : PendingResult) → Moves t (complete k r t).1
unfolding complete tally
complete-Moves t k r = record {
  same_id = ground arith;
  same_sum = λ j. ground (arith, count-remove_key j k t.pending);
  grows = λ j. ground (arith, count-remove_key j k t.pending);
}

settle_with-Moves :
    (t : Transport) (k : ℕ) (o : Option PendingResult)
    → Inv t
    → find_owed k t.owed ≡ o
    → Moves t (settle_with k o t)
unfolding settle_with tally
settle_with-Moves t k none v e = record {
  same_id = refl;
  same_sum = λ j. omega arith;
  grows = λ j. omega arith;
}
settle_with-Moves t k (some r) v e = record {
  same_id = ground arith;
  same_sum = λ j. ground (arith, count_results-remove_owed j k t.owed e);
  grows = λ j. ground (
    arith,
    count_results-remove_owed j k t.owed e,
    count_results-remove_owed k k t.owed e,
    is_settled-count k t.settled,
    v.once k,
  );
}

begin_close-Moves : (t : Transport) (k : ℕ) → mem_key k t.drawn ≡ true → Moves t (begin_close k t).1
unfolding begin_close tally
begin_close-Moves t k h = record {
  same_id = ground arith;
  same_sum = λ j. ground (
    arith,
    count-remove_key j k t.drawn,
    count_results-drained j provider_closed t.pending t.owed,
  );
  grows = λ j. ground (arith, count_results-drained j provider_closed t.pending t.owed);
}

drained-Moves :
    (t u : Transport) (cause : Error)
    → u.next_id ≡ t.next_id
    → u.drawn ≡ t.drawn
    → u.pending ≡ t.pending
    → u.owed ≡ t.owed
    → u.settled ≡ t.settled
    → Moves t (drain_pending cause u)
unfolding drain_pending tally
drained-Moves t u cause a b c d e = record {
  same_id = a;
  same_sum = λ j. ground (arith, count_results-drained j cause u.pending u.owed);
  grows = λ j. ground (arith, count_results-drained j cause u.pending u.owed);
}

stays-Moves :
    (t u : Transport)
    → u.next_id ≡ t.next_id
    → u.drawn ≡ t.drawn
    → u.pending ≡ t.pending
    → u.owed ≡ t.owed
    → u.settled ≡ t.settled
    → Moves t u
unfolding tally
stays-Moves t u a b c d e = record {
  same_id = a;
  same_sum = λ j. ground arith;
  grows = λ j. ground arith;
}

abort_from-Moves :
    (s : TransportState) (t : Transport) (cause : Error) → Moves t (abort_from s cause t)
unfolding abort_from
abort_from-Moves closed t cause = stays-Moves t t refl refl refl refl refl
abort_from-Moves aborted t cause = stays-Moves t t refl refl refl refl refl
abort_from-Moves opened t cause =
    drained-Moves t (transition_from_open aborted cause t).1 cause (ground arith) (ground arith)
      (ground arith) (ground arith) (ground arith)
abort_from-Moves closing t cause =
    drained-Moves t (record t { state = aborted; conn_err = some cause }) cause refl refl refl refl
      refl

reader_failed_from-Moves :
    (s : TransportState) (t : Transport) (cause : Error) → Moves t (reader_failed_from s cause t)
unfolding reader_failed_from
reader_failed_from-Moves closing t cause = drained-Moves t t cause refl refl refl refl refl
reader_failed_from-Moves _ t cause = abort_from-Moves t.state t cause

finish_from-Moves : (s : TransportState) (t : Transport) → Moves t (finish_from s t)
unfolding finish_from
finish_from-Moves closing t =
    drained-Moves t (record t { state = closed }) provider_closed refl refl refl refl refl
finish_from-Moves _ t = stays-Moves t t refl refl refl refl refl

Moves-Inv : {t u : Transport} → Inv t → Moves t u → Inv u
Moves-Inv v m = record {
  once = λ k. omega (arith, v.once k, m.same_sum k);
  fresh = λ k h. let f = v.fresh k (omega (arith, m.same_id)) in omega (arith, f, m.same_sum k);
}

-- What every step does to the invariant and to the registered requests.
record Kept (t u : Transport) : Type 0 where
  inv : Inv u
  grows : (k : ℕ) → tally k t ≤ tally k u

Moves-Kept : {t u : Transport} → Inv t → Moves t u → Kept t u
Moves-Kept v m = record { inv = Moves-Inv v m; grows = m.grows }

Step-Kept : {t u : Transport} → Inv t → Step t u → Kept t u
unfolding settle finish_close abort reader_failed
Step-Kept v (draws t) = record {
  inv = draw_id-Inv v;
  grows = λ k. unfold draw_id tally in omega arith;
}
Step-Kept v (registers t k h) = Moves-Kept v (register-Moves t k h)
Step-Kept v (completes t k r) = Moves-Kept v (complete-Moves t k r)
Step-Kept v (settles t k) = Moves-Kept v (settle_with-Moves t k (find_owed k t.owed) v refl)
Step-Kept v (begins_close t k h) = Moves-Kept v (begin_close-Moves t k h)
Step-Kept v (finishes_close t) = Moves-Kept v (finish_from-Moves t.state t)
Step-Kept v (aborts t cause) = Moves-Kept v (abort_from-Moves t.state t cause)
Step-Kept v (fails_reading t cause) = Moves-Kept v (reader_failed_from-Moves t.state t cause)
Step-Kept v (closes_input t) = Moves-Kept v (
    stays-Moves t (close_input t) (unfold close_input in ground arith)
      (unfold close_input in ground arith) (unfold close_input in ground arith)
      (unfold close_input in ground arith) (unfold close_input in ground arith))
Step-Kept v (kills_process t) = Moves-Kept v (
    stays-Moves t (kill t) (unfold kill in ground arith) (unfold kill in ground arith)
      (unfold kill in ground arith) (unfold kill in ground arith) (unfold kill in ground arith))
Step-Kept v (waits_process t) = Moves-Kept v (
    stays-Moves t (start_process_wait t) (unfold start_process_wait in ground arith)
      (unfold start_process_wait in ground arith) (unfold start_process_wait in ground arith)
      (unfold start_process_wait in ground arith) (unfold start_process_wait in ground arith))

pub new_transport-Inv : Inv new_transport
unfolding new_transport tally
new_transport-Inv = record { once = λ k. omega arith; fresh = λ k h. omega arith }

-- In every reachable state each key is in one place at most.
pub Reach-Inv : {t u : Transport} → Inv t → Reach t u → Inv u
Reach-Inv v here = v
Reach-Inv v (next r s) = (Step-Kept (Reach-Inv v r) s).inv

pub Reach-grows : {t u : Transport} (k : ℕ) → Inv t → Reach t u → tally k t ≤ tally k u
Reach-grows k v here = omega arith
Reach-grows k v (next r s) =
    let earlier = Reach-grows k v r in
    let later = (Step-Kept (Reach-Inv v r) s).grows k in omega arith
