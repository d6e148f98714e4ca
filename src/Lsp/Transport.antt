-- ===== src/Lsp/Transport.antt =====
-- internal/lsp/transport.go: the state that the transport keeps under its lock. A function here is one
-- critical section, or the part of a method between two of them. A request is known by its key, the
-- number that `nextID` drew for it; `done` and `result` of a pendingRequest are its row in `settled`.
-- What a drain or a removal takes from the map and completes behind the lock is `owed` in between.
pub mod Steps
pub mod Counting
pub mod Lifecycle
pub mod Delivery
pub mod Shutdown
use portolan.Prelude.{
  ℕ, suc, ◌+◌, Bool, true, false, not, ◌&&◌, ◌||◌, Option, none, some, List, [], ◌∷◌, ◌++◌, map,
  Bytes, codes, ◌==◌, if◌then◌else◌,
}
use portolan.Context.{Error, provider_closed, text, Result, ok, err}

pub data TransportState : Type 0 where
  opened closing closed aborted : TransportState

pub data WritePolicy : Type 0 where
  external server_response shutdown exit : WritePolicy

-- A response: its error, if it has one, and its result, both as raw text.
pub record Message : Type 0 where
  pub failure : Option Bytes
  pub result : Bytes

pub data PendingResult : Type 0 where
  answered : Message → PendingResult
  failed : Error → PendingResult

pub record Transport : Type 0 where
  pub state : TransportState
  pub conn_err : Option Error
  pub unavailable : Bool
  pub unavailable_cause : Option Error
  pub next_id : ℕ
  pub drawn : List ℕ
  pub pending : List ℕ
  pub owed : List (ℕ × PendingResult)
  pub settled : List (ℕ × PendingResult)
  pub input_closed : Bool
  pub input_closes : ℕ
  pub killed : Bool
  pub kills : ℕ
  pub waiting : Bool
  pub waits : ℕ

-- `newTransport`.
unfoldable pub new_transport : Transport
new_transport = record {
  state = opened;
  conn_err = none;
  unavailable = false;
  unavailable_cause = none;
  next_id = 0;
  drawn = [];
  pending = [];
  owed = [];
  settled = [];
  input_closed = false;
  input_closes = 0;
  killed = false;
  kills = 0;
  waiting = false;
  waits = 0;
}

abbrev pub mem_key : ℕ → List ℕ → Bool
mem_key k [] = false
mem_key k (j ∷ js) = if j == k then true else mem_key k js

-- `delete(t.pending, key)`.
abbrev pub remove_key : ℕ → List ℕ → List ℕ
remove_key k [] = []
remove_key k (j ∷ js) = if j == k then js else j ∷ remove_key k js

abbrev pub is_settled : ℕ → List (ℕ × PendingResult) → Bool
is_settled k [] = false
is_settled k ((j, _) ∷ js) = if j == k then true else is_settled k js

-- `t.nextID.Add(1)`.
unfoldable pub draw_id : Transport → Transport
draw_id t = record t { next_id = t.next_id + 1; drawn = (t.next_id + 1) ∷ t.drawn }

-- `connectionErrorLocked`.
unfoldable pub connection_error : Transport → Error
connection_error t = elim t.conn_err [ some e ↦ e | none ↦ provider_closed ]

-- `unavailableError`.
unfoldable pub unavailable_error : Transport → Error
unavailable_error t = elim t.unavailable_cause [ some e ↦ e | none ↦ provider_closed ]

unfoldable pub is_open : Transport → Bool
is_open t = elim t.state [ opened ↦ true | _ ↦ false ]

-- `register`, with a key that its caller has drawn. A transport that is not open refuses.
unfoldable pub register : ℕ → Transport → Result (Unit {0}) × Transport
unfolding is_open connection_error
register k t =
    if is_open t
    then (ok tt, record t { drawn = remove_key k t.drawn; pending = k ∷ t.pending })
    else (err (connection_error t), record t { drawn = remove_key k t.drawn })

-- `transitionFromOpenLocked`. The channel `unavailable` is closed here and nowhere else.
unfoldable pub transition_from_open : TransportState → Error → Transport → Bool × Transport
unfolding is_open
transition_from_open s cause t =
    if is_open t
    then (
      true,
      record t {
        state = s;
        conn_err = some cause;
        unavailable_cause = some cause;
        unavailable = true;
      },
    )
    else (false, t)

abbrev allowed : WritePolicy → TransportState → Bool
allowed external opened = true
allowed server_response opened = true
allowed server_response closing = true
allowed shutdown closing = true
allowed exit closing = true
allowed _ _ = false

unfoldable pub admit_write : WritePolicy → Transport → Result (Unit {0})
unfolding connection_error
admit_write policy t =
    if allowed policy t.state && not t.input_closed then ok tt else err (connection_error t)

-- `drainPendingLocked`, and the completion of what was drained with `cause`.
unfoldable pub drain_pending : Error → Transport → Transport
drain_pending cause t = record t {
  pending = [];
  owed = map (λ k. (k, failed cause)) t.pending ++ t.owed;
}

-- `complete` up to the unlock: a key that is in the map is taken out, and its request is to be
-- completed with `result`.
unfoldable pub complete : ℕ → PendingResult → Transport → Bool × Transport
complete k result t =
    if mem_key k t.pending
    then (true, record t { pending = remove_key k t.pending; owed = (k, result) ∷ t.owed })
    else (false, t)

abbrev pub find_owed : ℕ → List (ℕ × PendingResult) → Option PendingResult
find_owed k [] = none
find_owed k ((j, r) ∷ js) = if j == k then some r else find_owed k js

abbrev pub remove_owed : ℕ → List (ℕ × PendingResult) → List (ℕ × PendingResult)
remove_owed k [] = []
remove_owed k ((j, r) ∷ js) = if j == k then js else (j, r) ∷ remove_owed k js

-- `pendingRequest.complete` of a request that was taken out: `once` lets only the first result in.
settle_with : ℕ → Option PendingResult → Transport → Transport
settle_with k none t = t
settle_with k (some r) t =
    if is_settled k t.settled
    then record t { owed = remove_owed k t.owed }
    else record t { owed = remove_owed k t.owed; settled = (k, r) ∷ t.settled }

unfoldable pub settle : ℕ → Transport → Transport
unfolding settle_with
settle k t = settle_with k (find_owed k t.owed) t

-- `beginClose`, with a key that `close` has drawn.
unfoldable pub begin_close : ℕ → Transport → Bool × Transport
unfolding transition_from_open drain_pending
begin_close k t =
    if is_open t
    then (
      true,
      (let u = drain_pending provider_closed (transition_from_open closing provider_closed t).1 in
          record u { drawn = remove_key k u.drawn; pending = k ∷ u.pending }),
    )
    else (false, record t { drawn = remove_key k t.drawn })

finish_from : TransportState → Transport → Transport
unfolding drain_pending
finish_from closing t = drain_pending provider_closed (record t { state = closed })
finish_from _ t = t

unfoldable pub finish_close : Transport → Transport
unfolding finish_from
finish_close t = finish_from t.state t

-- `abort` up to the unlock; `closeInput`, `kill` and `startProcessWait` follow.
abort_from : TransportState → Error → Transport → Transport
unfolding transition_from_open drain_pending
abort_from closed cause t = t
abort_from aborted cause t = t
abort_from opened cause t = drain_pending cause (transition_from_open aborted cause t).1
abort_from closing cause t =
    drain_pending cause (record t { state = aborted; conn_err = some cause })

unfoldable pub abort : Error → Transport → Transport
unfolding abort_from
abort cause t = abort_from t.state cause t

reader_failed_from : TransportState → Error → Transport → Transport
unfolding drain_pending abort
reader_failed_from closing cause t = drain_pending cause t
reader_failed_from _ cause t = abort cause t

unfoldable pub reader_failed : Error → Transport → Transport
unfolding reader_failed_from
reader_failed cause t = reader_failed_from t.state cause t

-- `closeInput`, `kill` and the first part of `startProcessWait`, each behind a sync.Once.
unfoldable pub close_input : Transport → Transport
close_input t =
    if t.input_closed
    then t
    else record t { input_closed = true; input_closes = t.input_closes + 1 }

unfoldable pub kill : Transport → Transport
kill t = if t.killed then t else record t { killed = true; kills = t.kills + 1 }

unfoldable pub start_process_wait : Transport → Transport
start_process_wait t = if t.waiting then t else record t { waiting = true; waits = t.waits + 1 }
