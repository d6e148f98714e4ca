-- ===== src/Lsp/Transport/Lifecycle.antt =====
-- The life of a transport: open, then closing and closed, or aborted.
use portolan.Prelude.{
  ℕ, ◌≤◌, Bool, true, false, none, List, [], ◌∷◌, if◌then◌else◌, ◌≡◌, ◌≢◌, refl, ◌↔◌, ◌∙◌, arith,
  length,
}
use portolan.Context.{err}
use portolan.Lsp.Transport.{
  TransportState, opened, closing, closed, aborted, external, Transport, new_transport, remove_key,
  draw_id, is_open, register, admit_write, connection_error, unavailable_error, complete, settle,
  begin_close, finish_close, abort, reader_failed, close_input, kill, start_process_wait,
}
use portolan.Lsp.Transport.Steps.{
  Step, draws, registers, completes, settles, begins_close, finishes_close, aborts, fails_reading,
  closes_input, kills_process, waits_process, Reach, here, next,
}

abbrev flag : Bool → ℕ
flag b = if b then 1 else 0

-- The channel `unavailable` is closed, and the causes are set, exactly from the moment when the
-- transport is no longer open. A transport that is closed or aborted has no pending request, and one
-- that is closing at most the shutdown request. What stands behind a sync.Once ran as often as its
-- flag says.
pub record Life (t : Transport) : Type 0 where
  pub open_state :
      is_open t ≡ true
      → (t.unavailable ≡ false) × (t.conn_err ≡ none) × (t.unavailable_cause ≡ none)
  pub left_state :
      is_open t ≡ false
      → (t.unavailable ≡ true) × (t.conn_err ≢ none) × (t.unavailable_cause ≢ none)
  pub closed_pending : t.state ≡ closed → t.pending ≡ []
  pub aborted_pending : t.state ≡ aborted → t.pending ≡ []
  pub closing_pending : t.state ≡ closing → length t.pending ≤ 1
  pub input_once : t.input_closes ≡ flag t.input_closed
  pub kill_once : t.kills ≡ flag t.killed
  pub wait_once : t.waits ≡ flag t.waiting

-- How far a transport has come.
abbrev pub rank : TransportState → ℕ
rank opened = 0
rank closing = 1
rank closed = 2
rank aborted = 2

-- A step never goes back; a closed or aborted transport stays what it is, and so does a closed input;
-- the cause of being unavailable does not change once it is set.
pub record Forward (t u : Transport) : Type 0 where
  pub rank_le : rank t.state ≤ rank u.state
  pub stays_closed : t.state ≡ closed → u.state ≡ closed
  pub stays_aborted : t.state ≡ aborted → u.state ≡ aborted
  pub input_stays : t.input_closed ≡ true → u.input_closed ≡ true
  pub same_cause : is_open t ≡ false → u.unavailable_cause ≡ t.unavailable_cause

length-remove_key : (k : ℕ) (js : List ℕ) → length (remove_key k js) ≤ length js
length-remove_key k [] = omega arith
length-remove_key k (j ∷ js) = ground (arith, length-remove_key k js)

pub Step-Life : {t u : Transport} → Life t → Step t u → Life u
unfolding is_open
Step-Life v (draws t) = unfold draw_id in ground arith
Step-Life v (registers t k h) = unfold register in ground arith
Step-Life v (completes t k r) = unfold complete in ground (arith, length-remove_key k t.pending)
Step-Life v (settles t k) = unfold settle in ground arith
Step-Life v (begins_close t k h) = unfold begin_close in ground arith
Step-Life v (finishes_close t) = unfold finish_close in ground arith
Step-Life v (aborts t cause) = unfold abort in ground arith
Step-Life v (fails_reading t cause) = unfold reader_failed in ground arith
Step-Life v (closes_input t) = unfold close_input in ground arith
Step-Life v (kills_process t) = unfold kill in ground arith
Step-Life v (waits_process t) = unfold start_process_wait in ground arith

pub Step-Forward : {t u : Transport} → Step t u → Forward t u
unfolding is_open
Step-Forward (draws t) = unfold draw_id in ground arith
Step-Forward (registers t k h) = unfold register in ground arith
Step-Forward (completes t k r) = unfold complete in ground arith
Step-Forward (settles t k) = unfold settle in ground arith
Step-Forward (begins_close t k h) = unfold begin_close in ground arith
Step-Forward (finishes_close t) = unfold finish_close in ground arith
Step-Forward (aborts t cause) = unfold abort in ground arith
Step-Forward (fails_reading t cause) = unfold reader_failed in ground arith
Step-Forward (closes_input t) = unfold close_input in ground arith
Step-Forward (kills_process t) = unfold kill in ground arith
Step-Forward (waits_process t) = unfold start_process_wait in ground arith

Forward-refl : (t : Transport) → Forward t t
Forward-refl t = record {
  rank_le = omega arith;
  stays_closed = λ h. h;
  stays_aborted = λ h. h;
  input_stays = λ h. h;
  same_cause = λ h. refl;
}

not_open-rank : (t : Transport) → (is_open t ≡ false) ↔ (1 ≤ rank t.state)
unfolding is_open
not_open-rank t = (λ h. ground arith, λ h. ground arith)

Forward-trans : {t u v : Transport} → Forward t u → Forward u v → Forward t v
Forward-trans {t} {u} {v} f g = record {
  rank_le = omega (arith, f.rank_le, g.rank_le);
  stays_closed = λ h. g.stays_closed (f.stays_closed h);
  stays_aborted = λ h. g.stays_aborted (f.stays_aborted h);
  input_stays = λ h. g.input_stays (f.input_stays h);
  same_cause = λ h.
      g.same_cause ((not_open-rank u).1 (omega (arith, (not_open-rank t).0 h, f.rank_le)))
      ∙ f.same_cause h;
}

pub new_transport-Life : Life new_transport
unfolding new_transport is_open
new_transport-Life = ground arith

pub Reach-Life : {t u : Transport} → Life t → Reach t u → Life u
Reach-Life v here = v
Reach-Life v (next r s) = Step-Life (Reach-Life v r) s

pub Reach-Forward : {t u : Transport} → Reach t u → Forward t u
Reach-Forward {t} here = Forward-refl t
Reach-Forward (next r s) = Forward-trans (Reach-Forward r) (Step-Forward s)

-- In every state that a new transport comes to, its unavailability and its causes are set exactly when it
-- is not open, nothing is pending once it is closed or aborted, at most one request while it closes, and
-- its input is closed, its process killed and waited for at most once.
pub new_transport-Reach-Life : {t : Transport} → Reach new_transport t → Life t
new_transport-Reach-Life r = Reach-Life new_transport-Life r

-- Once a transport has left the open state it never admits another request or external write, and
-- what it reports as the cause of being unavailable stays the same.
pub left_for_good :
    {t u : Transport} (k : ℕ)
    → is_open t ≡ false
    → Reach t u
    → ((register k u).0 ≡ err (connection_error u))
      × (admit_write external u ≡ err (connection_error u))
      × (unavailable_error u ≡ unavailable_error t)
unfolding register admit_write unavailable_error
left_for_good {t} {u} k h r =
    let f = Reach-Forward r in
    let left = (not_open-rank u).1 (omega (arith, (not_open-rank t).0 h, f.rank_le)) in
    (rw left, refused u left, rw (f.same_cause h))
  where
    refused :
        (u : Transport) → is_open u ≡ false → admit_write external u ≡ err (connection_error u)
    refused u h = unfold is_open in ground arith
