-- ===== src/Lsp/Transport/Steps.antt =====
-- Goroutines share the transport, so a run is any interleaving of its critical sections.
use portolan.Prelude.{ℕ, ◌≡◌, true}
use portolan.Context.{Error}
use portolan.Lsp.Transport.{
  Transport, PendingResult, mem_key, draw_id, register, complete, settle, begin_close, finish_close,
  abort, reader_failed, close_input, kill, start_process_wait,
}

pub data Step : Transport → Transport → Type 0 where
  draws : (t : Transport) → Step t (draw_id t)
  registers : (t : Transport) (k : ℕ) → mem_key k t.drawn ≡ true → Step t (register k t).1
  completes : (t : Transport) (k : ℕ) (r : PendingResult) → Step t (complete k r t).1
  settles : (t : Transport) (k : ℕ) → Step t (settle k t)
  begins_close : (t : Transport) (k : ℕ) → mem_key k t.drawn ≡ true → Step t (begin_close k t).1
  finishes_close : (t : Transport) → Step t (finish_close t)
  aborts : (t : Transport) (cause : Error) → Step t (abort cause t)
  fails_reading : (t : Transport) (cause : Error) → Step t (reader_failed cause t)
  closes_input : (t : Transport) → Step t (close_input t)
  kills_process : (t : Transport) → Step t (kill t)
  waits_process : (t : Transport) → Step t (start_process_wait t)

pub data Reach (s : Transport) : Transport → Type 0 where
  here : Reach s s
  next : {t u : Transport} → Reach s t → Step t u → Reach s u
