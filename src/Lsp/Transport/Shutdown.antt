-- ===== src/Lsp/Transport/Shutdown.antt =====
-- internal/lsp/lifecycle.go: `close`, with the steps of all other goroutines between its own.
use portolan.Prelude.{ℕ, ◌≡◌, true}
use portolan.Context.{Error}
use portolan.Lsp.Transport.{
  closing, Transport, mem_key, begin_close, finish_close, abort, close_input,
}
use portolan.Lsp.Transport.Steps.{Step, Reach}
use portolan.Lsp.Transport.Lifecycle.{rank}

-- `close` up to the handshake: without the write lock it aborts; with it, it begins the close. The
-- handshake itself, the wait for the shutdown response included, is steps of the transport.
pub data Begin (t u : Transport) : Type 0 where
  gives_up : (cause : Error) → u ≡ abort cause t → Begin t u
  begins : (k : ℕ) → mem_key k t.drawn ≡ true → u ≡ (begin_close k t).1 → Begin t u

-- `closeInputAfterWrites`. It looks at the state, and in turn, behind the write lock if the transport was
-- closing, it closes the input. If the lock does not come in time it aborts, and the abort closes the
-- input, unless the transport has been closed or aborted in the meantime: then the abort does nothing.
pub data CloseInput (t u : Transport) : Type 0 where
  in_turn : {v : Transport} → Reach t v → u ≡ close_input v → CloseInput t u
  by_force :
      {v w : Transport} (cause : Error)
      → t.state ≡ closing
      → Reach t v
      → v.state ≡ closing
      → Reach (abort cause v) w
      → u ≡ close_input w
      → CloseInput t u
  too_late :
      {v : Transport} (cause : Error)
      → t.state ≡ closing
      → Reach t v
      → rank v.state ≡ 2
      → u ≡ abort cause v
      → CloseInput t u

-- Between the two states a goroutine closed or aborted the transport, which was closing.
pub record Overtaken (t u : Transport) : Type 0 where
  pub before : Transport
  pub behind : Transport
  pub until_then : Reach t before
  pub was_closing : before.state ≡ closing
  pub ends : Step before behind
  pub is_over : rank behind.state ≡ 2
  pub from_then : Reach behind u

-- `close`. Waiting for the process, and killing it, are steps of the transport.
pub record Close (t u : Transport) : Type 0 where
  pub started : Transport
  pub begun : Transport
  pub waited : Transport
  pub stopped : Transport
  pub reaped : Transport
  pub before_begin : Reach t started
  pub begin : Begin started begun
  pub handshake : Reach begun waited
  pub input : CloseInput waited stopped
  pub wait : Reach stopped reaped
  pub finish : u ≡ finish_close reaped
