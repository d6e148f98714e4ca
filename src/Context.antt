-- ===== src/Context.antt =====
-- Go errors as values, and `context.Context` as the program uses it: code polls `ctx.Err()` at fixed
-- places, and the answer is nil until the first poll that sees the cancellation, and the same error
-- from then on. A context is what is left of that: how many polls still answer nil, and the cause.
pub mod Polling
pub mod Success
pub mod Meets
use portolan.Prelude.{ℕ, zero, suc, Bool, true, false, ◌++◌, ◌≡◌, refl, Bytes, codes}

-- `errors.New` and `fmt.Errorf` without a wrapped error are `text`, with the fixed part of the
-- message; `wrapped` is `fmt.Errorf("prefix: %w", err)`.
pub data Error : Type 0 where
  canceled deadline_exceeded provider_closed eof : Error
  text : Bytes → Error
  wrapped : Bytes → Error → Error

-- `err.Error()`.
pub message : Error → Bytes
message canceled = codes "context canceled"
message deadline_exceeded = codes "context deadline exceeded"
message provider_closed = codes "lsp: provider closed"
message eof = codes "EOF"
message (text s) = s
message (wrapped s e) = s ++ (codes ": " ++ message e)

pub data Result {ℓ} (A : Type ℓ) : Type ℓ where
  ok : A → Result A
  err : Error → Result A

pub data Context : Type 0 where
  background : Context
  until : ℕ → Error → Context

-- One `ctx.Err()`: the error, or the context as it stands after the poll.
unfoldable pub poll : Context → Result Context
poll background = ok background
poll (until zero e) = err e
poll (until (suc n) e) = ok (until n e)

-- Code that polls a context and may fail.
abbrev pub M {ℓ} : Type ℓ → Type ℓ
M A = Context → Result (A × Context)

infixl 5 ◌>>=◌ ◌>>◌
abbrev pub ◌>>=◌ {ℓ κ} : {A : Type ℓ} {B : Type κ} → M A → (A → M B) → M B
◌>>=◌ m f c = elim (m c) [ ok (a, d) ↦ f a d | err e ↦ err e ]

abbrev pub ◌>>◌ {ℓ} : {B : Type ℓ} → M (Unit {0}) → M B → M B
m >> k = m >>= λ _. k

abbrev pub return {ℓ} : {A : Type ℓ} → A → M A
return a c = ok (a, c)

abbrev pub throw {ℓ} : {A : Type ℓ} → Error → M A
throw e c = err e

-- `if err := ctx.Err(); err != nil { return err }`
unfoldable pub check : M (Unit {0})
check c = elim (poll c) [ ok d ↦ ok (tt, d) | err e ↦ err e ]

-- A fallible step that does not poll.
abbrev pub lift {ℓ} : {A : Type ℓ} → Result A → M A
lift (ok a) c = ok (a, c)
lift (err e) c = err e
