-- ===== src/Lib.antt =====
-- A model of portolan, a code-intelligence daemon: agents call its tools, the tools ask a language
-- provider, the provider speaks LSP with a server process, and each call leaves one telemetry event.
--
-- Parts and files.
--   Prelude, Context, Text: shared helpers. Go errors are values of Context.Error, a context.Context is
--     the number of polls of ctx.Err() that still answer nil, and a Go string is a list of bytes. Text
--     has what the program uses of Go's utf8, strconv and strings packages.
--   Core (internal/core): positions, ranges, symbols, the result cap, the generation counter, events.
--   Tools (internal/tools): Run is runTool and its stages, Walk and Resolve are resolveSymbolPosition,
--     Flatten is flattenSymbols, Navigate is FindDefinition and FindReferences, Outline is GetOutline.
--     The provider is a record of functions, core.LanguageProvider; pathnorm.Canonicalize in the host's
--     environment and `%q` are fields of Tools.
--   Render (internal/tools/render, internal/tools/outline_render.go): the text of a result.
--   Lsp/Transport (internal/lsp/transport.go, internal/lsp/lifecycle.go): the connection's state and its
--     requests. Each function is one critical section; Steps is any interleaving of them.
--   Lsp/Framing (internal/lsp/framing.go): readFrame, frameBytes and writeFull.
--   Lsp/FiniteWork (internal/lsp/finite_work.go), Lsp/Kinds (internal/lsp/protocol.go) and Lsp/Conversion
--     (internal/lsp/conversion.go): from the decoded wire form to symbols and locations. URIs are decoded
--     by a parameter.
--   Lsp/Source (internal/lsp/signatures.go): byte offsets, positions and the text of a range.
--   Lsp/Stderr (internal/lsp/stderr.go): the bounded buffer of the server's diagnostics.
--   Pathnorm, Pathnorm/Uri (internal/pathnorm/pathnorm.go): the canonical identity of a host path, Windows
--     syntax and file URIs, over Text/Segments, which is path.Clean. WSL_DISTRO_NAME, strings.EqualFold and
--     net/url are parameters.
--   Lsp/Uri (internal/lsp/uri.go) and Lsp/Provider (internal/lsp/provider.go): the open files. A step is a
--     critical section of ensureOpen, the end of a wait, or the end of a caller's context; any number of
--     calls for any files interleave.
--   Mcp/Publication (internal/mcp/control_publication.go): how the control socket's path is published and
--     taken back, with other processes between the system calls.
--   Mcp/Control (internal/mcp/control_lifecycle.go): the commands, and the connections with their handlers as a
--     step relation.
--   Lsp/Requests (internal/lsp/provider.go): the requests of the provider, which compose the open files, the
--     transport and the conversion.
--   Mcp/Start (internal/mcp/control.go, internal/mcp/control_publication.go): preparePath, listenStaged and Start,
--     over the publication.
--   Lsp/Lexical (internal/lsp/declaration_headers.go): comments and literals, the loop over a text, and in its
--     children Tokens and Body the search for a token and for the body of a declaration. Lsp/Headers: the
--     normalized header and its extraction. The loops recur on the text, with how many bytes a round still has
--     to pass, so that they need no fuel.
--   Lsp/Signatures (internal/lsp/signatures.go): the plans of the symbols; its child Pool has the workers that
--     ask for hovers, as a step relation, and Whole composes both with the opening of the file.
--   Telemetry/Record (internal/telemetry/jsonl_record.go): the line of an event. Its loops take as fuel the bytes
--     of the texts and the largest line, one more than the sum of the limits that they halve.
--   Lsp/Hover (internal/lsp/hover_conversion.go): the contents of a hover, the code of a fenced block, and in its
--     child Signature the signature of a symbol from what is displayed.
--   Telemetry/Jsonl (internal/telemetry/jsonl.go, internal/telemetry/jsonl_lifecycle.go): admission, the
--     writer and the shutdown of the JSONL logger, again as steps.
--   Tests: the theorems at concrete inputs.
--
-- Fuel. write_loop has one round for each byte and one more, enough since a round takes a byte or ends.
-- The decimal printer has one more round than the number is large, and a number has fewer digits than
-- that. run_writer is given as many rounds as it is asked for. listen_from has the eight tries
-- of listenStaged. Other loops are structural.
--
-- Numbers. A Go int that holds a position is a ℤ; lengths and counts are ℕ. The generation and the
-- pending counter wrap at 2 ^ 64. Counters that only grow do not wrap.
--
-- Not modelled: JSON, timers (an outcome that a timer decides is a step that may happen), the third-party
-- MCP and OpenTelemetry libraries, system calls, the support code of the tests. Nor are the path and the
-- directory of the control socket (internal/mcp/control_runtime.go), the start of the server process
-- (internal/lsp/provider.go), and the snapshots, the fan-out and the diagnostics of internal/telemetry, which
-- no other part's model needs beyond its parameters. The varying parts of error texts are left out, and are not read by the program.
pub mod Context
pub mod Core
pub mod Lsp
pub mod Mcp
pub mod Pathnorm
pub mod Prelude
pub mod Render
pub mod Telemetry
pub mod Tests
pub mod Text
pub mod Tools
