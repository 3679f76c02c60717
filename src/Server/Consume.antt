-- ===== src/Server/Consume.antt =====
-- packages/core/src/ipc/core-server.ts: the bytes that a connection receives, as lines. Byte positions of a
-- text are those of its UTF-8.
use Prim.Native.String.{len, slice}
use text.Mathlib.Text.{find?}
use agent_town.Prelude.{
  ℕ, ◌+◌, ◌-◌, String, not, ◌&&◌, ◌||◌, Option, none, some, List, [], ◌∷◌, ◌++◌, ltb, ◌==◌,
  string_eq, nat_eq, if◌then◌else◌,
}
use agent_town.Orchestrator.Payload.{◌⧺◌}
use agent_town.Server.Outbound.{ClientConnection, stop_reading, destroy}
use agent_town.Server.State.{
  CoreServerOptions, CoreServer, connection_of, put_connection, on_connection,
}
use agent_town.Server.Lines.{process_line}
use agent_town.Server.Replies.{reject_error}

abbrev pub chunk_bytes : Option ℕ → ℕ
chunk_bytes none = 0
chunk_bytes (some n) = n

-- The end of #consume for a chunk of so many bytes.
abbrev pub finish_chunk : ℕ → CoreServer → CoreServer
finish_chunk k = on_connection k λ c. record c {
  consuming = none;
  inbound_queued_bytes = c.inbound_queued_bytes - chunk_bytes c.consuming;
}

-- if (!connection.accepting || connection.socket.destroyed) return, once the line is processed.
unfoldable pub after_line : ℕ → CoreServer → CoreServer
after_line k s =
    let c = connection_of k s in
    if not c.awaiting && (not c.accepting || c.destroyed) then finish_chunk k s else s

abbrev pub too_large : CoreServerOptions → ℕ → CoreServer → CoreServer
too_large o k s = finish_chunk k (
    reject_error o k "invalid-request" "message_too_large"
      "IPC message exceeds the maximum line size" s)

-- connection.buffer.split("\n", 1)[0]
unfoldable pub first_line : String → String
first_line text = elim (find? text "\n") [ none ↦ text | some i ↦ slice text 0 i ]

-- line.replace(/\r$/u, "")
unfoldable pub strip_return : String → String
strip_return line =
    if slice line (len line - 1) (len line) == "\r" then slice line 0 (len line - 1) else line

-- #consume(connection, chunk) up to its loop.
unfoldable pub start_chunk : CoreServerOptions → ℕ → String → List String → CoreServer → CoreServer
start_chunk o k chunk rest s =
    let c = connection_of k s in
    let c1 : ClientConnection = record c { chunks = rest; consuming = some (len chunk) } in
    let c2 : ClientConnection = record c1 { buffer = c.buffer ⧺ chunk } in
    if not c.accepting
    then finish_chunk k (put_connection k c1 s)
    else if ltb o.max_request_line_bytes (len (first_line c2.buffer))
    then too_large o k (put_connection k c2 s)
    else put_connection k c2 s

-- One turn of the loop of #consume.
unfoldable pub next_line : CoreServerOptions → ℕ → String → ℕ → CoreServer → CoreServer
next_line o now at k s =
    let c = connection_of k s in
    elim (find? c.buffer "\n") [
      | none ↦ finish_chunk k s
      | some i ↦
          let line = strip_return (slice c.buffer 0 i) in
          let s1 =
            put_connection k (record c { buffer = slice c.buffer (i + 1) (len c.buffer) }) s in
          if ltb o.max_request_line_bytes (len line)
          then too_large o k s1
          else after_line k (process_line o now at k line s1)
    ]

-- The promise chain of a connection goes on, unless it awaits a response.
unfoldable pub consume : CoreServerOptions → ℕ → String → ℕ → CoreServer → CoreServer
consume o now at k s =
    let c = connection_of k s in
    if c.awaiting then s else elim c.consuming [
      | some _ ↦ next_line o now at k s
      | none ↦ elim c.chunks [ [] ↦ s | chunk ∷ rest ↦ start_chunk o k chunk rest s ]
    ]

-- socket.on("data", …)
unfoldable pub receive : CoreServerOptions → ℕ → String → CoreServer → CoreServer
receive o k chunk s =
    let c = connection_of k s in
    if not c.accepting
    then s
    else if ltb o.max_inbound_queued_bytes (c.inbound_queued_bytes + len chunk)
    then put_connection k (destroy (stop_reading c)) s
    else put_connection k
        (record c {
          chunks = c.chunks ++ chunk ∷ [];
          inbound_queued_bytes = c.inbound_queued_bytes + len chunk;
        })
        s
