-- ===== src/Server/Replies.antt =====
-- packages/core/src/ipc/core-server.ts: what a request is answered, and how a new one begins.
use agent_town.Prelude.{
  ℕ, String, Bool, true, false, ◌&&◌, [], ◌∷◌, ◌++◌, ◌==◌, string_eq, nat_eq, if◌then◌else◌,
}
use agent_town.Prelude.Table.{insert}
use agent_town.Contract.Value.{Value, null}
use agent_town.Contract.Ipc.{IpcRequest, IpcResponse, success, failure, response, is_success}
use agent_town.Result.{Result, ok, err}
use agent_town.Server.Outbound.{send, reject_and_close, error_response}
use agent_town.Server.Events.{start_event_subscription}
use agent_town.Server.Requests.{respond}
use agent_town.Server.State.{
  CoreServerOptions, CoreServer, Flight, connection_of, put_connection, on_connection, store_of,
}
use agent_town.Server.Methods.{handshake, dispatch, heartbeat}

-- this.#send(connection, errorResponse(…))
abbrev pub send_error : CoreServerOptions → ℕ → String → String → String → CoreServer → CoreServer
send_error o k request_id code text =
    on_connection k (λ c. (send o.wire (response (error_response request_id code text)) c).1)

-- this.#rejectAndClose(connection, errorResponse(…))
abbrev pub reject_error : CoreServerOptions → ℕ → String → String → String → CoreServer → CoreServer
reject_error o k request_id code text =
    on_connection k (reject_and_close o.wire (error_response request_id code text))

abbrev pub reused : String
reused = "request ID was already used for different method or params"

-- A response with the code "unsupported_protocol" closes the connection.
unfoldable pub is_unsupported : IpcResponse → Bool
is_unsupported r = elim r.answer [
  | success _ ↦ false
  | failure code _ ↦ code == "unsupported_protocol"
]

-- The response goes out, and a handshake that succeeded starts the stream of events.
unfoldable pub deliver : CoreServerOptions → ℕ → IpcRequest → IpcResponse → CoreServer → CoreServer
deliver o k r answer s =
    let sent =
      if is_unsupported answer
      then on_connection k (reject_and_close o.wire answer) s
      else on_connection k (λ c. (send o.wire (response answer) c).1) s in
    if r.method == "handshake" && is_success answer
    then on_connection k (start_event_subscription o.wire (store_of sent)) sent
    else sent

-- #applyReplayLocalEffects(connection, request); its result is a failed method's error.
unfoldable pub apply_replay_local_effects :
    CoreServerOptions → ℕ → ℕ → IpcRequest → CoreServer → Result Value × CoreServer
apply_replay_local_effects o now k r s =
    if r.method == "handshake"
    then handshake o now k r.params s
    else if r.method == "client.heartbeat"
    then heartbeat now k r.params s
    else (ok null, s)

abbrev pub after_effects :
    CoreServerOptions → ℕ → IpcRequest → IpcResponse → Result Value × CoreServer → CoreServer
after_effects o k r answer (ok _, s) = deliver o k r answer s
after_effects o k r answer (err e, s) =
    on_connection k
      (λ c. (send o.wire (response (respond o.error_message r.request_id (err e))) c).1) s

-- The response of an earlier request, to the same request again.
unfoldable pub replay :
    CoreServerOptions → ℕ → ℕ → IpcRequest → IpcResponse → CoreServer → CoreServer
replay o now k r answer s =
    if is_success answer
    then after_effects o k r answer (apply_replay_local_effects o now k r s)
    else deliver o k r answer s

-- From #respond(connection, request) to #pendingRequests.set.
unfoldable pub begin :
    CoreServerOptions → ℕ → ℕ → IpcRequest → String → String → CoreServer → CoreServer
begin o now k r key fingerprint s =
    let (work, s1) = dispatch o now k r s in
    let flight : Flight = record {
      key = key;
      fingerprint = fingerprint;
      connection = k;
      request = r;
      work = work;
    } in
    put_connection k (record (connection_of k s1) { awaiting = true })
      (record s1 {
        pending_requests = insert key fingerprint s1.pending_requests;
        flights = s1.flights ++ flight ∷ [];
      })
