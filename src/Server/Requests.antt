-- ===== src/Server/Requests.antt =====
-- packages/core/src/ipc/core-server.ts: the helpers on requests. `len` is Buffer.byteLength of a
-- text. JSON.stringify of a value with no parts, and the digest, are functions of the model.
use Prim.Native.String.{len}
use agent_town.Prelude.{
  ℕ, String, Bool, true, false, ◌||◌, Option, none, some, List, [], ◌∷◌, map, leb, ◌==◌, string_eq,
  if◌then◌else◌,
}
use agent_town.Contract.Value.{
  Value, num, str, obj, arr, Items, no_items, item, Fields, end, field, get_field,
}
use agent_town.Contract.Ipc.{IpcRequest, IpcResponse, success}
use agent_town.Result.{Error, Result, ok, err, request_error}
use agent_town.Orchestrator.Payload.{◌⧺◌}
use agent_town.Storage.Order.{sort_by}
use agent_town.Server.Outbound.{max_request_id_bytes, error_response}

-- JSON.stringify, on null, Booleans, numbers and texts, and `createHash("sha256")` with
-- `digest("hex")`.
pub record Encoding : Type 0 where
  pub scalar : Value → String
  pub sha256 : String → String

-- requestIdFrom(value, fallback)
unfoldable pub request_id_from : Value → String → String
request_id_from (obj fs) fallback = elim (get_field "requestId" fs) [
  | some (str s) ↦ if s == "" then fallback else s
  | _ ↦ fallback
]
request_id_from _ fallback = fallback

-- correlationId(value): the request id, and whether it is too long
unfoldable pub correlation_id : Value → String × Bool
correlation_id value =
    let request_id = request_id_from value "invalid-request" in
    if leb (len request_id) max_request_id_bytes
    then (request_id, false)
    else ("invalid-request", true)

-- Array.prototype.join
unfoldable pub join : String → List String → String
join sep [] = ""
join sep (s ∷ []) = s
join sep (s ∷ t ∷ ts) = s ⧺ (sep ⧺ join sep (t ∷ ts))

-- `${JSON.stringify(key)}:${stableJson(value)}`, from a key and the text of its value
abbrev pub pair_text : Encoding → String × String → String
pair_text e (key, value) = e.scalar (str key) ⧺ (":" ⧺ value)

-- stableJson(value). Keys are sorted by their code points; JavaScript sorts by UTF-16 units, which is
-- another order only for keys with characters beyond U+FFFF.
unfoldable mutual
  pub stable_json : Encoding → Value → String
  stable_json e (obj fs) =
      "{" ⧺ (join "," (map (pair_text e) (sort_by (λ p. p.0) (stable_pairs e fs))) ⧺ "}")
  stable_json e (arr items) = "[" ⧺ (join "," (stable_items e items) ⧺ "]")
  stable_json e v = e.scalar v

  pub stable_items : Encoding → Items → List String
  stable_items e no_items = []
  stable_items e (item v items) = stable_json e v ∷ stable_items e items

  pub stable_pairs : Encoding → Fields → List (String × String)
  stable_pairs e end = []
  stable_pairs e (field k v fs) = (k, stable_json e v) ∷ stable_pairs e fs

-- requestFingerprint(request)
unfoldable pub request_fingerprint : Encoding → IpcRequest → String
request_fingerprint e r = e.sha256 (r.method ⧺ ("\0" ⧺ stable_json e (obj r.params)))

-- requestKey(clientId, requestId)
unfoldable pub request_key : Encoding → String → String → String
request_key e client_id request_id = e.sha256 (client_id ⧺ ("\0" ⧺ request_id))

-- isMutatingMethod(method)
unfoldable pub is_mutating : String → Bool
is_mutating method =
    method == "company.start"
    || method == "company.pause"
    || method == "company.resume"
    || method == "company.stop"
    || method == "action.dispatch"

-- requiredString(params, key)
unfoldable pub required_param : Fields → String → Result String
required_param params key = elim (get_field key params) [
  | some (str s) ↦
      if s == ""
      then err (request_error "invalid_params" (key ⧺ " must be a non-empty string"))
      else ok s
  | _ ↦ err (request_error "invalid_params" (key ⧺ " must be a non-empty string"))
]

-- nonnegativeInteger(value, label, defaultValue)
unfoldable pub nonnegative_integer : Option Value → String → Option ℕ → Result ℕ
nonnegative_integer none label (some n) = ok n
nonnegative_integer (some (num n)) label _ = ok n
nonnegative_integer _ label _ =
    err (request_error "invalid_params" (label ⧺ " must be a nonnegative integer"))

-- successResponse(requestId, result)
unfoldable pub success_response : String → Value → IpcResponse
success_response request_id result = record { request_id = request_id; answer = success result }

-- #respond(connection, request), from the outcome of #dispatch. `message` is what an error says.
unfoldable pub respond : (Error → String) → String → Result Value → IpcResponse
respond message request_id (ok v) = success_response request_id v
respond message request_id (err (request_error code text)) = error_response request_id code text
respond message request_id (err e) = error_response request_id "request_failed" (message e)

abbrev pub invalid_params : {A : Type 0} → String → Result A
invalid_params text = err (request_error "invalid_params" text)
