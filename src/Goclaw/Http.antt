-- ===== src/Goclaw/Http.antt =====
-- The HTTP client (internal/provider/goclaw/http_client.go). Sending a request and reading at most
-- ten megabytes of the answer is the connection's `exchange`.
use Prim.Native.String.{◌++◌ as ◌<>◌}
use gcplane.Base.{
  ℕ, String, ◌&&◌, ◌||◌, Option, none, some, [], ◌∷◌, ◌==◌, ok, err, ltb, leb, nat_eq,
  if◌then◌else◌,
}
use gcplane.Base.Dict.{Dict, put}
use gcplane.Spec.{Fields}
use gcplane.Goclaw.Io.{
  Sentinel, not_found, unauthorized, invalid_request, server_error, Error, plain, Config, Env,
  value, failed, Goclaw, pure, ◌>>=◌, ◌>>◌, of_result,
}

abbrev sentinel_error : Sentinel → String → String → Error
sentinel_error sentinel label msg = record { sentinel = some sentinel; text = label <> ": " <> msg }

-- `classifyStatus`; no error is `none`.
unfoldable pub classify_status : (ℕ → String) → ℕ → String → Option Error
classify_status decimal code msg =
    if leb 200 code && ltb code 300
    then none
    else if nat_eq code 401 || nat_eq code 403
    then some (sentinel_error unauthorized "unauthorized" msg)
    else if nat_eq code 404
    then some (sentinel_error not_found "resource not found" msg)
    else if nat_eq code 400 || nat_eq code 422
    then some (sentinel_error invalid_request "invalid request" msg)
    else if leb 500 code
    then some (sentinel_error server_error "server error" msg)
    else some (plain ("unexpected status " <> decimal code <> ": " <> msg))

-- `NewHTTPClient`: the headers of every request.
unfoldable pub client_headers : Config → Dict String
unfolding put
client_headers c =
    let user = if c.user_id == "" then "gcplane" else c.user_id in
    let headers = ("X-GoClaw-User-Id", user) ∷ [] in
    if c.tenant_id == "" then headers else put headers "X-GoClaw-Tenant-Id" c.tenant_id

unfoldable pub request_headers : Config → Dict String
unfolding client_headers
request_headers c =
    ("Authorization", "Bearer " <> c.token)
    ∷ ("Content-Type", "application/json")
    ∷ ("Accept", "application/json")
    ∷ client_headers c

module _ (E : Env) where
  -- `do`
  unfoldable pub do_request : String → String → Option String → Goclaw E String
  unfolding classify_status request_headers
  do_request method path body s =
      let answer = E.transport.exchange s.world record {
        method = method;
        url = E.config.endpoint <> path;
        headers = request_headers E.config;
        body = body;
      } in
      let after = record s { world = answer.1 } in
      elim answer.0 [
        | err e ↦ (failed (plain e), after)
        | ok reply ↦ elim (classify_status E.decimal reply.0 reply.1) [
          | some e ↦ (failed e, after)
          | none ↦ (value reply.1, after)
        ]
      ]

  -- `doJSON`
  unfoldable pub do_json : String → String → Option Fields → Goclaw E String
  unfolding do_request
  do_json method path body =
      of_result "marshal request body" (E.transport.marshal body) >>= λ body_text.
      do_request method path (some body_text)

  unfoldable pub get : String → Goclaw E String
  unfolding do_request
  get path = do_request "GET" path none

  unfoldable pub post : String → Option Fields → Goclaw E String
  unfolding do_json
  post path body = do_json "POST" path body

  unfoldable pub put_json : String → Option Fields → Goclaw E String
  unfolding do_json
  put_json path body = do_json "PUT" path body

  unfoldable pub delete : String → Goclaw E (Unit {0})
  unfolding do_request
  delete path = do_request "DELETE" path none >> pure tt
