-- ===== src/Goclaw/Tenants/Keeping.antt =====
-- Requests leave the stored tenant alone.
use Prim.Native.String.{◌++◌ as ◌<>◌}
use gcplane.Base.{
  ℕ, String, Option, none, ◌≡◌, refl, ap, ◌∙◌, Result, ok, err, inl, inr, Bool-cases, Option-cases,
  Result-cases,
}
use gcplane.Spec.{Fields}
use gcplane.Goclaw.Io.{
  plain, wrap, Env, Outcome, value, failed, Goclaw, ◌>>=◌, ◌>>◌, wrapping, rewrapped, of_result,
  bind-value, bind-failed,
}
use gcplane.Goclaw.Http.{do_request, get, classify_status, request_headers}
use gcplane.Goclaw.Tenants.{get_list}
use gcplane.Goclaw.Tenants.Scope.{resolved}
use gcplane.Goclaw.Sockets.{ensure_ws, ws_call, ws_list}

module _ (E : Env) where
  -- How a step ends from a state with a stored tenant: in one with the same tenant.
  abbrev pub Kept : {A : Type 0} → Goclaw E A → E.transport.World → String → Type 0
  Kept {A} m w uuid =
      (o : Outcome A) × (v : E.transport.World) × (m (resolved E w uuid) ≡ (o, resolved E v uuid))

  abbrev pub Keeps : {A : Type 0} → Goclaw E A → Type 0
  Keeps m = (w : E.transport.World) (uuid : String) → Kept m w uuid

  bind-Keeps :
      {A B : Type 0} (m : Goclaw E A) (f : A → Goclaw E B)
      → Keeps m
      → ((a : A) → Keeps (f a))
      → Keeps (m >>= f)
  bind-Keeps m f km kf w uuid = go (km w uuid)
    where
      go : Kept m w uuid → Kept (m >>= f) w uuid
      go (value a, v, ran) =
          let later = kf a v uuid in
          (later.0, later.1, bind-value m f (resolved E w uuid) (resolved E v uuid) a ran ∙ later.2)
      go (failed e, v, ran) =
          (failed e, v, bind-failed m f (resolved E w uuid) (resolved E v uuid) e ran)

  wrapping-Keeps :
      {A : Type 0} (prefix : String) (m : Goclaw E A) → Keeps m → Keeps (wrapping prefix m)
  wrapping-Keeps prefix m km w uuid = go (km w uuid)
    where
      go : Kept m w uuid → Kept (wrapping prefix m) w uuid
      go (value a, v, ran) = (value a, v, ap (rewrapped prefix) ran)
      go (failed e, v, ran) = (failed (wrap prefix e), v, ap (rewrapped prefix) ran)

  of_result-Keeps : {A : Type 0} (prefix : String) (r : Result A) → Keeps (of_result prefix r)
  of_result-Keeps prefix (ok a) w uuid = (value a, w, refl)
  of_result-Keeps prefix (err e) w uuid = (failed _, w, refl)

  get-Keeps : (path : String) → Keeps (get E path)
  unfolding get do_request
  get-Keeps path w uuid = elim (Result-cases answer.0) [
    | inr (e, lost) ↦ (failed (plain e), answer.1, rw (get, do_request, lost) refl)
    | inl (reply, came) ↦ elim (Option-cases (classify_status E.decimal reply.0 reply.1)) [
      | inl fine ↦ (value reply.1, answer.1, rw (get, do_request, came, fine) refl)
      | inr (e, bad) ↦ (failed e, answer.1, rw (get, do_request, came, bad) refl)
    ]
  ]
    where
      answer : Result (ℕ × String) × E.transport.World
      answer = E.transport.exchange w record {
        method = "GET";
        url = E.config.endpoint <> path;
        headers = request_headers E.config;
        body = none;
      }

  pub get_list-Keeps : (path label parsed name : String) → Keeps (get_list E path label parsed name)
  unfolding get_list
  get_list-Keeps path label parsed name =
      bind-Keeps (wrapping label (get E path))
        (λ body. of_result parsed (E.transport.decode name body))
        (wrapping-Keeps label (get E path) (get-Keeps path))
        (λ body. of_result-Keeps parsed (E.transport.decode name body))

  pub ensure_ws-Keeps : Keeps (ensure_ws E)
  unfolding ensure_ws
  ensure_ws-Keeps w uuid = elim (Bool-cases (E.transport.is_connected w)) [
    | inl open_socket ↦ (value tt, w, rw (ensure_ws, open_socket) refl)
    | inr closed ↦ elim (Option-cases (E.transport.connect w).0) [
      | inl fine ↦ (value tt, (E.transport.connect w).1, rw (ensure_ws, closed, fine) refl)
      | inr (e, bad) ↦ (failed e, (E.transport.connect w).1, rw (ensure_ws, closed, bad) refl)
    ]
  ]

  ws_call-Keeps :
      (label method : String) (params : Option Fields) → Keeps (ws_call E label method params)
  unfolding ws_call
  ws_call-Keeps label method params w uuid =
      of_result-Keeps label (E.transport.call w method params).0
        (E.transport.call w method params).1 uuid

  pub ws_list-Keeps :
      (method : String) (params : Option Fields) (name : String)
      → Keeps (ws_list E method params name)
  unfolding ws_list
  ws_list-Keeps method params name =
      bind-Keeps (ws_call E method method params)
        (λ payload. of_result ("parse " <> method <> " response") (E.transport.decode name payload))
        (ws_call-Keeps method method params)
        (λ payload.
          of_result-Keeps ("parse " <> method <> " response") (E.transport.decode name payload))

  pub connected_list-Keeps :
      (label method : String) (params : Option Fields) (name : String)
      → Keeps (wrapping label (ensure_ws E) >> ws_list E method params name)
  connected_list-Keeps label method params name =
      bind-Keeps (wrapping label (ensure_ws E)) (λ _. ws_list E method params name)
        (wrapping-Keeps label (ensure_ws E) ensure_ws-Keeps) (λ _. ws_list-Keeps method params name)
