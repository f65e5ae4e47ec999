-- ===== src/Tests/Grants.antt =====
-- A GoClaw that keeps the grants of one MCP server, by the address of each.
use Prim.Native.String.{◌++◌ as ◌<>◌}
use text.Mathlib.TextEquality.{eq_iff}
use text.Mathlib.TextLemmas.{append_cancel_left}
use gcplane.Base.{
  String, Bool, true, false, not, ◌≡◌, refl, sym, ◌∙◌, ap, Option, none, some, List, [], ◌∷◌, ◌==◌,
  contains, filter, ok, if◌then◌else◌, arith,
}
use gcplane.Spec.{string, Fields, end, field}
use gcplane.Goclaw.Io.{Transport, Env, State}
use gcplane.Goclaw.Http
use gcplane.Goclaw.Servers.{apply_mcp_grants, granted_ids}
use gcplane.Goclaw.Servers.Grants.{IsGranting, apply_mcp_grants-granted}
use gcplane.Tests.Wire.{ascii}

abbrev path_of : String → String
path_of id = "/v1/mcp/servers/" <> "m1" <> "/grants/agent/" <> id

abbrev url_of : String → String
url_of id = "http://goclaw" <> path_of id

same_url : (x y : String) → url_of x ≡ url_of y → x ≡ y
same_url x y e = append_cancel_left "/grants/agent/" x y (
    append_cancel_left "m1" _ _
      (append_cancel_left "/v1/mcp/servers/" _ _ (append_cancel_left "http://goclaw" _ _ e)))

abbrev id_in : Option Fields → String
id_in (some (field k (string id) fs)) = id
id_in _ = ""

abbrev id_text : Option String → String
id_text (some id) = id
id_text none = ""

abbrev lists : String → List Fields
lists name =
    if name == "servers"
    then field "name" (string "m") (field "id" (string "m1") end) ∷ []
    else if name == "grants"
    then field "agent_id" (string "a") end ∷ []
    else field "agent_key" (string "B") (field "id" (string "b") end) ∷ []

abbrev after_request : List String → String → String → Option String → List String
after_request w method url body =
    if method == "POST"
    then url_of (id_text body) ∷ w
    else if method == "DELETE"
    then filter (λ u. not (u == url)) w
    else w

abbrev grants_wire : Transport
grants_wire = record {
  World = List String;
  exchange = λ w r. (ok (200, "{}"), after_request w r.method r.url r.body);
  marshal = λ body. ok (id_in body);
  decode = λ name body. ok (lists name);
  is_connected = λ w. true;
  connect = λ w. (none, w);
  call = λ w method params. (ok "{}", w);
  sync_context_files = λ w id files. (none, w);
  decode_object = λ body. ok end;
  contains_not_found = λ text. false;
}

abbrev grants_env : Env
grants_env = record {
  decimal = λ n. "?";
  quoted = λ s. s;
  type_name = λ v. "?";
  path_escape = λ s. s;
  transport = grants_wire;
  unicode = ascii;
  config = record { endpoint = "http://goclaw"; token = "k"; tenant_id = ""; user_id = "" };
}

abbrev has : List String → String → Bool
has w id = contains w (url_of id)

has-filter :
    (w : List String) (id x : String)
    → has (filter (λ u. not (u == url_of id)) w) x ≡ (if id == x then false else has w x)
unfolding contains
has-filter [] id x = ground arith
has-filter (u ∷ w) id x = ground (
  arith,
  eq_iff u (url_of id),
  eq_iff u (url_of x),
  eq_iff id x,
  same_url id x,
  has-filter w id x,
)

has-grant :
    (w : List String) (id x : String) → has (url_of id ∷ w) x ≡ (if id == x then true else has w x)
unfolding contains
has-grant w id x = ground (arith, eq_iff (url_of id) (url_of x), eq_iff id x, same_url id x)

grants_env-IsGranting : IsGranting grants_env "m1" has
unfolding Http.post Http.delete
grants_env-IsGranting = record {
  grants = λ id s t answer ran x. ap (λ o. has o.1.world x) (sym ran) ∙ has-grant s.world id x;
  revokes = λ id s t ran x. ap (λ o. has o.1.world x) (sym ran) ∙ has-filter s.world id x;
  misses = λ id s t e ran absent x. cc;
}

abbrev state_of : List String → State (List String)
state_of w = record { world = w; tenant_done = false; tenant_uuid = ""; tenant_err = none }

-- "a" is granted and "B", whose id is "b", is to be.
abbrev before : State (List String)
before = state_of (url_of "a" ∷ [])

abbrev afterwards : State (List String)
afterwards = state_of (url_of "b" ∷ [])

has-one : (id x : String) → has (url_of id ∷ []) x ≡ contains (id ∷ []) x
unfolding contains
has-one id x = ground (arith, eq_iff (url_of id) (url_of x), eq_iff id x, same_url id x)

apply_mcp_grants-granted_example : has afterwards.world "a" ≡ contains ("b" ∷ []) "a"
unfolding apply_mcp_grants granted_ids Http.get Http.post Http.delete
apply_mcp_grants-granted_example =
    apply_mcp_grants-granted grants_env "m" "m1" has grants_env-IsGranting ("B" ∷ []) ("b" ∷ [])
      (lists "grants") before before before before afterwards refl refl refl (has-one "a") refl "a"
