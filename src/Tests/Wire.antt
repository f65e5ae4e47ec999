-- ===== src/Tests/Wire.antt =====
-- A GoClaw with two tenants, and the provider of one of them.
use Prim.Native.Char.{Char, code}
use Prim.Native.String.{◌++◌ as ◌<>◌}
use gcplane.Base.{
  ℕ, suc, String, Bool, true, false, ◌&&◌, ◌==◌, ◌≡◌, refl, none, some, List, [], ◌∷◌, map, filter,
  ok, nat_eq, leb, if◌then◌else◌,
}
use gcplane.Spec.{string, Fields, end, field}
use gcplane.Manifest.Kind.{agent, provider}
use gcplane.Manifest.References.{split_agent_link_name}
use gcplane.Keyconv.{Unicode, camel_of_snake, snake_of_camel}
use gcplane.Keyconv.RoundTrip.{IsSmall, done, small, large, camel_of_snake-snake_of_camel}
use gcplane.Goclaw.Io.{Error, plain, Transport, Env, value, failed, pure, ◌>>=◌}
use gcplane.Goclaw.Http.{get}
use gcplane.Goclaw.Tenants.{lookup_tenant}
use gcplane.Goclaw.Tenants.Scope.{belongs, resolved, unresolved, unasked}
use gcplane.Goclaw.Links.{parse_agent_link_name}
use gcplane.Goclaw.Links.Names.{targets, parse_agent_link_name-listed}
use gcplane.Goclaw.Listing.{info, link_infos, target_key}
use gcplane.Goclaw.Helpers.{translate_result, str_val}
use gcplane.Keyconv.{snake_to_camel}
use gcplane.Spec
use gcplane.Base.Dict
use gcplane.Base.Dict.{Dict}
use gcplane.Goclaw.Listing.Scoped.{agents, entry, answered, list_all-resolved}
use gcplane.Goclaw.Dispatch.{Handlers, observe, create, delete}
use gcplane.Goclaw.Inventory.{list_all}
use gcplane.Goclaw.Dispatch.Idempotence.{providers, delete_absent, create-unresolved}

-- The letter at the same place of another alphabet.
abbrev swapped : String → String → Char → Char
swapped String.[] ys c = c
swapped (String.◌∷◌ x xs) String.[] c = c
swapped (String.◌∷◌ x xs) (String.◌∷◌ y ys) c =
    let rest = swapped xs ys c in if nat_eq (code c) (code x) then y else rest

abbrev within : ℕ → ℕ → Char → Bool
within lo hi c = leb lo (code c) && leb (code c) hi

abbrev pub ascii : Unicode
ascii = record {
  is_upper = within b'A' b'Z';
  is_lower = within b'a' b'z';
  is_digit = within b'0' b'9';
  to_lower = swapped "ABCDEFGHIJKLMNOPQRSTUVWXYZ" "abcdefghijklmnopqrstuvwxyz";
  to_upper = swapped "abcdefghijklmnopqrstuvwxyz" "ABCDEFGHIJKLMNOPQRSTUVWXYZ";
}

is_small :
    (c : Char)
    → ascii.is_upper c ≡ false
    → ascii.to_lower c ≡ c
    → nat_eq (code c) b'_' ≡ false
    → IsSmall ascii c
is_small c plain same other = record { plain = plain; same = same; no_underscore = other }

camel_of_snake-snake_of_camel_example :
    camel_of_snake ascii (snake_of_camel ascii "apiKey") ≡ "apiKey"
camel_of_snake-snake_of_camel_example =
    camel_of_snake-snake_of_camel ascii "a" "piKey" (is_small "a" refl refl refl) (
      small (is_small "p" refl refl refl) (
        small (is_small "i" refl refl refl) (
          large refl (record { upper = refl; raised = refl; no_underscore = refl })
            (small (is_small "e" refl refl refl) (small (is_small "y" refl refl refl) done)))))

-- An acronym does not come back.
acronym : camel_of_snake ascii (snake_of_camel ascii "userID") ≡ "userId"
unfolding camel_of_snake snake_of_camel
acronym = refl

abbrev row : String → String → Fields
row key owner = field "agent_key" (string key) (field "tenant_id" (string owner) end)

abbrev rows : List Fields
rows = row "ours" "t1" ∷ row "theirs" "t2" ∷ row "shared" "" ∷ []

-- The world counts the requests.
abbrev wire : Transport
wire = record {
  World = ℕ;
  exchange = λ w request. (ok (200, "{}"), suc w);
  marshal = λ body. ok "{}";
  decode = λ name body. if name == "agents" then ok rows else ok [];
  is_connected = λ w. true;
  connect = λ w. (none, w);
  call = λ w method params. (ok "{}", suc w);
  sync_context_files = λ w id files. (none, w);
  decode_object = λ body. ok end;
  contains_not_found = λ text. false;
}

abbrev env : Env
env = record {
  decimal = λ n. "?";
  quoted = λ s. "\"" <> s <> "\"";
  type_name = λ v. "?";
  path_escape = λ s. s;
  transport = wire;
  unicode = ascii;
  config = record { endpoint = "http://goclaw"; token = "k"; tenant_id = "acme"; user_id = "" };
}

abbrev no_others : Handlers env
no_others = record {
  observe = λ kind key. pure none;
  create = λ kind key spec. pure tt;
  update = λ kind key spec. pure tt;
  delete = λ kind key. pure tt;
}

list_all-resolved_example :
    list_all env agent (resolved env 0 "t1")
    ≡ (answered env agents >>= λ rs. pure (map (entry agents) (filter (belongs "t1") rs)))
        (resolved env 0 "t1")
list_all-resolved_example = list_all-resolved env agents 0 "t1" refl refl

two_of_three : list_all env agent (resolved env 0 "t1") ≡ (
  value (info agent "agent_key" (row "ours" "t1") ∷ info agent "agent_key" (row "shared" "") ∷ []),
  resolved env 1 "t1",
)
unfolding list_all info get
two_of_three = refl

delete_absent_example :
    delete env no_others provider "ghost" (resolved env 0 "t1") ≡ (value tt, resolved env 1 "t1")
unfolding observe get
delete_absent_example =
    delete_absent env no_others providers "ghost" (resolved env 0 "t1") (resolved env 1 "t1") refl
      refl

-- GoClaw has no tenant of the configured name.
abbrev lost : Error
lost = plain ("tenant " <> "\"acme\"" <> " not found")

create-unresolved_example :
    (create env no_others agent "a" end (unasked env 0) ≡ (failed lost, unresolved env 1 lost))
    × (create env no_others provider "b" end (unresolved env 1 lost)
        ≡ (failed lost, unresolved env 1 lost))
unfolding lookup_tenant get
create-unresolved_example =
    create-unresolved env no_others 0 1 lost agent provider "a" "b" end end refl refl refl refl

-- Links of an agent: to an agent whose key is known, one that a team made, and one to nobody.
abbrev answered_links : List Fields
answered_links =
    field "targetAgentId" (string "u2") end
    ∷ field "targetAgentId" (string "u2") (field "teamId" (string "t") end)
    ∷ end
    ∷ []

abbrev keys_known : Dict String
keys_known = ("u2", "-x") ∷ []

parse_agent_link_name-listed_example :
    (map
        (λ i. parse_agent_link_name env i.name)
        (link_infos env keys_known "my-agent" answered_links)
      ≡ map (λ t. ok ("my-agent", t)) (targets env keys_known answered_links))
    × (map (λ i. split_agent_link_name i.name) (link_infos env keys_known "my-agent" answered_links)
        ≡ map (λ t. some ("my-agent", t)) (targets env keys_known answered_links))
unfolding target_key translate_result snake_to_camel str_val Spec.get Dict.get
parse_agent_link_name-listed_example =
    parse_agent_link_name-listed env keys_known "my-agent" answered_links refl refl (refl, tt)
