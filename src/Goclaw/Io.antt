-- ===== src/Goclaw/Io.antt =====
-- What the provider's methods run in: the connection as a parameter, the state and Go's errors.
use Prim.Native.String.{◌++◌ as ◌<>◌}
use gcplane.Base.{
  ℕ, String, Bool, true, false, Option, none, some, List, Result, ok, err, ◌≡◌, refl, ap,
}
use gcplane.Base.Dict.{Dict}
use gcplane.Spec.{Value, Fields, Items}
use gcplane.Keyconv.{Unicode}

-- The errors of http_client.go that `errors.Is` tells apart, and an error: its text, with the one
-- of these that it wraps.
pub data Sentinel : Type 0 where
  not_found unauthorized invalid_request server_error : Sentinel

pub record Error : Type 0 where
  pub sentinel : Option Sentinel
  pub text : String

-- `fmt.Errorf` without and with `%w`
abbrev pub plain : String → Error
plain text = record { sentinel = none; text = text }

abbrev pub wrap : String → Error → Error
wrap prefix e = record { sentinel = e.sentinel; text = prefix <> ": " <> e.text }

-- `errors.Is(err, ErrNotFound)`
unfoldable pub is_not_found : Option Sentinel → Bool
is_not_found (some not_found) = true
is_not_found _ = false

pub record Request : Type 0 where
  pub method : String
  pub url : String
  pub headers : Dict String
  pub body : Option String

-- What lies outside: a request with the answer's status and body, the codec of JSON (`decode` reads
-- the list that an answer holds under a name), the socket, and the upload of an agent's files.
pub record Transport : Type 1 where
  pub World : Type 0
  pub exchange : World → Request → Result (ℕ × String) × World
  pub marshal : Option Fields → Result String
  pub decode : String → String → Result (List Fields)
  pub is_connected : World → Bool
  pub connect : World → Option Error × World
  pub call : World → String → Option Fields → Result String × World
  pub sync_context_files : World → String → Items → Option Error × World
  pub decode_object : String → Result Fields
  pub contains_not_found : String → Bool

-- `New`'s settings.
pub record Config : Type 0 where
  pub endpoint : String
  pub token : String
  pub tenant_id : String
  pub user_id : String

-- `decimal`, `quoted` and `type_name` are the verbs `%d`, `%q` and `%T` of fmt, and `path_escape` is
-- `url.PathEscape`.
pub record Env : Type 1 where
  pub decimal : ℕ → String
  pub quoted : String → String
  pub type_name : Value → String
  pub path_escape : String → String
  pub transport : Transport
  pub unicode : Unicode
  pub config : Config

-- The world, and what `tenantOnce` has stored.
pub record State (World : Type 0) : Type 0 where
  pub world : World
  pub tenant_done : Bool
  pub tenant_uuid : String
  pub tenant_err : Option Error

pub data Outcome (A : Type 0) : Type 0 where
  value : A → Outcome A
  failed : Error → Outcome A

abbrev pub Io : Type 0 → Type 0 → Type 0
Io S A = S → Outcome A × S

abbrev pub Goclaw : Env → Type 0 → Type 0
Goclaw E = Io (State E.transport.World)

module _ {S : Type 0} where
  abbrev pub pure : {A : Type 0} → A → Io S A
  pure a s = (value a, s)

  abbrev pub fail : {A : Type 0} → Error → Io S A
  fail e s = (failed e, s)

  -- What follows a step, from how it ended.
  abbrev continue : {A B : Type 0} → (A → Io S B) → Outcome A × S → Outcome B × S
  continue f ended = elim ended.0 [ value a ↦ f a ended.1 | failed e ↦ (failed e, ended.1) ]

  infixl 5 ◌>>=◌ ◌>>◌
  abbrev pub ◌>>=◌ : {A B : Type 0} → Io S A → (A → Io S B) → Io S B
  ◌>>=◌ m f s = continue f (m s)

  abbrev pub ◌>>◌ : {A B : Type 0} → Io S A → Io S B → Io S B
  m >> k = m >>= λ _. k

  -- `if err != nil { return …, fmt.Errorf("prefix: %w", err) }`
  abbrev pub rewrapped : {A : Type 0} → String → Outcome A × S → Outcome A × S
  rewrapped prefix ended = elim ended.0 [
    | value a ↦ (value a, ended.1)
    | failed e ↦ (failed (wrap prefix e), ended.1)
  ]

  abbrev pub wrapping : {A : Type 0} → String → Io S A → Io S A
  wrapping prefix m s = rewrapped prefix (m s)

  abbrev pub of_result : {A : Type 0} → String → Result A → Io S A
  of_result prefix (ok a) = pure a
  of_result prefix (err e) = fail (plain (prefix <> ": " <> e))

  -- The value or the error, for code that looks at the error.
  abbrev pub attempt : {A : Type 0} → Io S A → Io S (Outcome A)
  attempt m s = (value (m s).0, (m s).1)

  pub bind-value :
      {A B : Type 0} (m : Io S A) (f : A → Io S B) (s t : S) (a : A)
      → m s ≡ (value a, t)
      → (m >>= f) s ≡ f a t
  bind-value m f s t a ran = ap (continue f) ran

  pub bind-failed :
      {A B : Type 0} (m : Io S A) (f : A → Io S B) (s t : S) (e : Error)
      → m s ≡ (failed e, t)
      → (m >>= f) s ≡ (failed e, t)
  bind-failed m f s t e ran = ap (continue f) ran

  -- A chain that ends with a value has its first step end with one, and so has a wrapped step.
  pub continued :
      {A B : Type 0} (f : A → Io S B) (ended : Outcome A × S) (t : S) (b : B)
      → continue f ended ≡ (value b, t)
      → (a : A) × (u : S) × (ended ≡ (value a, u)) × (f a u ≡ (value b, t))
  continued f (value a, u) t b ran = (a, u, refl, ran)
  continued f (failed e, u) t b ran = cc

  pub rewrapped-value :
      {A : Type 0} (prefix : String) (ended : Outcome A × S) (t : S) (a : A)
      → rewrapped prefix ended ≡ (value a, t)
      → ended ≡ (value a, t)
  rewrapped-value prefix (value a, u) t b ran = ran
  rewrapped-value prefix (failed e, u) t b ran = cc
