-- ===== src/Keyconv.antt =====
-- Keys between camelCase and snake_case (internal/keyconv/keyconv.go). Go's unicode tables are a
-- parameter; a text that is not valid UTF-8 is left out.
pub mod RoundTrip
use Prim.Native.Char.{Char, char, code}
use Prim.Native.String.{◌++◌ as ◌<>◌}
use gcplane.Base.{
  ℕ, String, Bool, true, false, ◌&&◌, ◌||◌, not, Option, none, some, List, [], ◌∷◌, ◌==◌, nat_eq,
  if◌then◌else◌,
}
use gcplane.Base.Text.{split}
use gcplane.Spec
use gcplane.Spec.{Value, slice, object, Items, nil, item, Fields, end, field, put}

-- `unicode.IsUpper`, `IsLower`, `IsDigit`, `ToLower` and `ToUpper`
pub record Unicode : Type 0 where
  pub is_upper : Char → Bool
  pub is_lower : Char → Bool
  pub is_digit : Char → Bool
  pub to_lower : Char → Char
  pub to_upper : Char → Char

unfoldable pub passthrough_key : String → Bool
passthrough_key k =
    k == "env"
    || k == "encrypted_env"
    || k == "encryptedEnv"
    || k == "headers"
    || k == "defaultEnv"
    || k == "default_env"

-- `transformKeys`, with the map it fills, and `transformValue`
unfoldable mutual
  unfolding passthrough_key put

  pub transform_keys : (String → String) → Fields → Fields → Fields
  transform_keys fn out end = out
  transform_keys fn out (field k v fs) =
      let nk = fn k in
      let converted = transform_value fn v in
      transform_keys fn
        (put out nk (if passthrough_key k || passthrough_key nk then v else converted)) fs

  pub transform_value : (String → String) → Value → Value
  transform_value fn (object fs) = object (transform_keys fn end fs)
  transform_value fn (slice xs) = slice (transform_items fn xs)
  transform_value fn v = v

  pub transform_items : (String → String) → Items → Items
  transform_items fn nil = nil
  transform_items fn (item v xs) = item (transform_value fn v) (transform_items fn xs)

-- `strings.Contains(s, sep)` for a separator of one character.
unfoldable pub has_char : ℕ → String → Bool
has_char sep String.[] = false
has_char sep (String.◌∷◌ c s) = nat_eq (code c) sep || has_char sep s

abbrev pub underscore : Char
underscore = char b'_' tt

module _ (U : Unicode) where
  unfoldable pub next_lower : String → Bool
  next_lower String.[] = false
  next_lower (String.◌∷◌ d s) = U.is_lower d

  -- Whether an underscore goes between a character and its predecessor.
  unfoldable pub boundary : Char → Char → String → Bool
  unfolding next_lower
  boundary prev c s =
      U.is_upper c && (U.is_lower prev || U.is_digit prev || (U.is_upper prev && next_lower s))

  unfoldable pub camel_to_snake_after : Char → String → String
  unfolding boundary
  camel_to_snake_after prev String.[] = ""
  camel_to_snake_after prev (String.◌∷◌ c s) =
      let rest = String.◌∷◌ (U.to_lower c) (camel_to_snake_after c s) in
      if boundary prev c s then String.◌∷◌ underscore rest else rest

  -- `camelToSnake`
  unfoldable pub snake_of_camel : String → String
  unfolding camel_to_snake_after
  snake_of_camel String.[] = ""
  snake_of_camel (String.◌∷◌ c s) = String.◌∷◌ (U.to_lower c) (camel_to_snake_after c s)

  unfoldable pub capitalized : String → String
  capitalized String.[] = ""
  capitalized (String.◌∷◌ c s) = String.◌∷◌ (U.to_upper c) s

  unfoldable pub join_capitalized : List String → String
  unfolding capitalized
  join_capitalized [] = ""
  join_capitalized (part ∷ parts) = capitalized part <> join_capitalized parts

  unfoldable pub join_parts : List String → String
  unfolding join_capitalized
  join_parts [] = ""
  join_parts (part ∷ parts) = part <> join_capitalized parts

  -- `snakeToCamel`
  unfoldable pub camel_of_snake : String → String
  unfolding split has_char join_parts
  camel_of_snake s = if s == "" || not (has_char b'_' s) then s else join_parts (split b'_' s)

  -- `CamelToSnake` and `SnakeToCamel`
  unfoldable pub camel_to_snake : Fields → Fields
  unfolding transform_keys snake_of_camel
  camel_to_snake m = transform_keys snake_of_camel end m

  unfoldable pub snake_to_camel : Fields → Fields
  unfolding transform_keys camel_of_snake
  snake_to_camel m = transform_keys camel_of_snake end m
