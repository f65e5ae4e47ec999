-- ===== src/Base/Text.antt =====
-- Go's `strings` functions that the program calls, by recursion on the characters of a text.
use Prim.Native.Nat.{ℕ}
use Prim.Native.Char.{Char, code}
use Prim.Native.String.{String, ◌++◌ as ◌<>◌}
use mathlib.Core.Path.{◌≡◌, refl}
use mathlib.Core.Bool.{Bool, true, false, ◌||◌, ◌&&◌}
use mathlib.Core.Option.{Option, none, some}
use mathlib.Core.List.{List, [], ◌∷◌}
use gcplane.Base.Logic.{if◌then◌else◌, nat_eq, leb}

-- `unicode.IsSpace`
is_space : ℕ → Bool
is_space c =
    (leb 9 c && leb c 13)
    || nat_eq c 32
    || nat_eq c 0x85
    || nat_eq c 0xA0
    || nat_eq c 0x1680
    || (leb 0x2000 c && leb c 0x200A)
    || nat_eq c 0x2028
    || nat_eq c 0x2029
    || nat_eq c 0x202F
    || nat_eq c 0x205F
    || nat_eq c 0x3000

trim_left : String → String
trim_left String.[] = ""
trim_left (String.◌∷◌ c s) =
    let rest = trim_left s in if is_space (code c) then rest else String.◌∷◌ c s

-- Drops the spaces at the end: a space stays only before something that stays.
trim_right : String → String
trim_right String.[] = ""
trim_right (String.◌∷◌ c s) = keep c (trim_right s)
  where
    keep : Char → String → String
    keep d String.[] = if is_space (code d) then "" else String.◌∷◌ d ""
    keep d (String.◌∷◌ e r) = String.◌∷◌ d (String.◌∷◌ e r)

-- `strings.TrimSpace`
unfoldable pub trim_space : String → String
unfolding trim_left trim_right is_space
trim_space s = trim_right (trim_left s)

unfoldable pub on_head : Char → List String → List String
on_head c [] = String.◌∷◌ c "" ∷ []
on_head c (p ∷ ps) = String.◌∷◌ c p ∷ ps

-- `strings.Split(s, sep)` for a separator of one character.
unfoldable pub split : ℕ → String → List String
unfolding on_head
split sep String.[] = "" ∷ []
split sep (String.◌∷◌ c s) =
    let rest = split sep s in if nat_eq (code c) sep then "" ∷ rest else on_head c rest

-- `strings.TrimPrefix(s, p)` where `strings.HasPrefix(s, p)` holds.
unfoldable pub strip_prefix : String → String → Option String
strip_prefix String.[] s = some s
strip_prefix (String.◌∷◌ c p) String.[] = none
strip_prefix (String.◌∷◌ c p) (String.◌∷◌ d s) =
    let rest = strip_prefix p s in if nat_eq (code c) (code d) then rest else none

-- `strings.ReplaceAll(s, old, new)` for an `old` of one character.
unfoldable pub replace_all : ℕ → String → String → String
replace_all old new String.[] = ""
replace_all old new (String.◌∷◌ c s) =
    let rest = replace_all old new s in
    if nat_eq (code c) old then new <> rest else String.◌∷◌ c rest

-- `strings.SplitN(s, sep, 2)` for a separator of one character: `none` if it does not occur.
unfoldable pub cut : ℕ → String → Option (String × String)
cut sep String.[] = none
cut sep (String.◌∷◌ c s) =
    let rest = cut sep s in
    if nat_eq (code c) sep
    then some ("", s)
    else elim rest [ none ↦ none | some p ↦ some (String.◌∷◌ c p.0, p.1) ]

-- The first half with one more character in front.
abbrev with_head : Char → Option (String × String) → Option (String × String)
with_head c none = none
with_head c (some (a, b)) = some (String.◌∷◌ c a, b)

-- `strings.Split(s, "--")`, as the scan sees it: `held` tells that the last character read was
-- a dash that no separator has used yet.
unfoldable pub split_dashes_from : Bool → String → List String
unfolding on_head
split_dashes_from false String.[] = "" ∷ []
split_dashes_from true String.[] = "-" ∷ []
split_dashes_from false (String.◌∷◌ c s) =
    let plain = on_head c (split_dashes_from false s) in
    let held = split_dashes_from true s in if nat_eq (code c) b'-' then held else plain
split_dashes_from true (String.◌∷◌ c s) =
    let plain = on_head "-" (on_head c (split_dashes_from false s)) in
    let separated = "" ∷ split_dashes_from false s in
    if nat_eq (code c) b'-' then separated else plain

abbrev pub split_dashes : String → List String
split_dashes = split_dashes_from false

-- `strings.Cut(s, "--")`: the two halves around the first occurrence, `none` without one.
unfoldable pub cut_dashes_from : Bool → String → Option (String × String)
cut_dashes_from held String.[] = none
cut_dashes_from false (String.◌∷◌ c s) =
    let plain = with_head c (cut_dashes_from false s) in
    let held = cut_dashes_from true s in if nat_eq (code c) b'-' then held else plain
cut_dashes_from true (String.◌∷◌ c s) =
    let plain = with_head "-" (with_head c (cut_dashes_from false s)) in
    if nat_eq (code c) b'-' then some ("", s) else plain

unfoldable pub cut_dashes : String → Option (String × String)
unfolding cut_dashes_from
cut_dashes s = cut_dashes_from false s

cut_pair : cut_dashes "my-agent--other--x" ≡ some ("my-agent", "other--x")
unfolding cut_dashes
cut_pair = refl

trim_both : trim_space "  a b\n " ≡ "a b"
unfolding trim_space
trim_both = refl

split_commas : split b',' "a,,b" ≡ "a" ∷ "" ∷ "b" ∷ []
unfolding split
split_commas = refl

cut_first : cut b'=' "k=v=w" ≡ some ("k", "v=w")
unfolding cut
cut_first = refl

split_pair : split_dashes "my-agent--other---x" ≡ "my-agent" ∷ "other" ∷ "-x" ∷ []
unfolding split_dashes_from
split_pair = refl
