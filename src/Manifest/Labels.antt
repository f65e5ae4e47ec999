-- ===== src/Manifest/Labels.antt =====
-- Label selectors (internal/manifest/filter.go).
use gcplane.Base.{
  String, Bool, true, Option, none, some, List, [], ◌∷◌, ◌==◌, ◌≡◌, refl, filter, ◌&&◌,
  if◌then◌else◌,
}
use gcplane.Base.Dict
use gcplane.Base.Dict.{Dict}
use gcplane.Base.Text.{split, cut, trim_space}
use gcplane.Manifest.Resource.{Resource}
use gcplane.Manifest.WriteOnly.{text_or_empty}

-- `matchesLabels`: a label that is not there reads as the empty text.
unfoldable pub matches_labels : Dict String → Dict String → Bool
unfolding Dict.get
matches_labels labels [] = true
matches_labels labels ((k, v) ∷ selector) =
    text_or_empty (Dict.get labels k) == v && matches_labels labels selector

-- `FilterByLabels`
unfoldable pub filter_by_labels : List Resource → Dict String → List Resource
filter_by_labels resources [] = resources
filter_by_labels resources (s ∷ selector) =
    filter (λ r. matches_labels r.labels (s ∷ selector)) resources

add_pair : Dict String → Option (String × String) → Dict String
add_pair result none = result
add_pair result (some (k, v)) = Dict.put result (trim_space k) (trim_space v)

-- The loop of `ParseLabelSelector` over the parts between commas.
add_pairs : Dict String → List String → Dict String
unfolding add_pair
add_pairs result [] = result
add_pairs result (pair ∷ pairs) = add_pairs (add_pair result (cut b'=' pair)) pairs

-- `ParseLabelSelector`
unfoldable pub parse_label_selector : String → Dict String
unfolding add_pairs
parse_label_selector s = if s == "" then [] else add_pairs [] (split b',' s)

parsed_selector :
    parse_label_selector "team=core, env = dev,bad" ≡ ("team", "core") ∷ ("env", "dev") ∷ []
unfolding parse_label_selector split cut trim_space Dict.put
parsed_selector = refl
