-- ===== src/Goclaw/Links/Names.antt =====
-- The names of agent links, read back.
use Prim.Native.Char.{Char, code}
use Prim.Native.String.{◌++◌ as ◌<>◌}
use Prim.Native.String.append
use text.Mathlib.TextEquality.{Char-path}
use gcplane.Base.{
  String, Bool, true, false, ◌&&◌, not, some, [], ◌∷◌, ◌==◌, ◌≡◌, refl, sym, ap, ◌∙◌, ok, nat_eq,
  if◌then◌else◌, inl, inr, Bool-cases, arith, ◌||◌, List, map, All,
}
use gcplane.Base.Text.{split_dashes_from, split_dashes, on_head}
use gcplane.Manifest.References.{split_agent_link_name}
use gcplane.Goclaw.Io.{Env}
use gcplane.Goclaw.Links.{parse_agent_link_name}
use gcplane.Goclaw.Helpers.{translate_result, str_val}
use gcplane.Goclaw.Listing.{link_infos, target_key}
use gcplane.Base.Dict.{Dict}
use gcplane.Spec.{Fields}

-- A key without two dashes in a row and without a dash at its end, which is what `closed` asks for;
-- `held` tells that a dash has just been read.
abbrev pub is_key : Bool → Bool → String → Bool
is_key closed held String.[] = not (closed && held)
is_key closed held (String.◌∷◌ c s) =
    let dash = not held && is_key closed true s in
    let other = is_key closed false s in if nat_eq (code c) b'-' then dash else other

dash_path : (c : Char) → nat_eq (code c) b'-' ≡ true → c ≡ "-"
dash_path c dash = Char-path c "-" (ground (arith, dash))

-- A key that has been read, behind the dash that is held.
abbrev behind : Bool → String → String
behind true s = String.◌∷◌ "-" s
behind false s = s

split-key :
    (held : Bool) (s t : String)
    → is_key true held s ≡ true
    → split_dashes_from held (s <> "--" <> t) ≡ behind held s ∷ split_dashes t
unfolding split_dashes_from on_head
split-key false String.[] t h =
    rw (append.nil ("--" <> t), append.cons "-" "-" t, append.cons "-" "" t, append.nil t) refl
split-key true String.[] t h = absurd (cc h)
split-key false (String.◌∷◌ c s) t h =
    rw (append.cons c s ("--" <> t)) (elim (Bool-cases (nat_eq (code c) b'-')) [
      | inl dash ↦ rw dash (
          split-key true s t (rw dash at h)
          ∙ ap (λ d. String.◌∷◌ d s ∷ split_dashes t) (sym (dash_path c dash)))
      | inr other ↦ rw other (ap (on_head c) (split-key false s t (rw other at h)))
    ])
split-key true (String.◌∷◌ c s) t h =
    rw (append.cons c s ("--" <> t)) (elim (Bool-cases (nat_eq (code c) b'-')) [
      | inl dash ↦ absurd (cc (rw dash at h))
      | inr other ↦
          rw other (ap (λ ps. on_head "-" (on_head c ps)) (split-key false s t (rw other at h)))
    ])

split-target :
    (held : Bool) (s : String)
    → is_key false held s ≡ true
    → split_dashes_from held s ≡ behind held s ∷ []
unfolding split_dashes_from on_head
split-target false String.[] h = refl
split-target true String.[] h = refl
split-target false (String.◌∷◌ c s) h = elim (Bool-cases (nat_eq (code c) b'-')) [
  | inl dash ↦
      rw dash (
        split-target true s (rw dash at h) ∙ ap (λ d. String.◌∷◌ d s ∷ []) (sym (dash_path c dash)))
  | inr other ↦ rw other (ap (on_head c) (split-target false s (rw other at h)))
]
split-target true (String.◌∷◌ c s) h = elim (Bool-cases (nat_eq (code c) b'-')) [
  | inl dash ↦ absurd (cc (rw dash at h))
  | inr other ↦
      rw other (ap (λ ps. on_head "-" (on_head c ps)) (split-target false s (rw other at h)))
]

-- Two keys that are joined are split again.
parse_agent_link_name-joined :
    (E : Env) (source target : String)
    → is_key true false source ≡ true
    → is_key false false target ≡ true
    → (source == "") ≡ false
    → (target == "") ≡ false
    → (parse_agent_link_name E (source <> "--" <> target) ≡ ok (source, target))
      × (split_agent_link_name (source <> "--" <> target) ≡ some (source, target))
unfolding parse_agent_link_name split_agent_link_name
parse_agent_link_name-joined E source target clean plain some_source some_target =
    let parts =
      split-key false source target clean
      ∙ ap (λ ps. source ∷ ps) (split-target false target plain) in
    (
      rw (parse_agent_link_name, parts, some_source, some_target) refl,
      rw (split_agent_link_name, parts, some_source, some_target) refl,
    )

cons_path : {A : Type 0} {x y : A} {xs ys : List A} → x ≡ y → xs ≡ ys → (x ∷ xs) ≡ (y ∷ ys)
cons_path e f = λ i. e i ∷ f i

module _ (E : Env) (keys : Dict String) where
  -- The targets of the links that no team made and whose target is known, in their order.
  abbrev pub targets : List Fields → List String
  targets [] = []
  targets (link ∷ links) =
      let rest = targets links in
      let camel = translate_result E.unicode link in
      let target = target_key E keys camel in
      if not (str_val camel "teamId" == "") || target == "" then rest else target ∷ rest

  -- The names that the listing of an agent's links gives are read back as the agent's key and the
  -- targets of the links that no team made, in their order, by the provider and by the validator
  -- alike: where the agent's key is not empty, no key has two dashes in a row, and the agent's does
  -- not end in a dash.
  pub parse_agent_link_name-listed :
      (source : String) (links : List Fields)
      → is_key true false source ≡ true
      → (source == "") ≡ false
      → All (λ t. is_key false false t ≡ true) (targets links)
      → (map (λ i. parse_agent_link_name E i.name) (link_infos E keys source links)
          ≡ map (λ t. ok (source, t)) (targets links))
        × (map (λ i. split_agent_link_name i.name) (link_infos E keys source links)
            ≡ map (λ t. some (source, t)) (targets links))
  unfolding link_infos
  parse_agent_link_name-listed source [] clean some_source plain = (refl, refl)
  parse_agent_link_name-listed source (link ∷ links) clean some_source plain =
      let camel = translate_result E.unicode link in
      let target = target_key E keys camel in
      elim (Bool-cases (not (str_val camel "teamId" == ""))) [
        | inl e ↦ rw e (parse_agent_link_name-listed source links clean some_source (rw e at plain))
        | inr e ↦ elim (Bool-cases (target == "")) [
          | inl f ↦
              rw (e, f)
                (parse_agent_link_name-listed source links clean some_source (rw (e, f) at plain))
          | inr f ↦
              let each = rw (e, f) at plain in
              let first =
                parse_agent_link_name-joined E source target clean (each.0) some_source f in
              let rest = parse_agent_link_name-listed source links clean some_source (each.1) in
              rw (e, f) (cons_path (first.0) (rest.0), cons_path (first.1) (rest.1))
        ]
      ]
