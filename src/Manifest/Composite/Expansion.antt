-- ===== src/Manifest/Composite/Expansion.antt =====
-- What an expansion leaves.
use mathlib.Core.Path.{subst}
use mathlib.Core.Option.{some-ne-none, some-injective}
use gcplane.Base.{
  String, Bool, true, false, not, ◌&&◌, ◌≡◌, refl, sym, ap, ◌∙◌, some, List, [], ◌∷◌, ◌++◌, ◌==◌,
  append_assoc, append-nil, all, Result, ok, err, Bool-cases, inl, inr, Result-cases, Option-cases,
  arith,
}
use gcplane.Base.Dict
use gcplane.Base.Dict.{Dict}
use gcplane.Spec.{Fields}
use gcplane.Manifest.Resource.{Resource, Manifest}
use gcplane.Manifest.Composite.{
  Templates, CompositeDefinition, Registry, composite_definition, parse_definition, extract_from,
  extract_definitions, build_context, expand_resource, expand_spec, labelled, expand_templates,
  expand_instance, expand_instances, with_resources, expand_with, expand_composites,
}

-- A resource that is no definition.
abbrev pub is_regular : Resource → Bool
is_regular r = not (r.kind == composite_definition)

-- No template of a registry makes a definition.
abbrev pub is_plain : Registry → Bool
is_plain registry = all (λ d. all is_regular d.1.templates) registry

and_intro : (a b : Bool) → a ≡ true → b ≡ true → (a && b) ≡ true
and_intro a b h k = ground arith

negated : (b : Bool) → not b ≡ true → b ≡ false
negated b h = ground arith

and_left : (a b : Bool) → (a && b) ≡ true → a ≡ true
and_left a b h = ground arith

and_right : (a b : Bool) → (a && b) ≡ true → b ≡ true
and_right a b h = ground arith

all_regular-append :
    (xs ys : List Resource)
    → all is_regular xs ≡ true
    → all is_regular ys ≡ true
    → all is_regular (xs ++ ys) ≡ true
all_regular-append [] ys h k = k
all_regular-append (x ∷ xs) ys h k =
    and_intro (is_regular x) _ (and_left (is_regular x) (all is_regular xs) h)
      (all_regular-append xs ys (and_right (is_regular x) (all is_regular xs) h) k)

-- A result with no definition, or an error.
abbrev Regular : Result (List Resource) → Type 0
Regular (ok xs) = all is_regular xs ≡ true
Regular (err e) = Unit

abbrev RegularRest : Result (Registry × List Resource) → Type 0
RegularRest (ok (registry, remaining)) = all is_regular remaining ≡ true
RegularRest (err e) = Unit

-- Of regular resources an extraction takes none.
extract_from-regular :
    (rs : List Resource) (registry : Registry) (remaining : List Resource)
    → all is_regular rs ≡ true
    → extract_from registry remaining rs ≡ ok (registry, remaining ++ rs)
unfolding extract_from
extract_from-regular [] registry remaining h =
    ap (λ xs. ok (registry, xs)) (sym (append-nil remaining))
extract_from-regular (r ∷ rs) registry remaining h =
    let other = and_left (is_regular r) (all is_regular rs) h in
    rw (extract_from, negated (r.kind == composite_definition) other)
      (extract_from-regular rs registry (remaining ++ r ∷ [])
          (and_right (is_regular r) (all is_regular rs) h)
        ∙ ap (λ xs. ok (registry, xs)) (append_assoc remaining (r ∷ []) rs))

-- What an extraction leaves is regular.
extract_from-RegularRest :
    (rs : List Resource) (registry : Registry) (remaining : List Resource)
    → all is_regular remaining ≡ true
    → RegularRest (extract_from registry remaining rs)
unfolding extract_from
extract_from-RegularRest [] registry remaining h = h
extract_from-RegularRest (r ∷ rs) registry remaining h =
    elim (Bool-cases (r.kind == composite_definition)) [
      | inr e ↦
          rw (extract_from, e)
            (extract_from-RegularRest rs registry (remaining ++ r ∷ [])
              (all_regular-append remaining (r ∷ []) h (rw e refl)))
      | inl e ↦ elim (Result-cases (parse_definition r)) [
        | inl (def, q) ↦
            rw (extract_from, e, q)
              (extract_from-RegularRest rs (Dict.put registry r.name def) remaining h)
        | inr (m, q) ↦ rw (extract_from, e, q) tt
      ]
    ]

-- A manifest with no definition, or an error.
abbrev RegularManifest : Result Manifest → Type 0
RegularManifest (ok m) = all is_regular m.resources ≡ true
RegularManifest (err e) = Unit

with_resources-Regular :
    (T : Templates) (m : Manifest) (xs : Result (List Resource))
    → Regular xs
    → RegularManifest (with_resources T m xs)
with_resources-Regular T m (ok xs) h = h
with_resources-Regular T m (err e) h = tt

put-ne-nil : (d : Registry) (k : String) (v : CompositeDefinition) → Dict.put d k v ≡ [] → ⊥
unfolding Dict.put
put-ne-nil [] k v = λ e. ground arith
put-ne-nil ((j, w) ∷ d) k v = λ e. ground arith

module _ (T : Templates) where
  -- An expansion keeps the template's kind.
  abbrev KeepsKind : Resource → Result Resource → Type 0
  KeepsKind t (ok res) = res.kind ≡ t.kind
  KeepsKind t (err e) = Unit

  expand_resource-KeepsKind : (t : Resource) (ctx : Fields) → KeepsKind t (expand_resource T t ctx)
  unfolding expand_resource
  expand_resource-KeepsKind t ctx = elim (Result-cases (T.render t.name ctx)) [
    | inr (e, q) ↦ rw (expand_resource, q) tt
    | inl (name, q) ↦ elim (Result-cases (expand_spec T t.spec ctx)) [
      | inr (e, p) ↦ rw (expand_resource, q, p) tt
      | inl (spec, p) ↦ rw (expand_resource, q, p) refl
    ]
  ]

  expand_templates-Regular :
      (tmpls : List Resource) (def : String) (r : Resource)
      → all is_regular tmpls ≡ true
      → Regular (expand_templates T def r tmpls)
  unfolding expand_templates
  expand_templates-Regular [] def r h = refl
  expand_templates-Regular (t ∷ ts) def r h =
      let rest =
        expand_templates-Regular ts def r (and_right (is_regular t) (all is_regular ts) h) in
      let kept = expand_resource-KeepsKind t (build_context r) in
      elim (Result-cases (expand_resource T t (build_context r))) [
        | inr (e, q) ↦ rw (expand_templates, q) tt
        | inl (res, q) ↦ elim (Result-cases (expand_templates T def r ts)) [
          | inr (e, p) ↦ rw (expand_templates, q, p) tt
          | inl (out, p) ↦
              rw (expand_templates, q, p)
                (and_intro (is_regular (labelled T r res)) (all is_regular out)
                  (subst (λ k. not (k == composite_definition) ≡ true) (sym (rw q at kept))
                    (and_left (is_regular t) (all is_regular ts) h))
                  (rw p at rest))
        ]
      ]

  registry-get :
      (registry : Registry) (k : String) {def : CompositeDefinition}
      → is_plain registry ≡ true
      → Dict.get registry k ≡ some def
      → all is_regular def.templates ≡ true
  unfolding Dict.get
  registry-get [] k {def} h found = absurd (some-ne-none def (sym found))
  registry-get ((j, d) ∷ registry) k {def} h found = elim (Bool-cases (j == k)) [
    | inl e ↦
        subst (λ (x : CompositeDefinition). all is_regular x.templates ≡ true)
          (some-injective d def (rw e at found))
          (and_left (all is_regular d.templates) (is_plain registry) h)
    | inr e ↦
        registry-get registry k (and_right (all is_regular d.templates) (is_plain registry) h)
          (rw e at found)
  ]

  expand_instance-Regular :
      (r : Resource) (registry : Registry)
      → is_regular r ≡ true
      → is_plain registry ≡ true
      → Regular (expand_instance T registry r)
  unfolding expand_instance
  expand_instance-Regular r registry h plain = elim (Option-cases (Dict.get registry r.kind)) [
    | inl e ↦ rw (expand_instance, e) (and_intro (is_regular r) true h refl)
    | inr (def, e) ↦
        rw (expand_instance, e)
          (expand_templates-Regular def.templates def.name r (registry-get registry r.kind plain e))
  ]

  expand_instances-Regular :
      (rs : List Resource) (registry : Registry)
      → all is_regular rs ≡ true
      → is_plain registry ≡ true
      → Regular (expand_instances T rs registry)
  unfolding expand_instances
  expand_instances-Regular [] registry h plain = refl
  expand_instances-Regular (r ∷ rs) registry h plain =
      let rest =
        expand_instances-Regular rs registry (and_right (is_regular r) (all is_regular rs) h)
          plain in
      let first =
        expand_instance-Regular r registry (and_left (is_regular r) (all is_regular rs) h) plain in
      elim (Result-cases (expand_instance T registry r)) [
        | inr (e, q) ↦ rw (expand_instances, q) tt
        | inl (some_of, q) ↦ elim (Result-cases (expand_instances T rs registry)) [
          | inr (e, p) ↦ rw (expand_instances, q, p) tt
          | inl (out, p) ↦
              rw (expand_instances, q, p)
                (all_regular-append some_of out (rw q at first) (rw p at rest))
        ]
      ]

  -- A manifest that an expansion leaves unchanged, or an error.
  abbrev Settled : Result Manifest → Type 0
  Settled (ok m) = expand_composites T m ≡ ok m
  Settled (err e) = Unit

  regular-Settled :
      (m : Manifest) (xs : List Resource)
      → all is_regular xs ≡ true
      → Settled (ok (record m { resources = xs }))
  unfolding expand_composites extract_definitions expand_with
  regular-Settled m xs h =
      ap (expand_with T (record m { resources = xs })) (extract_from-regular xs [] [] h)

  expand_with-Settled :
      (m : Manifest) (registry : Registry) (remaining : List Resource)
      → all is_regular remaining ≡ true
      → is_plain registry ≡ true
      → extract_definitions m.resources ≡ ok (registry, remaining)
      → Settled (expand_with T m (ok (registry, remaining)))
  unfolding expand_composites expand_with
  expand_with-Settled m [] remaining h plain found = ap (expand_with T m) found
  expand_with-Settled m (d ∷ ds) remaining h plain found =
      let regular = expand_instances-Regular remaining (d ∷ ds) h plain in
      elim (Result-cases (expand_instances T remaining (d ∷ ds))) [
        | inr (e, q) ↦ rw q tt
        | inl (xs, q) ↦ rw q (regular-Settled m xs (rw q at regular))
      ]

  -- One expansion is enough: where the templates make no further definitions, the manifest that
  -- ExpandComposites leaves is one that a second ExpandComposites leaves unchanged.
  pub expand_composites_twice :
      (m : Manifest) {registry : Registry} {remaining : List Resource} {out : Manifest}
      → extract_definitions m.resources ≡ ok (registry, remaining)
      → is_plain registry ≡ true
      → expand_composites T m ≡ ok out
      → expand_composites T out ≡ ok out
  unfolding expand_composites extract_definitions
  expand_composites_twice m {registry} {remaining} {out} found plain done = subst Settled done (
      subst (λ x. Settled (expand_with T m x)) (sym found)
        (expand_with-Settled m registry remaining
          (subst RegularRest found (extract_from-RegularRest m.resources [] [] refl)) plain found))

  -- An extraction that collects no definition has met none.
  extract_from-none :
      (rs : List Resource) (registry : Registry) (remaining : List Resource) {rest : List Resource}
      → extract_from registry remaining rs ≡ ok ([], rest)
      → (registry ≡ []) × (all is_regular rs ≡ true)
  unfolding extract_from
  extract_from-none [] registry remaining done = (cc, refl)
  extract_from-none (r ∷ rs) registry remaining done =
      elim (Bool-cases (r.kind == composite_definition)) [
        | inr e ↦
            let ih =
              extract_from-none rs registry (remaining ++ r ∷ []) (rw (extract_from, e) at done) in
            (ih.0, and_intro (is_regular r) (all is_regular rs) (rw e refl) (ih.1))
        | inl e ↦ elim (Result-cases (parse_definition r)) [
          | inl (def, q) ↦
              let ih =
                extract_from-none rs (Dict.put registry r.name def) remaining
                  (rw (extract_from, e, q) at done) in
              absurd (put-ne-nil registry r.name def (ih.0))
          | inr (m, q) ↦ cc (rw (extract_from, e, q) at done)
        ]
      ]

  -- What an expansion leaves has no definition, where the templates make none.
  pub expand_composites-Regular :
      (m : Manifest) {registry : Registry} {remaining : List Resource} {out : Manifest}
      → extract_definitions m.resources ≡ ok (registry, remaining)
      → is_plain registry ≡ true
      → expand_composites T m ≡ ok out
      → all is_regular out.resources ≡ true
  unfolding expand_composites extract_definitions expand_with
  expand_composites-Regular m {registry = []} {remaining} {out} found plain done =
      subst (λ (x : Result Manifest). RegularManifest x) (sym (ap (expand_with T m) found) ∙ done)
        ((extract_from-none m.resources [] [] found).1)
  expand_composites-Regular m {registry = d ∷ ds} {remaining} {out} found plain done =
      let rest : all is_regular remaining ≡ true =
        subst RegularRest found (extract_from-RegularRest m.resources [] [] refl) in
      let regular = expand_instances-Regular remaining (d ∷ ds) rest plain in
      subst (λ (x : Result Manifest). RegularManifest x) (sym (ap (expand_with T m) found) ∙ done)
        (with_resources-Regular T m (expand_instances T remaining (d ∷ ds)) regular)

  -- Without a definition an expansion changes nothing.
  pub expand_composites_of_regular :
      (m : Manifest) → all is_regular m.resources ≡ true → expand_composites T m ≡ ok m
  unfolding expand_composites extract_definitions expand_with
  expand_composites_of_regular m h = ap (expand_with T m) (extract_from-regular m.resources [] [] h)
