-- ===== src/Manifest/Loader/Merge.antt =====
-- What a merged directory holds.
use mathlib.Core.Path.{subst}
use gcplane.Base.{
  String, true, false, ◌||◌, ◌≡◌, refl, sym, ap, all, ◌∙◌, List, [], ◌∷◌, ◌++◌, ◌==◌, map, contains,
  Result, ok, err, Bool-cases, Result-cases, inl, inr, arith, eq_iff,
}
use gcplane.Manifest.Resource.{Resource, Manifest}
use gcplane.Manifest.Validate.{uid}
use gcplane.Manifest.Validate.Acceptance.{are_distinct}
use gcplane.Manifest.Composite.{
  Templates, Registry, extract_definitions, expand_composites, expand_with,
}
use gcplane.Manifest.Composite.Expansion.{
  is_regular, is_plain, expand_composites-Regular, expand_composites_of_regular,
}
use gcplane.Manifest.Loader.{
  Merged, nothing_merged, add_resources, add_header, merge_files, merge_dir, load_file, load_dir,
  with_defaults, merged_manifest,
}

-- The resources have distinct keys, and `seen` holds just those.
record IsTracked (acc : Merged) : Type 0 where
  distinct : are_distinct acc.resources ≡ true
  keys : (u : String) → contains (map uid acc.resources) u ≡ contains acc.seen u

abbrev Tracked : Result Merged → Type 0
Tracked (ok acc) = IsTracked acc
Tracked (err e) = Unit

contains_last :
    (xs : List Resource) (r : Resource) (u : String)
    → contains (map uid (xs ++ r ∷ [])) u ≡ (uid r == u || contains (map uid xs) u)
unfolding contains
contains_last [] r u = refl
contains_last (x ∷ xs) r u = ground (arith, contains_last xs r u)

are_distinct_last :
    (xs : List Resource) (r : Resource)
    → are_distinct xs ≡ true
    → contains (map uid xs) (uid r) ≡ false
    → are_distinct (xs ++ r ∷ []) ≡ true
unfolding contains
are_distinct_last [] r h fresh = refl
are_distinct_last (x ∷ xs) r h fresh = ground (
  arith,
  contains_last xs r (uid x),
  eq_iff (uid x) (uid r),
  eq_iff (uid r) (uid x),
  are_distinct_last xs r,
)

add_resources-Tracked :
    (rs : List Resource) (acc : Merged) → IsTracked acc → Tracked (add_resources acc rs)
unfolding add_resources
add_resources-Tracked [] acc h = h
add_resources-Tracked (r ∷ rs) acc h = elim (Bool-cases (contains acc.seen (uid r))) [
  | inl e ↦ rw (add_resources, e) tt
  | inr e ↦
      rw (add_resources, e)
        (add_resources-Tracked rs
          (record acc { resources = acc.resources ++ r ∷ []; seen = uid r ∷ acc.seen })
          (record {
            distinct = are_distinct_last acc.resources r h.distinct (h.keys (uid r) ∙ e);
            keys = λ u.
                contains_last acc.resources r u
                ∙ ap (λ b. uid r == u || b) (h.keys u)
                ∙ unfold contains in refl;
          }))
]

module _ (T : Templates) (read : String → Result Manifest) where
  merge_files-Tracked :
      (files : List String) (acc : Merged) → IsTracked acc → Tracked (merge_files T read acc files)
  unfolding merge_files add_header
  merge_files-Tracked [] acc h = h
  merge_files-Tracked (f ∷ fs) acc h = elim (Result-cases (load_file T read f)) [
    | inr (e, q) ↦ rw (merge_files, q) tt
    | inl (m, q) ↦
        let added =
          add_resources-Tracked m.resources (add_header acc m)
            (record { distinct = h.distinct; keys = h.keys }) in
        elim (Result-cases (add_resources (add_header acc m) m.resources)) [
          | inr (e, p) ↦ rw (merge_files, q, p) tt
          | inl (next, p) ↦ rw (merge_files, q, p) (merge_files-Tracked fs next (rw p at added))
        ]
  ]

  merge_dir-Tracked :
      (files : List String) (skills : Result (List Resource))
      → Tracked (merge_dir T read files skills)
  unfolding merge_dir
  merge_dir-Tracked files skills =
      let merged =
        merge_files-Tracked files nothing_merged
          (record { distinct = refl; keys = λ u. unfold contains in refl }) in
      elim (Result-cases (merge_files T read nothing_merged files)) [
        | inr (e, q) ↦ rw (merge_dir, q) tt
        | inl (acc, q) ↦ elim (Result-cases skills) [
          | inr (e, p) ↦ rw (merge_dir, q, p) tt
          | inl (rs, p) ↦ rw (merge_dir, q, p) (add_resources-Tracked rs acc (rw q at merged))
        ]
      ]

-- The collected resources have no definition, or there was an error.
abbrev Plain : Result Merged → Type 0
Plain (ok acc) = all is_regular acc.resources ≡ true
Plain (err e) = Unit

all_regular_last :
    (xs : List Resource) (r : Resource)
    → all is_regular xs ≡ true
    → is_regular r ≡ true
    → all is_regular (xs ++ r ∷ []) ≡ true
all_regular_last [] r h k = ground (arith, k)
all_regular_last (x ∷ xs) r h k = ground (arith, h, all_regular_last xs r, k)

add_resources-Plain :
    (rs : List Resource) (acc : Merged)
    → all is_regular acc.resources ≡ true
    → all is_regular rs ≡ true
    → Plain (add_resources acc rs)
unfolding add_resources
add_resources-Plain [] acc h k = h
add_resources-Plain (r ∷ rs) acc h k =
    let one : is_regular r ≡ true = ground (arith, k) in
    let more : all is_regular rs ≡ true = ground (arith, k) in
    elim (Bool-cases (contains acc.seen (uid r))) [
      | inl e ↦ rw (add_resources, e) tt
      | inr e ↦
          rw (add_resources, e)
            (add_resources-Plain rs
              (record acc { resources = acc.resources ++ r ∷ []; seen = uid r ∷ acc.seen })
              (all_regular_last acc.resources r h one) more)
    ]

-- A manifest with distinct resources, or an error.
abbrev DistinctManifest : Result Manifest → Type 0
DistinctManifest (ok m) = are_distinct m.resources ≡ true
DistinctManifest (err e) = Unit

-- A manifest whose definitions, wherever they can be read, have templates that make no definition.
abbrev pub MakesNone : Manifest → Type 0
MakesNone m =
    (registry : Registry) (remaining : List Resource)
    → extract_definitions m.resources ≡ ok (registry, remaining)
    → is_plain registry ≡ true

module _ (T : Templates) (read : String → Result Manifest) where
  load_file-Regular :
      (path : String) {file loaded : Manifest}
      → read path ≡ ok file
      → MakesNone file
      → load_file T read path ≡ ok loaded
      → all is_regular loaded.resources ≡ true
  unfolding load_file with_defaults expand_composites expand_with
  load_file-Regular path {file} {loaded} found plain done =
      let expanded : expand_composites T (with_defaults file) ≡ ok loaded =
        rw (load_file, found) at done in
      elim (Result-cases (extract_definitions file.resources)) [
        | inl ((registry, remaining), q) ↦
            expand_composites-Regular T (with_defaults file) q (plain registry remaining q) expanded
        | inr (e, q) ↦
            let refused : err e ≡ ok loaded =
              sym (ap (expand_with T (with_defaults file)) q) ∙ expanded in
            cc
      ]

  -- The definitions of the files that can be read make no definitions.
  abbrev pub FilesMakeNone : List String → Type 0
  FilesMakeNone [] = Unit
  FilesMakeNone (f ∷ fs) =
      ((file : Manifest) → read f ≡ ok file → MakesNone file) × FilesMakeNone fs

  load_file_of_some :
      (f : String) (given : Result Manifest) {m : Manifest}
      → read f ≡ given
      → load_file T read f ≡ ok m
      → (file : Manifest) × (read f ≡ ok file)
  unfolding load_file
  load_file_of_some f (ok file) found done = (file, found)
  load_file_of_some f (err e) found done = cc (rw (load_file, found) at done)

  merge_files-Plain :
      (files : List String) (acc : Merged)
      → all is_regular acc.resources ≡ true
      → FilesMakeNone files
      → Plain (merge_files T read acc files)
  unfolding merge_files add_header
  merge_files-Plain [] acc h plain = h
  merge_files-Plain (f ∷ fs) acc h plain = elim (Result-cases (load_file T read f)) [
    | inr (e, q) ↦ rw (merge_files, q) tt
    | inl (m, q) ↦
        let source = load_file_of_some f (read f) refl q in
        let regular = load_file-Regular f (source.1) (plain.0 (source.0) (source.1)) q in
        let added = add_resources-Plain m.resources (add_header acc m) h regular in
        elim (Result-cases (add_resources (add_header acc m) m.resources)) [
          | inr (e, p) ↦ rw (merge_files, q, p) tt
          | inl (next, p) ↦
              rw (merge_files, q, p) (merge_files-Plain fs next (rw p at added) (plain.1))
        ]
  ]

  merge_dir-Plain :
      (files : List String) (rs : List Resource)
      → FilesMakeNone files
      → all is_regular rs ≡ true
      → Plain (merge_dir T read files (ok rs))
  unfolding merge_dir
  merge_dir-Plain files rs plain regular =
      let merged = merge_files-Plain files nothing_merged refl plain in
      elim (Result-cases (merge_files T read nothing_merged files)) [
        | inr (e, q) ↦ rw (merge_dir, q) tt
        | inl (acc, q) ↦ rw (merge_dir, q) (add_resources-Plain rs acc (rw q at merged) regular)
      ]

  -- The manifest that loadDir returns has no two resources of the same kind and name, where no
  -- template in the files makes a definition and no skill of the directory tree is one.
  pub load_dir_distinct :
      (files : List String) (rs : List Resource) {out : Manifest}
      → FilesMakeNone files
      → all is_regular rs ≡ true
      → load_dir T read files (ok rs) ≡ ok out
      → are_distinct out.resources ≡ true
  unfolding load_dir
  load_dir_distinct files rs {out} plain regular done =
      let tracked = merge_dir-Tracked T read files (ok rs) in
      let kept = merge_dir-Plain files rs plain regular in
      elim (Result-cases (merge_dir T read files (ok rs))) [
        | inr (e, q) ↦ cc (rw (load_dir, q) at done)
        | inl (acc, q) ↦
            let same : ok (merged_manifest acc) ≡ ok out =
              sym (expand_composites_of_regular T (merged_manifest acc) (rw q at kept))
              ∙ rw (load_dir, q) at done in
            let distinct : are_distinct acc.resources ≡ true = (subst Tracked q tracked).distinct in
            subst DistinctManifest same distinct
      ]
