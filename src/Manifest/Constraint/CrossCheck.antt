-- ===== src/Manifest/Constraint/CrossCheck.antt =====
-- What the check against the installed binaries finds, and how it fits the check of the spec.
use mathlib.Core.Bool.{true≢false}
use gcplane.Base.{
  String, Bool, true, false, not, ◌&&◌, ◌≡◌, refl, sym, ◌∙◌, ap, Option, none, some, List, [], ◌∷◌,
  ◌++◌, append_assoc, append-nil, if◌then◌else◌, Bool-cases, Option-cases, inl, inr,
}
use gcplane.Base.Dict
use gcplane.Base.Dict.{Dict}
use gcplane.Spec.{Value, string, Fields, end, field, get, as_object}
use gcplane.Manifest.Constraint.{
  Semver, validate_cli_constraint_shape, CrossError, Finding, satisfied, unregistered, failed,
  wanted, normalize_semver, compare_installed, check_binary, cross_check_from,
  cross_check_requires_cli, cli_of,
}

abbrev pub is_none {ℓ} : {A : Type ℓ} → Option A → Bool
is_none none = true
is_none (some a) = false

module _ (semver : Semver) (installed : Dict String) where
  -- A version that is installed is not older than the constraint's, and nothing is asked where
  -- none is.
  abbrev pub is_recent : String → Option String → Bool
  unfolding wanted normalize_semver
  is_recent constraint none = true
  is_recent constraint (some got) = not (semver.is_older (normalize_semver got) (wanted constraint))

  -- A constraint is a text of the supported shape that the installed version satisfies.
  abbrev pub is_satisfied : String → Value → Bool
  unfolding Dict.get validate_cli_constraint_shape
  is_satisfied binary (string constraint) =
      is_none (validate_cli_constraint_shape semver constraint)
      && is_recent constraint (Dict.get installed binary)
  is_satisfied binary _ = false

  abbrev pub are_satisfied : Fields → Bool
  are_satisfied end = true
  are_satisfied (field binary raw cli) = is_satisfied binary raw && are_satisfied cli

  -- The binaries that are not registered.
  abbrev pub missing : Fields → List String
  unfolding Dict.get
  missing end = []
  missing (field binary raw cli) =
      let rest = missing cli in if is_none (Dict.get installed binary) then binary ∷ rest else rest

  -- The three outcomes of one constraint, and what they say of it.
  data IsOutcome (binary : String) (raw : Value) : Finding → Type 0 where
    recent :
        is_satisfied binary raw ≡ true
        → is_none (Dict.get installed binary) ≡ false
        → IsOutcome binary raw satisfied
    absent :
        is_satisfied binary raw ≡ true
        → is_none (Dict.get installed binary) ≡ true
        → IsOutcome binary raw unregistered
    refused : (e : CrossError) → is_satisfied binary raw ≡ false → IsOutcome binary raw (failed e)

  compare_installed-IsOutcome :
      (binary constraint : String)
      → validate_cli_constraint_shape semver constraint ≡ none
      → IsOutcome binary
          (string constraint)
          (compare_installed semver binary constraint (Dict.get installed binary))
  unfolding compare_installed is_satisfied
  compare_installed-IsOutcome binary constraint shape =
      elim (Option-cases (Dict.get installed binary)) [
        | inl gone ↦ rw (compare_installed, gone) (absent (rw (shape, gone) refl) (rw gone refl))
        | inr (got, there) ↦
            elim (Bool-cases (semver.is_older (normalize_semver got) (wanted constraint))) [
              | inl old ↦
                  rw (compare_installed, there, old) (refused _ (rw (shape, there, old) refl))
              | inr new ↦
                  rw (compare_installed, there, new)
                    (recent (rw (shape, there, new) refl) (rw there refl))
            ]
      ]

  check_binary-IsOutcome :
      (binary : String) (raw : Value)
      → IsOutcome binary raw (check_binary semver installed binary raw)
  unfolding check_binary is_satisfied
  check_binary-IsOutcome binary (string constraint) =
      elim (Option-cases (validate_cli_constraint_shape semver constraint)) [
        | inl shape ↦ rw (check_binary, shape) (compare_installed-IsOutcome binary constraint shape)
        | inr (e, shape) ↦ rw (check_binary, shape) (refused _ (rw shape refl))
      ]
  check_binary-IsOutcome binary raw = refused _ refl

  abbrev Checked : List String → Fields → Type 0
  Checked warnings cli =
      (are_satisfied cli ≡ true
        → cross_check_from semver installed warnings cli ≡ (warnings ++ missing cli, none))
      × (are_satisfied cli ≡ false
          → (e : CrossError) × ((cross_check_from semver installed warnings cli).1 ≡ some e))

  -- One constraint, by its outcome, given the claim for those after it.
  cross_check_from-field :
      (binary : String) (raw : Value) (cli : Fields) (warnings : List String) (f : Finding)
      → ((ws : List String) → Checked ws cli)
      → IsOutcome binary raw f
      → check_binary semver installed binary raw ≡ f
      → Checked warnings (field binary raw cli)
  unfolding cross_check_from
  cross_check_from-field binary raw cli ws satisfied rest (recent ok there) eq =
      rw (cross_check_from, eq, ok, there) (rest ws)
  cross_check_from-field binary raw cli ws unregistered rest (absent ok gone) eq =
      rw (cross_check_from, eq, ok, gone)
        (
          λ h.
              (rest (ws ++ binary ∷ [])).0 h
              ∙ ap (λ w. (w, none)) (append_assoc ws (binary ∷ []) (missing cli)),
          (rest (ws ++ binary ∷ [])).1,
        )
  cross_check_from-field binary raw cli ws (failed _) rest (refused e bad) eq =
      rw (cross_check_from, eq, bad) (λ h. absurd (true≢false (sym h)), λ h. (e, refl))

  cross_check_from-Checked : (cli : Fields) (warnings : List String) → Checked warnings cli
  unfolding cross_check_from
  cross_check_from-Checked end warnings =
      (λ h. ap (λ w. (w, none)) (sym (append-nil warnings)), λ h. absurd (true≢false h))
  cross_check_from-Checked (field binary raw cli) warnings =
      cross_check_from-field binary raw cli warnings (check_binary semver installed binary raw)
        (cross_check_from-Checked cli) (check_binary-IsOutcome binary raw) refl

  -- Where every constraint is a text of the supported shape that the installed version, if there is
  -- one, is not older than, CrossCheckRequiresCli ends without an error, and warns of the binaries
  -- that are not installed, each in its order.
  pub cross_check_requires_cli_accepts :
      (spec : Fields)
      → are_satisfied (cli_of (as_object (get spec "requires"))) ≡ true
      → cross_check_requires_cli semver spec installed
        ≡ (missing (cli_of (as_object (get spec "requires"))), none)
  unfolding cross_check_requires_cli
  cross_check_requires_cli_accepts spec h =
      (cross_check_from-Checked (cli_of (as_object (get spec "requires"))) []).0 h

  -- Where some constraint is not such a text, CrossCheckRequiresCli ends with an error.
  pub cross_check_requires_cli_refuses :
      (spec : Fields)
      → are_satisfied (cli_of (as_object (get spec "requires"))) ≡ false
      → (e : CrossError) × ((cross_check_requires_cli semver spec installed).1 ≡ some e)
  unfolding cross_check_requires_cli
  cross_check_requires_cli_refuses spec h =
      (cross_check_from-Checked (cli_of (as_object (get spec "requires"))) []).1 h
