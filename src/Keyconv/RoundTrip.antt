-- ===== src/Keyconv/RoundTrip.antt =====
-- Which keys come back from snake_case as they were.
use Prim.Native.Char.{Char, code}
use Prim.Native.String.append
use text.Mathlib.TextLemmas.{append-nil}
use gcplane.Base.{
  String, true, false, ◌||◌, ◌≡◌, refl, sym, ap, ◌∙◌, List, [], ◌∷◌, ◌==◌, nat_eq, eq_iff, arith,
  Bool-cases, inl, inr,
}
use gcplane.Base.Text.{split, on_head}
use gcplane.Keyconv.{
  Unicode, underscore, has_char, boundary, camel_to_snake_after, snake_of_camel, capitalized,
  join_capitalized, join_parts, camel_of_snake,
}

module _ (U : Unicode) where
  -- A character that camelToSnake leaves, and one that it lowers and snakeToCamel raises again.
  pub record IsSmall (c : Char) : Type 0 where
    pub plain : U.is_upper c ≡ false
    pub same : U.to_lower c ≡ c
    pub no_underscore : nat_eq (code c) b'_' ≡ false

  pub record IsLarge (c : Char) : Type 0 where
    pub upper : U.is_upper c ≡ true
    pub raised : U.to_upper (U.to_lower c) ≡ c
    pub no_underscore : nat_eq (code (U.to_lower c)) b'_' ≡ false

  -- camelCase after a character: each capital follows a lowercase letter or a digit.
  pub data IsCamelAfter : Char → String → Type 0 where
    done : {prev : Char} → IsCamelAfter prev ""
    small :
        {prev c : Char} {s : String}
        → IsSmall c
        → IsCamelAfter c s
        → IsCamelAfter prev (String.◌∷◌ c s)
    large :
        {prev c : Char} {s : String}
        → (U.is_lower prev || U.is_digit prev) ≡ true
        → IsLarge c
        → IsCamelAfter c s
        → IsCamelAfter prev (String.◌∷◌ c s)

  join_on_head :
      (c : Char) (parts : List String)
      → join_parts U (on_head c parts) ≡ String.◌∷◌ c (join_parts U parts)
  unfolding join_parts on_head
  join_on_head c [] = append.cons c "" ""
  join_on_head c (p ∷ ps) = append.cons c p (join_capitalized U ps)

  capitalized_on_head :
      (c : Char) (parts : List String)
      → join_capitalized U (on_head c parts) ≡ String.◌∷◌ (U.to_upper c) (join_parts U parts)
  unfolding join_parts join_capitalized capitalized on_head
  capitalized_on_head c [] = append.cons (U.to_upper c) "" ""
  capitalized_on_head c (p ∷ ps) = append.cons (U.to_upper c) p (join_capitalized U ps)

  split_whole : (s : String) → has_char b'_' s ≡ false → split b'_' s ≡ s ∷ []
  unfolding split has_char
  split_whole String.[] none_there = refl
  split_whole (String.◌∷◌ c s) none_there = ground (arith, none_there, split_whole s)

  -- The early return gives what the loop would give.
  camel_of_snake-join_parts : (s : String) → camel_of_snake U s ≡ join_parts U (split b'_' s)
  unfolding camel_of_snake join_parts join_capitalized split
  camel_of_snake-join_parts s = elim (Bool-cases (s == "")) [
    | inl empty ↦ rw ((eq_iff s "").0 empty) (sym (append.nil ""))
    | inr filled ↦ elim (Bool-cases (has_char b'_' s)) [
      | inl some_there ↦ rw (filled, some_there) refl
      | inr none_there ↦ rw (filled, none_there, split_whole s none_there) (sym (append-nil s))
    ]
  ]

  split_other :
      (c : Char) (s : String)
      → nat_eq (code c) b'_' ≡ false
      → split b'_' (String.◌∷◌ c s) ≡ on_head c (split b'_' s)
  unfolding split
  split_other c s other = rw other refl

  lower-small :
      (prev c : Char) (s : String)
      → IsSmall c
      → camel_to_snake_after U prev (String.◌∷◌ c s) ≡ String.◌∷◌ c (camel_to_snake_after U c s)
  unfolding camel_to_snake_after boundary
  lower-small prev c s h = rw (h.plain, h.same) refl

  lower-large :
      (prev c : Char) (s : String)
      → (U.is_lower prev || U.is_digit prev) ≡ true
      → IsLarge c
      → camel_to_snake_after U prev (String.◌∷◌ c s)
        ≡ String.◌∷◌ underscore (String.◌∷◌ (U.to_lower c) (camel_to_snake_after U c s))
  unfolding camel_to_snake_after boundary
  lower-large prev c s after h = rw (h.upper, after) refl

  join-split :
      (prev : Char) (s : String)
      → IsCamelAfter prev s
      → join_parts U (split b'_' (camel_to_snake_after U prev s)) ≡ s
  unfolding join_parts split camel_to_snake_after
  join-split prev _ done = append.nil ""
  join-split prev _ (small {c} {s} h rest) =
      ap (λ t. join_parts U (split b'_' t)) (lower-small prev c s h)
      ∙ ap (join_parts U) (split_other c (camel_to_snake_after U c s) h.no_underscore)
      ∙ join_on_head c (split b'_' (camel_to_snake_after U c s))
      ∙ ap (String.◌∷◌ c) (join-split c s rest)
  join-split prev _ (large {c} {s} after h rest) =
      ap (λ t. join_parts U (split b'_' t)) (lower-large prev c s after h)
      ∙ append.nil
          (join_capitalized U (split b'_' (String.◌∷◌ (U.to_lower c) (camel_to_snake_after U c s))))
      ∙ ap (join_capitalized U)
          (split_other (U.to_lower c) (camel_to_snake_after U c s) h.no_underscore)
      ∙ capitalized_on_head (U.to_lower c) (split b'_' (camel_to_snake_after U c s))
      ∙ rw (h.raised, join-split c s rest) refl

  -- A key in camelCase comes back from snake_case as it was, where the first character is small,
  -- each capital follows a lowercase letter or a digit, and each capital is the raised form of its
  -- lowered form; it has no underscore.
  pub camel_of_snake-snake_of_camel :
      (c : Char) (s : String)
      → IsSmall c
      → IsCamelAfter c s
      → camel_of_snake U (snake_of_camel U (String.◌∷◌ c s)) ≡ String.◌∷◌ c s
  unfolding snake_of_camel
  camel_of_snake-snake_of_camel c s h rest =
      camel_of_snake-join_parts (String.◌∷◌ (U.to_lower c) (camel_to_snake_after U c s))
      ∙ rw h.same (ap (join_parts U) (split_other c (camel_to_snake_after U c s) h.no_underscore))
      ∙ join_on_head c (split b'_' (camel_to_snake_after U c s))
      ∙ ap (String.◌∷◌ c) (join-split c s rest)
