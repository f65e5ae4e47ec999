-- ===== src/Tui/Ring/Window.antt =====
-- A ring shows the last entries that it received.
use gcplane.Base.{
  ℕ, zero, suc, ◌+◌, ◌-◌, ◌%◌, ◌<◌, ◌≤◌, List, [], ◌∷◌, ◌++◌, ◌≡◌, refl, sym, ap, ◌∙◌, length,
  length-append, arith, append-nil, append_assoc, ltb, true, false, inl, inr, ◌⊎◌,
}
use native.Mathlib.Numerals.{unary_clauses}
use native.Mathlib.Nat.{mod-lt, mod-eq_of_lt, mod_self, suc-mod, eq-or-lt_of_le}
use gcplane.Tui.Ring.{Ring, set, take, drop, blanks, handle, append}

-- The write position goes on by one, or back to the front.
step_cases :
    (p s : ℕ)
    → 0 < s
    → (((p + 1) % s ≡ p % s + 1) × (p % s + 1 < s)) ⊎ (((p + 1) % s ≡ 0) × (p % s + 1 ≡ s))
step_cases p s pos = elim (eq-or-lt_of_le fits) [
  | inr before ↦ inl (next ∙ mod-eq_of_lt before, before)
  | inl at_end ↦ inr (next ∙ ap (λ i. i % s) at_end ∙ mod_self s, at_end)
]
  where
    next : (p + 1) % s ≡ (p % s + 1) % s
    next = simp unary_clauses (suc-mod p s)

    fits : p % s + 1 ≤ s
    fits = omega (arith, mod-lt p pos)

pub ltb_cases : (a b : ℕ) → ((ltb a b ≡ true) × (a < b)) ⊎ ((ltb a b ≡ false) × (b ≤ a))
ltb_cases a b = ground arith

module _ {ℓ} {A : Type ℓ} where
  set-length : (xs ys : List A) (x e : A) → set (xs ++ (x ∷ ys)) (length xs) e ≡ xs ++ (e ∷ ys)
  unfolding set
  set-length [] ys x e = refl
  set-length (z ∷ xs) ys x e = ap (◌∷◌ z) (set-length xs ys x e)

  pub take-length : (xs ys : List A) → take (xs ++ ys) (length xs) ≡ xs
  unfolding take
  take-length [] ys = refl
  take-length (x ∷ xs) ys = ap (◌∷◌ x) (take-length xs ys)

  pub drop-length : (xs ys : List A) → drop (xs ++ ys) (length xs) ≡ ys
  unfolding drop
  drop-length [] ys = refl
  drop-length (x ∷ xs) ys = drop-length xs ys

  pub length-blanks : (e : A) (n : ℕ) → length (blanks e n) ≡ n
  unfolding blanks
  length-blanks e zero = refl
  length-blanks e (suc n) = ap suc (length-blanks e n)

  pub nothing_left : (xs : List A) → length xs ≡ 0 → xs ≡ []
  nothing_left [] e = refl
  nothing_left (x ∷ xs) e = absurd (omega (arith, e))

  -- The last `n` of a list.
  abbrev pub last : ℕ → List A → List A
  unfolding drop
  last n xs = drop xs (length xs - n)

  -- How a ring stores its history. While it fills, the history stands at the front; from then on the
  -- write position splits the entries into the newer and the older ones.
  pub data Holds (r : Ring A) (history : List A) : Type ℓ where
    filling :
        (rest : List A) → r.entries ≡ history ++ rest → length history < r.size → Holds r history
    full :
        (dropped newer older : List A)
        → r.entries ≡ newer ++ older
        → length newer ≡ r.pos % r.size
        → length newer + length older ≡ r.size
        → history ≡ dropped ++ (older ++ newer)
        → Holds r history

  -- A write in a full ring takes the place of the oldest entry.
  overwrite :
      (r : Ring A) (history dropped newer older : List A) (e : A)
      → 0 < r.size
      → r.entries ≡ newer ++ older
      → length newer ≡ r.pos % r.size
      → length newer + length older ≡ r.size
      → history ≡ dropped ++ (older ++ newer)
      → Holds (handle r e) (history ++ (e ∷ []))
  unfolding handle
  overwrite r history dropped newer [] e some_size stored at sized split =
      absurd (omega (arith, mod-lt r.pos some_size, append-nil newer))
  overwrite r history dropped newer (o ∷ older) e some_size stored at sized split =
      elim (step_cases r.pos r.size some_size) [
        | inl (next, inside) ↦
            full (dropped ++ (o ∷ [])) (newer ++ (e ∷ [])) older
              (written ∙ sym (append_assoc newer (e ∷ []) older))
              (omega (arith, length-append newer (e ∷ []), next, at))
              (omega (arith, length-append newer (e ∷ []), sized)) later
        | inr (next, outside) ↦
            full (dropped ++ (o ∷ [])) [] (newer ++ (e ∷ []))
              (written ∙ ap (λ rest. newer ++ (e ∷ rest)) (gone outside)) (sym next)
              (omega (arith, length-append newer (e ∷ []), outside, at))
              (later ∙ rw (gone outside, append-nil (newer ++ (e ∷ []))) refl)
      ]
    where
      gone : r.pos % r.size + 1 ≡ r.size → older ≡ []
      gone outside = nothing_left older (omega (arith, outside, sized, at))

      written : set r.entries (r.pos % r.size) e ≡ newer ++ (e ∷ older)
      written = rw (stored, sym at) (set-length newer older o e)

      later : history ++ (e ∷ []) ≡ (dropped ++ (o ∷ [])) ++ (older ++ (newer ++ (e ∷ [])))
      later = rw (split) (simp append_assoc)

  -- A write behind the history while the ring fills: it fills on, or it is full from now on.
  fill :
      (r : Ring A) (history rest : List A) (e : A) (entries : List A)
      → 0 < r.size
      → r.pos ≡ length history
      → length history < r.size
      → entries ≡ (history ++ (e ∷ [])) ++ rest
      → (length history + 1 ≡ r.size → rest ≡ [])
      → Holds (record r { entries = entries; pos = r.pos + 1 }) (history ++ (e ∷ []))
  fill r history rest e entries some_size counted room stored exact = elim (eq-or-lt_of_le fits) [
    | inr less ↦ filling rest stored less
    | inl last_one ↦
        full [] [] (history ++ (e ∷ []))
          (stored ∙ rw (exact (omega (arith, last_one, size))) (append-nil (history ++ (e ∷ []))))
          (sym (ap (λ i. i % r.size) (omega (arith, size, counted, last_one)) ∙ mod_self r.size))
          (omega (arith, last_one)) (sym (append-nil (history ++ (e ∷ []))))
  ]
    where
      size : length (history ++ (e ∷ [])) ≡ length history + 1
      size = omega (arith, length-append history (e ∷ []))

      fits : length (history ++ (e ∷ [])) ≤ r.size
      fits = omega (arith, size, room)

  pub handle-Holds :
      (r : Ring A) (history : List A) (e : A)
      → 0 < r.size
      → r.pos ≡ length history
      → length r.entries ≡ r.size
      → Holds r history
      → Holds (handle r e) (history ++ (e ∷ []))
  unfolding handle
  handle-Holds r history e some_size counted sized
        (full dropped newer older stored at total split) =
      overwrite r history dropped newer older e some_size stored at total split
  handle-Holds r history e some_size counted sized (filling [] stored room) =
      absurd (omega (arith, room, counted, sized, rw (append-nil history) at (ap length stored)))
  handle-Holds r history e some_size counted sized (filling (x ∷ rest) stored room) =
      fill r history rest e (set r.entries (r.pos % r.size) e) some_size counted room
        (rw (stored, counted, mod-eq_of_lt room)
          (set-length history rest x e ∙ sym (append_assoc history (e ∷ []) rest)))
        (λ exact.
          nothing_left rest
            (omega (arith, exact, sized, ap length stored, length-append history (x ∷ rest))))

  pub append-Holds :
      (r : Ring A) (history : List A) (e : A)
      → 0 < r.size
      → r.pos ≡ length history
      → (r.pos < r.size → length r.entries ≡ r.pos)
      → Holds r history
      → Holds (append r e) (history ++ (e ∷ []))
  unfolding append handle
  append-Holds r history e some_size counted sized holds = elim (ltb_cases r.pos r.size) [
    | inl (test, less) ↦ rw test (
        fill r history [] e (r.entries ++ (e ∷ [])) some_size counted (omega (arith, less, counted))
          (rw (none_left less holds) (sym (append-nil (history ++ (e ∷ []))))) (λ _. refl))
    | inr (test, more) ↦ rw test (spill more holds)
  ]
    where
      none_left : r.pos < r.size → Holds r history → r.entries ≡ history
      none_left less (full dropped newer older stored at total split) =
          absurd
            (omega (arith, less, sized less, ap length stored, length-append newer older, total))
      none_left less (filling [] stored room) = rw (append-nil history) at stored
      none_left less (filling (x ∷ rest) stored room) =
          absurd
            (omega (arith, sized less, ap length stored, counted, length-append history (x ∷ rest)))

      spill : r.size ≤ r.pos → Holds r history → Holds (handle r e) (history ++ (e ∷ []))
      spill more (full dropped newer older stored at total split) =
          overwrite r history dropped newer older e some_size stored at total split
      spill more (filling rest stored room) = absurd (omega (arith, room, more, counted))
