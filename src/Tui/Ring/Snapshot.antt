-- ===== src/Tui/Ring/Snapshot.antt =====
-- What a ring shows after any number of writes.
use native.Mathlib.Nat.{mod_self}
use gcplane.Base.{
  ℕ, zero, suc, ◌+◌, ◌-◌, ◌%◌, ◌<◌, ◌≤◌, List, [], ◌∷◌, ◌++◌, ◌≡◌, refl, sym, ap, ◌∙◌, length,
  length-append, arith, append-nil, append_assoc, leb, nat_eq, true, false, inl, inr, ◌≢◌, ◌⊎◌,
}
use gcplane.Tui.Ring.{
  Ring, set, take, drop, blanks, new_handler, new_store, handle, append, snapshot, handle_all,
  append_all,
}
use gcplane.Tui.Ring.Window.{
  Holds, filling, full, last, nothing_left, drop-length, take-length, length-blanks, handle-Holds,
  append-Holds, ltb_cases,
}

nat_eq_cases : (a b : ℕ) → ((nat_eq a b ≡ true) × (a ≡ b)) ⊎ ((nat_eq a b ≡ false) × (a ≢ b))
nat_eq_cases a b = ground arith

leb_cases : (a b : ℕ) → ((leb a b ≡ true) × (a ≤ b)) ⊎ ((leb a b ≡ false) × (b < a))
leb_cases a b = ground arith

module _ {ℓ} {A : Type ℓ} where
  length-set : (xs : List A) (i : ℕ) (e : A) → length (set xs i e) ≡ length xs
  unfolding set
  length-set [] i e = refl
  length-set (x ∷ xs) zero e = refl
  length-set (x ∷ xs) (suc i) e = ap suc (length-set xs i e)

  drop_all : (xs ys : List A) (n : ℕ) → n ≡ length xs → drop (xs ++ ys) n ≡ ys
  drop_all xs ys n same = rw same (drop-length xs ys)

  take_all : (xs ys : List A) (n : ℕ) → n ≡ length xs → take (xs ++ ys) n ≡ xs
  take_all xs ys n same = rw same (take-length xs ys)

  take_whole : (xs : List A) (n : ℕ) → n ≡ length xs → take xs n ≡ xs
  take_whole xs n same = rw (append-nil xs) at (take_all xs [] n same)

  none_dropped : (n : ℕ) (xs : List A) → length xs ≤ n → last n xs ≡ xs
  unfolding drop
  none_dropped n xs short = drop_all [] xs (length xs - n) (omega (arith, short))

  -- Which of its three results a snapshot gives.
  snapshot_cases :
      (r : Ring A)
      → ((r.pos ≡ 0) × (snapshot r ≡ []))
        ⊎ ((0 < r.pos) × (r.pos ≤ r.size) × (snapshot r ≡ take r.entries r.pos))
        ⊎ ((r.size < r.pos)
            × (snapshot r ≡ drop r.entries (r.pos % r.size) ++ take r.entries (r.pos % r.size)))
  unfolding snapshot
  snapshot_cases r = elim (nat_eq_cases r.pos 0) [
    | inl (test, none_yet) ↦ inl (none_yet, rw test refl)
    | inr (test, some_yet) ↦ elim (leb_cases r.pos r.size) [
      | inl (low, fits) ↦ inr (inl (omega (arith, some_yet), fits, rw (test, low) refl))
      | inr (high, over) ↦ inr (inr (over, rw (test, high) refl))
    ]
  ]

  snapshot_filling :
      (r : Ring A) (history rest : List A)
      → r.pos ≡ length history
      → r.entries ≡ history ++ rest
      → length history < r.size
      → snapshot r ≡ history
  snapshot_filling r history rest counted stored room = elim (snapshot_cases r) [
    | inl (none_yet, shown) ↦ shown ∙ sym (nothing_left history (omega (arith, none_yet, counted)))
    | inr (inl (some_yet, fits, shown)) ↦ shown ∙ rw stored (take_all history rest r.pos counted)
    | inr (inr (over, shown)) ↦ absurd (omega (arith, over, counted, room))
  ]

  snapshot_full :
      (r : Ring A) (dropped newer older : List A)
      → 0 < r.size
      → r.pos ≡ length (dropped ++ (older ++ newer))
      → r.entries ≡ newer ++ older
      → length newer ≡ r.pos % r.size
      → length newer + length older ≡ r.size
      → snapshot r ≡ older ++ newer
  snapshot_full r dropped newer older some_size counted stored at total = elim (snapshot_cases r) [
    | inl (none_yet, shown) ↦ absurd (omega (arith, none_yet, number, total, some_size))
    | inr (inl (some_yet, fits, shown)) ↦
        shown
        ∙ rw (stored, unmoved fits)
            (take_whole older r.pos (omega (arith, exact fits, total, ap length (unmoved fits)))
              ∙ sym (append-nil older))
    | inr (inr (over, shown)) ↦
        shown ∙ rw (stored, sym at) (rw (drop-length newer older, take-length newer older) refl)
  ]
    where
      number : r.pos ≡ length dropped + (length older + length newer)
      number =
          omega (arith, counted, length-append dropped (older ++ newer), length-append older newer)

      exact : r.pos ≤ r.size → r.pos ≡ r.size
      exact fits = omega (arith, fits, number, total)

      unmoved : r.pos ≤ r.size → newer ≡ []
      unmoved fits = nothing_left newer (at ∙ ap (λ i. i % r.size) (exact fits) ∙ mod_self r.size)

  last_full :
      (n : ℕ) (dropped shown : List A) → length shown ≡ n → last n (dropped ++ shown) ≡ shown
  unfolding drop
  last_full n dropped shown sized =
      drop_all dropped shown (length (dropped ++ shown) - n)
        (omega (arith, sized, length-append dropped shown))

  snapshot_lem :
      (r : Ring A) (history : List A)
      → 0 < r.size
      → r.pos ≡ length history
      → Holds r history
      → snapshot r ≡ last r.size history
  snapshot_lem r history some_size counted (filling rest stored room) =
      snapshot_filling r history rest counted stored room
      ∙ sym (none_dropped r.size history (omega (arith, room)))
  snapshot_lem r history some_size counted (full dropped newer older stored at total split) =
      snapshot_full r dropped newer older some_size (counted ∙ ap length split) stored at total
      ∙ sym (
          ap (last r.size) split
          ∙ last_full r.size dropped (older ++ newer)
              (omega (arith, length-append older newer, total)))

  handled :
      (r : Ring A) (history es : List A)
      → 0 < r.size
      → r.pos ≡ length history
      → length r.entries ≡ r.size
      → Holds r history
      → snapshot (handle_all r es) ≡ last r.size (history ++ es)
  unfolding handle_all handle
  handled r history [] some_size counted sized holds =
      snapshot_lem r history some_size counted holds ∙ ap (last r.size) (sym (append-nil history))
  handled r history (e ∷ es) some_size counted sized holds =
      handled (handle r e) (history ++ (e ∷ [])) es some_size
        (omega (arith, counted, length-append history (e ∷ [])))
        (length-set r.entries (r.pos % r.size) e ∙ sized)
        (handle-Holds r history e some_size counted sized holds)
      ∙ ap (last r.size) (append_assoc history (e ∷ []) es)

  length-entries :
      (r : Ring A) (e : A)
      → (r.pos < r.size → length r.entries ≡ r.pos)
      → r.pos + 1 < r.size
      → length (append r e).entries ≡ r.pos + 1
  unfolding append
  length-entries r e sized room = elim (ltb_cases r.pos r.size) [
    | inl (test, less) ↦ rw test (omega (arith, sized less, length-append r.entries (e ∷ [])))
    | inr (test, more) ↦ absurd (omega (arith, more, room))
  ]

  appended :
      (r : Ring A) (history es : List A)
      → 0 < r.size
      → r.pos ≡ length history
      → (r.pos < r.size → length r.entries ≡ r.pos)
      → Holds r history
      → snapshot (append_all r es) ≡ last r.size (history ++ es)
  unfolding append_all append
  appended r history [] some_size counted sized holds =
      snapshot_lem r history some_size counted holds ∙ ap (last r.size) (sym (append-nil history))
  appended r history (e ∷ es) some_size counted sized holds =
      appended (append r e) (history ++ (e ∷ [])) es some_size
        (omega (arith, counted, length-append history (e ∷ []))) (length-entries r e sized)
        (append-Holds r history e some_size counted sized holds)
      ∙ ap (last r.size) (append_assoc history (e ∷ []) es)

  pub append_all-last :
      (size : ℕ) (es : List A) → 0 < size → snapshot (append_all (new_store size) es) ≡ last size es
  unfolding new_store
  append_all-last size es some_size =
      appended (new_store size) [] es some_size refl (λ _. refl) (filling [] refl some_size)

  -- After any sequence of records, the snapshot of a new log ring of a size above zero is the list
  -- of the last records that fit in it, in the order of their arrival.
  pub snapshot-handle_all :
      (blank : A) (size : ℕ) (es : List A)
      → 0 < size
      → snapshot (handle_all (new_handler blank size) es) ≡ last size es
  unfolding new_handler
  snapshot-handle_all blank size es some_size =
      handled (new_handler blank size) [] es some_size refl (length-blanks blank size)
        (filling (blanks blank size) refl some_size)

  -- After any sequence of entries, the snapshot of a new store's ring of a capacity above zero is
  -- the one that a log ring of the same size shows.
  snapshot-append_all :
      (blank : A) (size : ℕ) (es : List A)
      → 0 < size
      → snapshot (append_all (new_store size) es)
        ≡ snapshot (handle_all (new_handler blank size) es)
  snapshot-append_all blank size es some_size =
      append_all-last size es some_size ∙ sym (snapshot-handle_all blank size es some_size)
