-- ===== src/Tui/Traces/Fetches.antt =====
-- The list's refreshes exclude each other.
use gcplane.Base.{
  Bool, true, false, ◌≡◌, refl, sym, ◌∙◌, ap, ◌⊎◌, inl, inr, List, [], ◌∷◌, ◌++◌, ◌==◌, Bool-cases,
}
use gcplane.Tui.Traces.{
  Refresh, claimed, asking, leaving, TraceStore, Server, new_trace_store, select_trace,
  store_detail, Step, notify_trace_updated, notify_detail_dirty, filter, select, claim, ask_list,
  answer_list, fail_list, leave, ask_detail, answer_detail, fail_detail, Reaches, here, next,
  set_filters,
}

only :
    (x y : Refresh) (before after : List Refresh)
    → x ∷ [] ≡ before ++ y ∷ after
    → (before ≡ []) × (after ≡ [])
only x y [] [] split = (refl, refl)
only x y [] (z ∷ after) split = cc
only x y (z ∷ []) after split = cc
only x y (z ∷ w ∷ before) after split = cc

none_of : (y : Refresh) (before after : List Refresh) → [] ≡ before ++ y ∷ after → ⊥
none_of y [] after split = cc
none_of y (z ∷ before) after split = cc

-- No call goes on and the flag is down, or one call goes on and the flag is up.
abbrev pub Excludes : List Refresh → Bool → Type 0
Excludes refreshes fetching =
    ((refreshes ≡ []) × (fetching ≡ false))
    ⊎ ((r : Refresh) × (refreshes ≡ r ∷ []) × (fetching ≡ true))

moved :
    (refreshes before after : List Refresh) (fetching : Bool) (old new : Refresh)
    → refreshes ≡ before ++ old ∷ after
    → Excludes refreshes fetching
    → Excludes (before ++ new ∷ after) fetching
moved refreshes before after fetching old new at (inl (empty, down)) =
    absurd (none_of old before after (sym empty ∙ at))
moved refreshes before after fetching old new at (inr (r, single, up)) =
    let ends = only r old before after (sym single ∙ at) in
    inr (new, ap (λ xs. xs ++ new ∷ after) ends.0 ∙ ap (λ xs. new ∷ xs) ends.1, up)

left :
    (refreshes before after : List Refresh) (fetching : Bool) (old : Refresh)
    → refreshes ≡ before ++ old ∷ after
    → Excludes refreshes fetching
    → Excludes (before ++ after) false
left refreshes before after fetching old at (inl (empty, down)) =
    absurd (none_of old before after (sym empty ∙ at))
left refreshes before after fetching old at (inr (r, single, up)) =
    let ends = only r old before after (sym single ∙ at) in
    inl (ap (λ xs. xs ++ after) ends.0 ∙ ends.1, refl)

claimed_one :
    (refreshes : List Refresh) (fetching : Bool)
    → fetching ≡ false
    → Excludes refreshes fetching
    → Excludes (claimed ∷ refreshes) true
claimed_one refreshes fetching free (inl (empty, down)) =
    inr (claimed, ap (λ xs. claimed ∷ xs) empty, refl)
claimed_one refreshes fetching free (inr (r, single, up)) = cc

module _ {Trace Span Node : Type 0} (server : Server Trace Span Node) where
  Step-Excludes :
      (p q : TraceStore Trace Span Node)
      → Step server p q
      → Excludes p.refreshes p.fetching
      → Excludes q.refreshes q.fetching
  unfolding set_filters select_trace store_detail
  Step-Excludes p _ notify_trace_updated one = one
  Step-Excludes p _ notify_detail_dirty one = one
  Step-Excludes p _ (filter f) one = one
  Step-Excludes p _ (select id) one = elim (Bool-cases (p.selected_id == id)) [
    | inl e ↦ rw e one
    | inr e ↦ rw e one
  ]
  Step-Excludes p _ (claim free) one = claimed_one p.refreshes p.fetching free one
  Step-Excludes p _ (ask_list xs ys at) one =
      moved p.refreshes xs ys p.fetching claimed (asking p.filters) at one
  Step-Excludes p _ (answer_list xs ys f traces total at answer) one =
      moved p.refreshes xs ys p.fetching (asking f) leaving at one
  Step-Excludes p _ (fail_list xs ys f at) one =
      moved p.refreshes xs ys p.fetching (asking f) leaving at one
  Step-Excludes p _ (leave xs ys at) one = left p.refreshes xs ys p.fetching leaving at one
  Step-Excludes p _ (ask_detail some_id) one = one
  Step-Excludes p _ (answer_detail xs ys id trace spans at answer) one =
      elim (Bool-cases (p.selected_id == id)) [ inl e ↦ rw e one | inr e ↦ rw e one ]
  Step-Excludes p _ (fail_detail xs ys id at) one = one

  -- In every state that the interface and its goroutines reach, at most one call of RefreshList
  -- goes on, and the flag is up exactly while one does.
  pub single_fetch :
      (s : TraceStore Trace Span Node)
      → Reaches server new_trace_store s
      → ((s.refreshes ≡ []) × (s.fetching ≡ false))
        ⊎ ((r : Refresh) × (s.refreshes ≡ r ∷ []) × (s.fetching ≡ true))
  unfolding new_trace_store
  single_fetch _ here = inl (refl, refl)
  single_fetch s (next {q = q} before step) = Step-Excludes q s step (single_fetch q before)
