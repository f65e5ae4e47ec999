-- ===== src/Tui/Traces/Details.antt =====
-- What the detail view can show while selections and refreshes interleave.
use mathlib.Core.Path.{subst}
use text.Mathlib.TextEquality.{eq_iff}
use gcplane.Base.{
  String, Bool, true, ◌≡◌, refl, ◌⊎◌, inl, inr, Option, none, List, [], ◌++◌, sym, ◌==◌, Bool-cases,
}
use gcplane.Tui.Traces.{
  TraceStore, Server, new_trace_store, select_trace, store_detail, Step, notify_trace_updated,
  notify_detail_dirty, filter, select, claim, ask_list, answer_list, fail_list, leave, ask_detail,
  answer_detail, fail_detail, Reaches, here, next, set_filters,
}

module _ {Trace Span Node : Type 0} (server : Server Trace Span Node) where
  -- Nothing is shown, and the detail is to be fetched if a trace is selected.
  pub record IsBlank (id : String) (data_shown : Option Trace) (spans : List Span)
      (tree : List Node) (dirty : Bool) : Type 0 where
    pub no_data : data_shown ≡ none
    pub no_spans : spans ≡ []
    pub no_tree : tree ≡ []
    pub due : (dirty ≡ true) ⊎ (id ≡ "")

  -- What is shown is an answer to the request for the selected trace.
  pub record IsAnswered (id : String) (data_shown : Option Trace) (spans : List Span)
      (tree : List Node) : Type 0 where
    pub answer : server.Gets id data_shown spans
    pub built : tree ≡ server.build_span_tree spans

  abbrev pub Shows : TraceStore Trace Span Node → Type 0
  Shows s =
      IsBlank s.selected_id s.selected_data s.spans s.span_tree s.detail_dirty
      ⊎ IsAnswered s.selected_id s.selected_data s.spans s.span_tree

  notified : (s : TraceStore Trace Span Node) → Shows s → Shows (record s { detail_dirty = true })
  notified s (inl b) =
      inl
        (record { no_data = b.no_data; no_spans = b.no_spans; no_tree = b.no_tree; due = inl refl })
  notified s (inr a) = inr a

  selected : (s : TraceStore Trace Span Node) (id : String) → Shows s → Shows (select_trace s id)
  unfolding select_trace
  selected s id shows = elim (Bool-cases (s.selected_id == id)) [
    | inl same ↦ rw same shows
    | inr other ↦
        rw other (inl (record { no_data = refl; no_spans = refl; no_tree = refl; due = inl refl }))
  ]

  stored :
      (s : TraceStore Trace Span Node) (id : String) (trace : Option Trace) (spans : List Span)
      → server.Gets id trace spans
      → Shows s
      → Shows (store_detail server s id trace spans)
  unfolding store_detail
  stored s id trace spans answer shows = elim (Bool-cases (s.selected_id == id)) [
    | inl same ↦ rw same (
        inr (record {
          answer =
              subst (λ i. server.Gets i trace spans) (sym ((eq_iff s.selected_id id).0 same))
                answer;
          built = refl;
        }))
    | inr other ↦ rw other shows
  ]

  Step-Shows : (p q : TraceStore Trace Span Node) → Step server p q → Shows p → Shows q
  unfolding set_filters
  Step-Shows p _ notify_trace_updated shows = shows
  Step-Shows p _ notify_detail_dirty shows = notified p shows
  Step-Shows p _ (filter f) shows = shows
  Step-Shows p _ (select id) shows = selected p id shows
  Step-Shows p _ (claim free) shows = shows
  Step-Shows p _ (ask_list xs ys at) shows = shows
  Step-Shows p _ (answer_list xs ys f traces total at answer) shows = shows
  Step-Shows p _ (fail_list xs ys f at) shows = shows
  Step-Shows p _ (leave xs ys at) shows = shows
  Step-Shows p _ (ask_detail some_id) shows = shows
  Step-Shows p _ (answer_detail xs ys id trace spans at answer) shows =
      stored (record p { requested = xs ++ ys }) id trace spans answer shows
  Step-Shows p _ (fail_detail xs ys id at) shows = shows

  -- In every state that the interface and its goroutines reach, the detail view shows GoClaw's
  -- answer for the selected trace, with the tree built of the answer's spans, or it shows nothing
  -- and the detail is marked for a refresh unless no trace is selected.
  pub detail_shown :
      (s : TraceStore Trace Span Node)
      → Reaches server new_trace_store s
      → IsBlank s.selected_id s.selected_data s.spans s.span_tree s.detail_dirty
        ⊎ IsAnswered s.selected_id s.selected_data s.spans s.span_tree
  unfolding new_trace_store
  detail_shown _ here =
      inl (record { no_data = refl; no_spans = refl; no_tree = refl; due = inr refl })
  detail_shown s (next {q = q} before step) = Step-Shows q s step (detail_shown q before)
