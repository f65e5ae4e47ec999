-- ===== src/Tests/Traces.antt =====
-- The trace store when the selection changes during a refresh.
use gcplane.Base.{String, true, false, ◌≡◌, refl, ◌⊎◌, some, [], ◌∷◌}
use gcplane.Tui.Traces.{
  Refresh, claimed, TraceStore, Server, new_trace_store, select_trace, store_detail, Reaches, here,
  next, select, claim, ask_detail, answer_detail,
}
use gcplane.Tui.Traces.Details.{IsBlank, IsAnswered, detail_shown}
use gcplane.Tui.Traces.Fetches.{single_fetch}

-- GoClaw answers a request for a trace with its id and one span of that name.
abbrev echo : Server String String String
echo = record {
  Lists = λ f traces total. traces ≡ [];
  Gets = λ id trace spans. (trace ≡ some id) × (spans ≡ id ∷ []);
  build_span_tree = λ spans. spans;
}

-- "a" is selected and requested, "b" is selected, and both answers arrive.
abbrev requested_a : TraceStore String String String
requested_a = record (select_trace new_trace_store "a") { requested = "a" ∷ [] }

abbrev requested_both : TraceStore String String String
requested_both = record (select_trace requested_a "b") { requested = "b" ∷ "a" ∷ [] }

abbrev late_answer : TraceStore String String String
late_answer =
    store_detail echo (record requested_both { requested = "b" ∷ [] }) "a" (some "a") ("a" ∷ [])

abbrev both_answers : TraceStore String String String
both_answers = store_detail echo (record late_answer { requested = [] }) "b" (some "b") ("b" ∷ [])

late_reached : Reaches echo new_trace_store late_answer
unfolding select_trace new_trace_store
late_reached =
    next
      (next (next (next (next here (select "a")) (ask_detail refl)) (select "b")) (ask_detail refl))
      (answer_detail ("b" ∷ []) [] "a" (some "a") ("a" ∷ []) refl (refl, refl))

both_reached : Reaches echo new_trace_store both_answers
unfolding select_trace new_trace_store store_detail
both_reached = next late_reached (answer_detail [] [] "b" (some "b") ("b" ∷ []) refl (refl, refl))

late_answer_dropped : late_answer.spans ≡ []
unfolding select_trace new_trace_store store_detail
late_answer_dropped = refl

right_answer_shown : both_answers.spans ≡ "b" ∷ []
unfolding select_trace new_trace_store store_detail
right_answer_shown = refl

detail_shown_example :
    IsBlank echo both_answers.selected_id both_answers.selected_data both_answers.spans
      both_answers.span_tree both_answers.detail_dirty
    ⊎ IsAnswered echo both_answers.selected_id both_answers.selected_data both_answers.spans
        both_answers.span_tree
detail_shown_example = detail_shown echo both_answers both_reached

abbrev refreshing : TraceStore String String String
refreshing = record both_answers { fetching = true; refreshes = claimed ∷ [] }

refreshing_reached : Reaches echo new_trace_store refreshing
unfolding select_trace new_trace_store store_detail
refreshing_reached = next both_reached (claim refl)

single_fetch_example :
    ((refreshing.refreshes ≡ []) × (refreshing.fetching ≡ false))
    ⊎ ((r : Refresh) × (refreshing.refreshes ≡ r ∷ []) × (refreshing.fetching ≡ true))
single_fetch_example = single_fetch echo refreshing refreshing_reached
