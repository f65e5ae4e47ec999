-- ===== src/Tui/Traces.antt =====
-- The traces of the terminal interface (internal/tui/trace_store.go): the interface's calls and the
-- goroutines that refresh, as steps that interleave. What the lock guards is one step; a request to
-- GoClaw stands between two of them. `views.BuildSpanTree` is a parameter, and so is what GoClaw may
-- answer.
pub mod Details
pub mod Fetches
use gcplane.Base.{
  ℕ, String, Bool, true, false, ◌≡◌, Option, none, List, [], ◌∷◌, ◌++◌, ◌==◌, nat_eq, if◌then◌else◌,
}

-- `views.TraceFilters`
pub record TraceFilters : Type 0 where
  pub agent_id : String
  pub channel : String
  pub limit : ℕ
  pub offset : ℕ

-- Where a call of `RefreshList` stands: it has won the swap, has read the filters, or has only the
-- flag left to reset.
pub data Refresh : Type 0 where
  claimed : Refresh
  asking : TraceFilters → Refresh
  leaving : Refresh

-- `TraceStore` with the calls in progress, for a type of traces, of spans and of tree nodes.
pub record TraceStore (Trace Span Node : Type 0) : Type 0 where
  pub traces : List Trace
  pub total : ℕ
  pub filters : TraceFilters
  pub selected_id : String
  pub spans : List Span
  pub span_tree : List Node
  pub selected_data : Option Trace
  pub list_dirty : Bool
  pub detail_dirty : Bool
  pub fetching : Bool
  -- the calls of `RefreshList` that go on
  pub refreshes : List Refresh
  -- the ids that the calls of `RefreshDetail` have read
  pub requested : List String

-- What GoClaw may answer to `ListTraces` and `GetTrace`, and `views.BuildSpanTree`.
pub record Server (Trace Span Node : Type 0) : Type 1 where
  pub Lists : TraceFilters → List Trace → ℕ → Type 0
  pub Gets : String → Option Trace → List Span → Type 0
  pub build_span_tree : List Span → List Node

module _ {Trace Span Node : Type 0} where
  -- `NewTraceStore`
  unfoldable pub new_trace_store : TraceStore Trace Span Node
  new_trace_store = record {
    traces = [];
    total = 0;
    filters = record { agent_id = ""; channel = ""; limit = 50; offset = 0 };
    selected_id = "";
    spans = [];
    span_tree = [];
    selected_data = none;
    list_dirty = false;
    detail_dirty = false;
    fetching = false;
    refreshes = [];
    requested = [];
  }

  -- `SetFilters`
  unfoldable pub set_filters :
      TraceStore Trace Span Node → TraceFilters → TraceStore Trace Span Node
  set_filters s f = record s {
    filters = record f { limit = if nat_eq f.limit 0 then 50 else f.limit };
    list_dirty = true;
  }

  -- `SelectTrace`
  unfoldable pub select_trace : TraceStore Trace Span Node → String → TraceStore Trace Span Node
  select_trace s id = if s.selected_id == id then s else record s {
    selected_id = id;
    spans = [];
    span_tree = [];
    selected_data = none;
    detail_dirty = true;
  }

module _ {Trace Span Node : Type 0} (server : Server Trace Span Node) where
  -- The end of `RefreshDetail`, under the lock.
  unfoldable pub store_detail :
      TraceStore Trace Span Node → String → Option Trace → List Span → TraceStore Trace Span Node
  store_detail s id trace spans =
      if s.selected_id == id
      then record s {
        selected_data = trace;
        spans = spans;
        span_tree = server.build_span_tree spans;
        detail_dirty = false;
      }
      else s

  pub data Step (s : TraceStore Trace Span Node) : TraceStore Trace Span Node → Type 0 where
    -- `NotifyTraceUpdated`, `NotifyDetailDirty`, `SetFilters` and `SelectTrace`
    notify_trace_updated : Step s (record s { list_dirty = true })
    notify_detail_dirty : Step s (record s { detail_dirty = true })
    filter : (f : TraceFilters) → Step s (set_filters s f)
    select : (id : String) → Step s (select_trace s id)
    -- `RefreshList`: the swap, the reading of the filters, the answer or the error, the reset.
    claim :
        s.fetching ≡ false
        → Step s (record s { fetching = true; refreshes = claimed ∷ s.refreshes })
    ask_list :
        (before after : List Refresh)
        → s.refreshes ≡ before ++ claimed ∷ after
        → Step s (record s { refreshes = before ++ asking s.filters ∷ after })
    answer_list :
        (before after : List Refresh) (f : TraceFilters) (traces : List Trace) (total : ℕ)
        → s.refreshes ≡ before ++ asking f ∷ after
        → server.Lists f traces total
        → Step s (record s {
          traces = traces;
          total = total;
          list_dirty = false;
          refreshes = before ++ leaving ∷ after;
        })
    fail_list :
        (before after : List Refresh) (f : TraceFilters)
        → s.refreshes ≡ before ++ asking f ∷ after
        → Step s (record s { refreshes = before ++ leaving ∷ after })
    leave :
        (before after : List Refresh)
        → s.refreshes ≡ before ++ leaving ∷ after
        → Step s (record s { fetching = false; refreshes = before ++ after })
    -- `RefreshDetail`: it reads the id, and gets an answer or an error.
    ask_detail :
        (s.selected_id == "") ≡ false
        → Step s (record s { requested = s.selected_id ∷ s.requested })
    answer_detail :
        (before after : List String) (id : String) (trace : Option Trace) (spans : List Span)
        → s.requested ≡ before ++ id ∷ after
        → server.Gets id trace spans
        → Step s (store_detail (record s { requested = before ++ after }) id trace spans)
    fail_detail :
        (before after : List String) (id : String)
        → s.requested ≡ before ++ id ∷ after
        → Step s (record s { requested = before ++ after })

  pub data Reaches : TraceStore Trace Span Node → TraceStore Trace Span Node → Type 0 where
    here : {s : TraceStore Trace Span Node} → Reaches s s
    next : {p q r : TraceStore Trace Span Node} → Reaches p q → Step q r → Reaches p r
