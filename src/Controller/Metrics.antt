-- ===== src/Controller/Metrics.antt =====
-- The counters of a controller (internal/controller/metrics.go); int64 counters are numbers without
-- a bound, and times are clock readings.
use gcplane.Base.{ℕ, ◌+◌, List, [], ◌∷◌, ltb, if◌then◌else◌}

pub record Metrics : Type 0 where
  pub sync_success : ℕ
  pub sync_errors : ℕ
  pub sync_duration : ℕ
  pub last_sync_time : ℕ
  pub drift_detected : ℕ
  pub drift_resources : ℕ
  pub provider_verify_errors : ℕ
  pub write_only_hash_mismatches : ℕ

abbrev pub no_metrics : Metrics
no_metrics = record {
  sync_success = 0;
  sync_errors = 0;
  sync_duration = 0;
  last_sync_time = 0;
  drift_detected = 0;
  drift_resources = 0;
  provider_verify_errors = 0;
  write_only_hash_mismatches = 0;
}

-- The body of the loop of `TenantManager.AggregatedMetrics`.
unfoldable pub aggregate : Metrics → Metrics → Metrics
aggregate agg snap = record {
  sync_success = agg.sync_success + snap.sync_success;
  sync_errors = agg.sync_errors + snap.sync_errors;
  sync_duration =
      if ltb agg.last_sync_time snap.last_sync_time then snap.sync_duration else agg.sync_duration;
  last_sync_time =
      if ltb agg.last_sync_time snap.last_sync_time
      then snap.last_sync_time
      else agg.last_sync_time;
  drift_detected = agg.drift_detected + snap.drift_detected;
  drift_resources = agg.drift_resources + snap.drift_resources;
  provider_verify_errors = agg.provider_verify_errors + snap.provider_verify_errors;
  write_only_hash_mismatches = agg.write_only_hash_mismatches + snap.write_only_hash_mismatches;
}

-- `AggregatedMetrics`, over the tenants in the order in which the map is visited.
unfoldable pub aggregated_from : Metrics → List Metrics → Metrics
aggregated_from agg [] = agg
aggregated_from agg (snap ∷ snaps) = aggregated_from (aggregate agg snap) snaps

unfoldable pub aggregated_metrics : List Metrics → Metrics
unfolding aggregated_from
aggregated_metrics snaps = aggregated_from no_metrics snaps
