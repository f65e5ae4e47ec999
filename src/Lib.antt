-- ===== src/Lib.antt =====
-- gcplane keeps a GoClaw deployment as a YAML manifest declares it. A manifest is loaded, its
-- composites are expanded and it is validated (internal/manifest). The engine (internal/reconciler)
-- walks the kinds of resources in the apply order: it observes each resource through a provider,
-- compares it with the declared spec, and then creates or updates it; at the end it prunes what
-- gcplane once created and the manifest no longer declares. The controller (internal/controller)
-- repeats this in cycles and keeps conditions, counters and waiters.
--
-- Which file models what:
-- - Base, Base/Logic, Base/Dict and Base/Text: tests, lists, errors as values, Go's maps as
--   association lists, and Go's functions on strings.
-- - Spec: the values of a resource's spec. A Go map is a list of fields, in the order in which a
--   range loop visits it; the claims hold for every order.
-- - Manifest/Kind, Resource, Order, WriteOnly, Labels: internal/manifest/types.go,
--   delete_order.go, field_config.go, annotations.go and filter.go.
-- - Manifest/Composite and Manifest/Loader: composite.go and the merge of loader.go. Text templates,
--   the YAML codec and file reading are parameters.
-- - Manifest/References, Constraint, SkillSpec and Validate: validate_refs.go and validate.go. An
--   error is a value with the data that the source prints. The semver package and the packing of a
--   skill directory are parameters.
-- - Reconciler/Compare and WriteOnlyHash: internal/reconciler/compare.go and write_only_hash.go.
--   Floating-point arithmetic and the digest (JSON and SHA-256) are parameters.
-- - Reconciler/Types, Secrets, Step, Execute, Prune and Engine: types.go and engine.go. A
--   provider is any state with its five operations; a call that writes may fail and change the
--   state all the same. Observe and ListAll are taken to leave the state alone, so that the GoClaw
--   provider, which opens its socket and stores the tenant's id when it reads, is modelled by
--   itself. `secrets.Resolve` is a parameter.
-- - Reconciler/Pool: executeChanges with workers in parallel, as a step relation on the waiting, the
--   running and the returned jobs; a call of the provider is one step.
-- - Controller/Status, Metrics, Verify and Cycle: internal/controller/status.go, metrics.go,
--   verify.go, reconcileOnce of controller.go, and AggregatedMetrics of tenant_manager.go. Time is a
--   function that gives the readings of the clock in order.
-- - Controller/Waiters: Run, Trigger, TriggerAndWait and notifyWaiters of controller.go, as a step
--   relation in which callers, timers and the loop interleave; a cycle is a phase in it.
-- - Keyconv: internal/keyconv/keyconv.go. Go's unicode tables are a parameter.
-- - Goclaw/Io: the connection to GoClaw as a parameter (an HTTP exchange, the JSON codec, the
--   socket's calls), the provider's state, Go's wrapped errors and the steps on them. Goclaw/Http,
--   Helpers, Tenants, Resources, Sockets, Links, Cli, Configs, Servers, WorkstationSpec,
--   Workstations, Listing, Inventory and Dispatch: http_client.go, helpers.go, tenants.go,
--   providers.go, agents.go, channels.go, cron_jobs.go, teams.go, agent_links.go, secure_cli.go,
--   secure_cli_grants.go, builtin_tool_configs.go, skill_configs.go, system_configs.go,
--   mcp_servers.go, mcp_credentials.go, delete.go, list_all.go, workstations.go and provider.go of
--   internal/provider/goclaw.
-- - Tui/Ring and Tui/Live: the rings of internal/tui/trace/ring_handler.go and
--   internal/tui/live_store.go, and which frame goes to which ring.
-- - Tui/Traces: internal/tui/trace_store.go, as a step relation in which the interface's calls and the
--   goroutines that refresh interleave.
-- - Tests: a provider in memory, runs of the engine, and the theorems at concrete data.
--
-- Every loop of the modelled code is over a finite list, a spec or a text, and is modelled by
-- recursion on it: no fuel is used, and every function is total. Counters are natural numbers
-- without the bound of the source's machine integers.
--
-- Not modelled: log output, contexts and timeouts; the parallel observe phase (Reconcile and the
-- controller's cycle are modelled with the sequential branches, and the worker pool of the
-- execute phase by itself); maps with keys that are not texts; the length of the timers of Run
-- and Trigger; the starting and stopping of tenants; the provider's WebSocket client, the
-- handlers of skills (a parameter of Goclaw/Dispatch) and the upload of files; the sources, the
-- server, the notifier, the display, the rest of the terminal interface, the update command and
-- the filesystem skills, which are input and output.
pub mod Base
pub mod Spec
pub mod Manifest
pub mod Reconciler
pub mod Controller
pub mod Keyconv
pub mod Goclaw
pub mod Tui
pub mod Tests
