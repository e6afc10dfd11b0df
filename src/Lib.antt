-- ===== src/Lib.antt =====
-- OpenLLM Metrics: a telemetry control plane for LLM APIs. The development models the Go code.
--
-- Gateway (apps/gateway/internal/proxy/streaming.go). Gateway.Sink is usageSink and Gateway.Tap is
-- tappingReader: `new_usage_sink`, `snapshot`, `append_buffered`, `set_last`, `set_model_once`,
-- `read`, `sample_streaming` (its loop is `drain`, on fuel one more than the bytes held, which is
-- enough since each round but the last removes a newline), `consider`, `extract_stream_model` and
-- `flush_tail` are the functions of these names. encoding/json is the parameter `decode`.
-- Gateway.Usage has the parsers of internal/usage; Gateway.Observer.Routes and Gateway.Observer.Events
-- are internal/observer/observer.go (`classify_route`, `classify`, `observe_completion`) and the event
-- and `Emit` of internal/busproducer/busproducer.go (`marshal`, `emit`). The event goes over the bus
-- into Metrics.
--
-- Audit (apps/api/audit-service, cmd/olm-audit). Audit.Consumer is the handler of
-- internal/consumer/consumer.go with Audit.Redact its redaction, over the JSON values of Audit.Json;
-- the record's decoding and the sink are parameters. Audit.Canonical is `encode` and `encodeString` of
-- internal/hasher/hasher.go. Audit.Chain has `Compute` (`compute`), `Append` and `StreamForVerify`
-- (`append`, `segment`) of internal/store/store.go over a list of rows in id order, and the verify
-- handler of internal/handler/verify.go (`visit`, `verify_rows`, `serve_verify`). SHA-256, base64 and
-- the printing of numbers and times are the record `Encoders`.
--
-- Strings are lists of character codes, and strings.TrimSpace and strings.ToLower are those of ASCII
-- input. Mutexes are left out: each method is one atomic step. A number of a JSON document is held
-- by its text.
--
--
-- Dedup (apps/worker/usage-poller/openai/internal/dedup/dedup.go and
-- apps/api/metrics-endpoint/internal/consumer/dedup.go, whose LRU is the same code). Dedup has
-- `new_lru` and `seen` over the list and the key set of the map beside it; Dedup.Key is the record
-- `Key` with `key_string`, its method String. Dedup.Window has the specification: a history that
-- forgets nothing.
--
-- Notifier (apps/worker/notifier/internal). Notifier.Router is `Route` of router/router.go.
-- Notifier.Ledger is ClaimDelivery and MarkDelivery of store/store.go over the rows of
-- notification_deliveries; a claim or an update that fails leaves the rows as they are.
-- Notifier.Fanout is `handle`, `fanOut` (`fan_out`, its loop `attempt`, structural on the attempts
-- that are left), `dispatch` and `sleepWithCtx` (`sleep`) of consumer/consumer.go; Notifier.Backoff
-- and Notifier.Scrub are `backoff` and `scrubSensitive`. The sinks are functions from a channel's
-- configuration, and what the outside answers depends on the number of calls made before (`clock`).
-- Durations are unbounded: the largest is bounded by a configured int, far below 2^63 ns.
--
-- Reconciler (apps/worker/reconciler/internal). Reconciler.Store is UpsertResult, ScanClosable and
-- MarkStatus of store/store.go over a list of rows; Reconciler.Joiner is joiner/joiner.go
-- (`record_estimate`, `record_reconciled`, `snapshot`, `forget`) and Reconciler.Closer is `RunOnce` of
-- closer/closer.go (`run_once`, with what the consumer handles between its calls, `Meanwhile`) with
-- the worker's run of events, and Reconciler.Windows is
-- `windowsInPeriod` of consumer/consumer.go. float64 is a type `C` with the
-- operations the code uses (`Floats`); the theorems use no law of them. Times are nanoseconds since
-- Go's zero time.
--
-- Quota (apps/worker/quota-risk/internal). Quota.Numbers and Quota.Parser are the parsers of
-- parser/*.go on a list of headers, int64 sums and products wrapped around; the package time's parsers
-- of RFC 3339 times and Go durations are the record `Times`. Quota.Model is model/model.go
-- (`observe`, `snapshot`, `used_ratio`, `risk_score`), its maps a list of rows, float64 a type
-- `C` with the operations the code uses (`Floats`).
--
-- Contracts (packages/contracts, packages/telemetry/schema-lint/go). Contracts is the metric registry
-- of metrics/go/registry.go and the topics of telemetry/go/schemas.go; Contracts.Lint is `LintEvent`
-- (`lint_event`) and `LintMetric` (`lint_metric`) of lint.go with each of their checks.
--
-- Metrics (apps/api/metrics-endpoint/internal). Metrics.Projection is aggregator/projection.go and
-- Metrics.Aggregator is aggregator/aggregator.go (`apply`, `snapshot`, `label_fingerprint`), its maps
-- association lists; Metrics.Exposition is exposition/exposition.go (`write`), Metrics.Consumer and
-- Metrics.Stream are consumer/consumer.go (`run`) and consumer/busstream.go (`next`), Metrics.Server
-- the handlers of server/server.go and Metrics.Config `Parse` of config/config.go (`parse`). The
-- consumer's cache is that of Dedup and its events pass through Contracts.Lint into the aggregator.
-- float64 is a type `C` with the operations the code uses (`Floats`). The digits of a list index in a
-- lint path are on fuel one more than the index, which is enough since each digit divides by ten.
--
-- Cost (apps/worker/cost-mapper). Cost.Catalog is internal/catalog/catalog.go (`load_dir`, `lookup`),
-- Cost.Mapper is `Estimate` of internal/mapper/mapper.go, Cost.Drift is `RecordEstimate` and
-- `ApplyReconciled` of internal/reconciler/reconciler.go with `UpsertDrift` of internal/store/store.go,
-- and Cost.Worker the handlers of cmd/cost-mapper/main.go (`handle_runtime`, `handle_reconciled`) with
-- the catalog's reload as a step of `run`. It reads the gateway's events and those of the FOCUS
-- ingester. Files, YAML and JSON decoding, SHA-256 and the present time are parameters, float64 is a
-- type `C` with the operations the code uses (`Floats`).
--
-- Not modelled: configuration files, HTTP servers, Kafka, Postgres and process start, which are input
-- and output; the policy, decision and analytics services, the FOCUS ingester, the label translator, the
-- gateway's proxying, the SDK, the telemetry redaction and the collector receiver. Of these the parts
-- above read the events only.
pub mod Prelude
pub mod Gateway
pub mod Audit
pub mod Dedup
pub mod Notifier
pub mod Reconciler
pub mod Quota
pub mod Contracts
pub mod Cost
pub mod Metrics
