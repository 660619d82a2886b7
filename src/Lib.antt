-- ===== src/Lib.antt =====
-- The zensu monitoring agent: a process that reports the status of annotated Kubernetes workloads, and
-- reads their CPU and memory from metrics-server or from a Prometheus exposition.
--
-- How the parts interact: the agent (internal/agent) lists workloads, asks a metric source once for all
-- of them, and posts one batch. The exposition source fetches a scrape, decodes it to series
-- (internal/scrape/scrape.go), selects one metric family for each role and drops rows that would count
-- a pod twice (internal/scrape/resolve.go), turns counters into rates (internal/scrape/rate.go), and
-- attributes each row to a service by the slug index (internal/agent/exposition.go).
--
-- Which file models which part:
--   Prelude/*              what all modules share: byte strings, Go maps as association lists with
--                          `get` and `put`, `sort.Strings`, integers, float64 as an interface
--   Scrape/Series.antt     `Series`, `Kind`, `Fingerprint`, `lenPrefixedSize`, `writeLenPrefixed`
--   Scrape/Resolve.antt    internal/scrape/resolve.go: `summable`, `match_family`, `select`,
--                          `candidate_names`; Scrape/BaseNames.antt its `NormalizeName`, and
--                          Scrape/Labels.antt its readers of labels
--   Scrape/Rate.antt       internal/scrape/rate.go, whole: `observe` is one function from the Rater
--                          before and the scrape to the Rater after and the rates
--   Scrape/Decode.antt     the rest of internal/scrape/scrape.go: `fetch`, `decode`, `read_limit`
--   Agent/Index.antt       `ServiceTarget`, `newSlugIndex`, `slugIndex.resolve`
--   Agent/Exposition.antt  the data of internal/agent/exposition.go and the sums of `reduce`;
--                          Agent/Exposition/Tick.antt the methods of `expositionSource`
--   Agent/Source.antt      internal/agent/source.go, whole
--   Agent/Build.antt       the sources that `NewMetricSource` builds, each with its methods
--   Agent/Workload.antt    of internal/agent/k8s.go: what is read of Deployments, Pods and PodMetrics;
--                          internal/agent/types.go
--   Agent/Cluster.antt     the rest of internal/agent/k8s.go: `clientsetLister` and its constructors
--   Agent/Collect.antt     of internal/agent/agent.go: the listing of `Collect`, `warnDuplicateSlug`
--   Agent/Reporter.antt    internal/agent/reporter.go, whole
--   Agent/Counts.antt      of internal/agent/agent.go: what `Collect` counts and shows in the metrics
--   Agent/Tick.antt        the rest of internal/agent/agent.go: `Agent`, `collect`, `tick`, `run`
--   Metrics.antt           internal/metrics/metrics.go: each series is a field, each method a function
--   Startup.antt           of cmd/zensu-monitoring-agent/main.go: the readers of the environment;
--                          Startup/Start.antt what `run` refuses, what it starts and how it ends;
--                          Startup/Process.antt `main`, up to the status of the process
--   Redact.antt            internal/redact/redact.go
-- The modules below each of these prove what their names say; a `Tests` module runs the definitions.
--
-- Conventions. A Go string is the list of its bytes. A map is an association list whose order is one of
-- the orders in which Go may walk it. A method that changes its receiver returns the new record. A pair
-- of a value and `ok` is an `Option`. float64 is the record `Float64` of Prelude/Float.antt: the type
-- and the operations that the program calls, with no laws assumed but where a theorem says so; `Clock` gives
-- the seconds between two readings of the clock, and a reading is an argument of the operation that takes it. Prelude/Sample.antt
-- has an instance of both, on which the tests run.
--
-- Fuel. `normalize_loop` takes the rounds of the loop of `NormalizeName`: one more than the bytes of the
-- name, and each round that goes on takes off a byte at least. `digits` and `count_digits` take more fuel
-- than the number that they print.
-- `trim` of `strings.TrimSpace` takes the length of the string, and each round takes off a byte at least.
-- `decode_from` and `rows_of` run over the families and the metrics that the parser gave.
--
-- What is outside the program is a parameter or an argument: the parser of the exposition format (`parse`),
-- what the HTTP client answers (`Exchange`, `Response`), what the Kubernetes clients answer
-- (`PodReading`, `Listing`; in Agent/Cluster.antt `ListAnswer` and `ApiError`), what the constructors of
-- client-go give (`ClientLibrary`), the parsed flag `-once`, `json.Marshal` and the client that posts a batch (`marshal`,
-- `post`), `url.Parse`, `time.ParseDuration`, `slog.Level.UnmarshalText` and `int32(d.Seconds())`, the
-- variables of the environment, the memory limit of the Go runtime, readings of the clock.
--
-- The agent over time. `Environment` is what one tick meets: what the cluster lists, what the post is answered,
-- what the clock reads, and whether the context is done. `run` takes the sequence of what wakes its loop: the
-- ticker, with the environment of that tick, or the end of the context. The metric source of the agent is any
-- state with the methods of `MetricSource`, and so is each of the sources that `run` of main.go may build;
-- Agent/Build.antt has those of internal/agent, where `World` says what each call of each source meets.
--
-- Not modelled: how the flag is parsed and how a signal ends the context; the inside of the HTTP and
-- Kubernetes clients; the Prometheus registry, its text format and the HTTP server of `Serve`; the goroutine that
-- serves the metrics, beyond its address; lines logged at debug level, and the wording of errors and warnings.
pub mod Agent
pub mod Metrics
pub mod Prelude
pub mod Redact
pub mod Scrape
pub mod Startup
