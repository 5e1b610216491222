-- ===== src/Lib.antt =====
-- Verification of the plumbing library: the shared Go packages of the Krateo platform.
--
-- The packages are mostly independent of each other; each is modelled in files of its own.
--
-- - Cache: cache/cache.go, the TTL cache with a limit and eviction of the least recently used key.
--   Cache/Recency says what it promises, with a list of entries, the most recently used first.
--   The map and the recency list are the state; every method is a function on it, the cleanup goroutine
--   a function `tick` between calls. The mutex makes each method one step.
-- - Helm/Stripped, Helm/Manifest, Helm/Client, Helm/Reconcile: helm/v3/reconcile.go, the self-healing
--   apply of a release, with GetRelease and Upgrade of helm/v3/client.go. Helm/Api holds the data of
--   helm/helm.go and, as the record `Cluster`, every operation of helm, of its kube client and of
--   apimachinery that the code calls. Helm/Run is the state passing with its error exits and its trace.
-- - Helm/Duplicates: helm/v3/postrender_validation.go, the post-renderer that refuses duplicates.
-- - EventBus: eventbus/eventbus.go, subscriptions and the publication of events. What the collector of a
--   publication meets (results of handlers, the end of the context) is a list in order of arrival.
-- - Rbac: kubeutil/rbac/rbac.go, the authorizer, over the model of cache/cache.go as its cache. The two
--   review calls of the apiserver are operations of the record `Reviewer`.
-- - Retry: http/util/retry.go, the HTTP client that retries idempotent requests.
-- - Wait: wait/until.go, polling with a capped exponential backoff.
-- - Cors: server/use/cors/cors_utils.go, wildcard origins and header lists, as lists of bytes. Cors/Policy
--   and Cors/Handler: server/use/cors/cors.go, the tables that New makes and the handler.
-- - Discovery: kubeutil/discoveryevents/discoveryevents.go, the events for changes of what is served.
-- - Deps: deps/deps.go, the dependency graph, its cycle check and its topological order. The searches
--   and the layers run for a number of rounds, one more than there are nodes.
-- - Maps: maps/maps.go, maps/deepcopy.go, maps/paths.go and maps/reorder.go, nested values by paths. A
--   write returns the object after it and whether it was refused; a panic is `none`.
-- - Jwks: jwtutil/jwks.go, the cache of the keys that sign tokens. Each call has the readings of the clock
--   and the reply to its fetch; the mutex makes it one step.
-- - Recorder: kubeutil/eventrecorder/throttled_eventrecorder.go, the recorder that keeps back repeated
--   events. Time counts from Go's zero time, and the sum of hash/fnv is a parameter.
--   Recorder/Identity describes the streams and which of their calls send an event.
-- - Json: a JSON-like value of Go (`any` with maps and slices), shared by the models.
-- - Prelude: names, lists, association lists for Go maps, and integers.
--
-- Loops over slices and maps are structural recursions. The retries of Retry count down from the limit.
-- The loops of Wait and Deps have no bound in the code: they run for a number of polls or rounds, and
-- theorems give the number that is enough. A Go map is a list of entries
-- without repeated keys, in the order in which a `range` loop meets them. Time is an integer.
-- Not modelled: the contents of error messages, logging, contexts and their cancellation, data races.
pub mod Prelude
pub mod Cache
pub mod Cors
pub mod Deps
pub mod Discovery
pub mod EventBus
pub mod Helm
pub mod Json
pub mod Jwks
pub mod Maps
pub mod Rbac
pub mod Recorder
pub mod Retry
pub mod Wait
